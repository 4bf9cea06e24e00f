-- ===== src/Macros/Implemented.antt =====
-- Exactly what `impl_hookable!` of src/macros.rs implements.
use detour_rs.Base.{
  ℕ, zero, suc, ◌≤◌, ◌≡◌, ◌⊎◌, ◌↔◌, inl, inr, refl, sym, subst, Bool, true, false, Option, List, [],
  ◌∷◌, ◌++◌, length, take, arith, Bool-cases,
}
use Prim.Native.String.{String}
use mathlib.Core.List.{append_assoc, append-nil}
use detour_rs.Arch.{TargetArch}
use detour_rs.Macros.Hookable.{
  FnType, Impl, function, hookable_with, static_call, generic_call, fn, impl_pair, conventions,
  impl_pairs, impl_all, recurse, impl_hookable,
}

abbrev pub Has : {A : Type 0} → A → List A → Type 0
Has x [] = ⊥
Has x (y ∷ ys) = (x ≡ y) ⊎ Has x ys

Has-append : {A : Type 0} (x : A) (ys zs : List A) → Has x (ys ++ zs) ↔ (Has x ys ⊎ Has x zs)
Has-append x [] zs = (λ h. inr h, λ h. elim h [ inl e ↦ absurd e | inr h ↦ h ])
Has-append x (y ∷ ys) zs = (
  λ h. elim h [
    | inl e ↦ inl (inl e)
    | inr h ↦ elim ((Has-append x ys zs).0 h) [ inl k ↦ inl (inr k) | inr k ↦ inr k ]
  ],
  λ h. elim h [
    | inl h ↦ elim h [ inl e ↦ inl e | inr k ↦ inr ((Has-append x ys zs).1 (inl k)) ]
    | inr k ↦ inr ((Has-append x ys zs).1 (inr k))
  ],
)

module _ (arch : TargetArch) (nightly : Bool) where
  -- What is to be implemented for a list of types and a calling convention.
  abbrev pub Wanted : List String → Option String → Impl → Type 0
  Wanted types convention (function f) = (f.types ≡ types) × (f.convention ≡ convention)
  Wanted types convention (hookable_with target detour) =
      (target ≡ fn arch nightly true convention types)
      × (detour ≡ fn arch nightly false convention types)
  Wanted types convention (static_call f) =
      (nightly ≡ true) × (f.types ≡ types) × (f.convention ≡ convention)
  Wanted types convention (generic_call f) = (f.types ≡ types) × (f.convention ≡ convention)

-- The pair of a calling convention implements what is wanted for it.
pair-Wanted :
    (arch : TargetArch) (nightly : Bool) (types : List String) (c : Option String) (x : Impl)
    → Has x (impl_pair arch nightly types c)
    → Wanted arch nightly types c x
unfolding impl_pair
pair-Wanted arch true types c (function f) h = ground arith
pair-Wanted arch true types c (hookable_with f g) h = ground arith
pair-Wanted arch true types c (static_call f) h = ground arith
pair-Wanted arch true types c (generic_call f) h = ground arith
pair-Wanted arch false types c (function f) h = ground arith
pair-Wanted arch false types c (hookable_with f g) h = ground arith
pair-Wanted arch false types c (static_call f) h = ground arith
pair-Wanted arch false types c (generic_call f) h = ground arith

fn-eq :
    (arch : TargetArch) (nightly : Bool) (f : FnType) (types : List String) (c : Option String)
    → f.types ≡ types
    → f.convention ≡ c
    → (f ≡ fn arch nightly true c types) ⊎ (f ≡ fn arch nightly false c types)
fn-eq arch nightly f types c h k = elim (Bool-cases f.is_unsafe) [
  | inl e ↦ inl (ground arith)
  | inr e ↦ inr (ground arith)
]

Wanted-in_pair :
    (arch : TargetArch) (nightly : Bool) (types : List String) (c : Option String) (x : Impl)
    → Wanted arch nightly types c x
    → Has x (impl_pair arch nightly types c)
unfolding impl_pair
Wanted-in_pair arch true types c (function f) h = ground (arith, fn-eq arch true f types c)
Wanted-in_pair arch true types c (hookable_with f g) h = ground arith
Wanted-in_pair arch true types c (static_call f) h = ground (arith, fn-eq arch true f types c)
Wanted-in_pair arch true types c (generic_call f) h = ground (arith, fn-eq arch true f types c)
Wanted-in_pair arch false types c (function f) h = ground (arith, fn-eq arch false f types c)
Wanted-in_pair arch false types c (hookable_with f g) h = ground arith
Wanted-in_pair arch false types c (static_call f) h = cc
Wanted-in_pair arch false types c (generic_call f) h = ground (arith, fn-eq arch false f types c)

-- What is wanted for one of the calling conventions.
abbrev ForSome : (arch : TargetArch) → Bool → List String → List (Option String) → Impl → Type 0
ForSome arch nightly types cs x = (c : Option String) × Has c cs × Wanted arch nightly types c x

pairs_iff :
    (arch : TargetArch) (nightly : Bool) (types : List String) (cs : List (Option String))
    (x : Impl)
    → Has x (impl_pairs arch nightly types cs) ↔ ForSome arch nightly types cs x
pairs_iff arch nightly types [] x = (λ h. absurd h, λ (c, h, k). absurd h)
pairs_iff arch nightly types (c ∷ cs) x =
    let split = Has-append x (impl_pair arch nightly types c) (impl_pairs arch nightly types cs) in
    let rest = pairs_iff arch nightly types cs x in
    (
      λ h. elim (split.0 h) [
        | inl k ↦ (c, inl refl, pair-Wanted arch nightly types c x k)
        | inr k ↦ let (c', in_rest, w) = rest.0 k in (c', inr in_rest, w)
      ],
      λ (c', m, w). elim m [
        | inl e ↦ split.1 (
            inl (
              Wanted-in_pair arch nightly types c x
                (subst (λ k. Wanted arch nightly types k x) e w)))
        | inr in_rest ↦ split.1 (inr (rest.1 (c', in_rest, w)))
      ],
    )

all_iff :
    (arch : TargetArch) (nightly : Bool) (types : List String) (x : Impl)
    → Has x (impl_all arch nightly types) ↔ ForSome arch nightly types (conventions arch nightly) x
unfolding impl_all
all_iff arch nightly types x = pairs_iff arch nightly types (conventions arch nightly) x

-- What is wanted for the types taken so far, with a number of those that are left.
abbrev pub Prefix : TargetArch → Bool → (left taken : List String) → Impl → Type 0
Prefix arch nightly left taken x =
    (n : ℕ) × (n ≤ length left)
    × ForSome arch nightly (taken ++ take n left) (conventions arch nightly) x

module _ (arch : TargetArch) (nightly : Bool) (x : Impl) where
  abbrev Wants : List String → Type 0
  Wants types = ForSome arch nightly types (conventions arch nightly) x

  prefix_none : (left taken : List String) → Wants taken → Prefix arch nightly left taken x
  prefix_none left taken h = (0, omega arith, subst Wants (sym (append-nil taken)) h)

  prefix_more :
      (type : String) (left taken : List String)
      → Prefix arch nightly left (taken ++ type ∷ []) x
      → Prefix arch nightly (type ∷ left) taken x
  prefix_more type left taken (n, le, h) =
      (suc n, omega arith, subst Wants (append_assoc taken (type ∷ []) (take n left)) h)

  prefix_cases :
      (n : ℕ) (type : String) (left taken : List String)
      → n ≤ suc (length left)
      → Wants (taken ++ take n (type ∷ left))
      → Wants taken ⊎ Prefix arch nightly left (taken ++ type ∷ []) x
  prefix_cases zero type left taken le h = inl (subst Wants (append-nil taken) h)
  prefix_cases (suc n) type left taken le h =
      inr (n, omega arith, subst Wants (sym (append_assoc taken (type ∷ []) (take n left))) h)

  prefix_end : (n : ℕ) (taken : List String) → Wants (taken ++ take n []) → Wants taken
  prefix_end zero taken h = subst Wants (append-nil taken) h
  prefix_end (suc n) taken h = subst Wants (append-nil taken) h

  recurse_iff :
      (left taken : List String)
      → Has x (recurse arch nightly left taken) ↔ Prefix arch nightly left taken x
  unfolding recurse
  recurse_iff [] taken =
      let here = all_iff arch nightly taken x in
      (λ h. prefix_none [] taken (here.0 h), λ (n, le, h). here.1 (prefix_end n taken h))
  recurse_iff (type ∷ left) taken =
      let here = all_iff arch nightly taken x in
      let rest = recurse_iff left (taken ++ type ∷ []) in
      let split =
        Has-append x (impl_all arch nightly taken)
          (recurse arch nightly left (taken ++ type ∷ [])) in
      (
        λ h. elim (split.0 h) [
          | inl k ↦ prefix_none (type ∷ left) taken (here.0 k)
          | inr k ↦ prefix_more type left taken (rest.0 k)
        ],
        λ (n, le, h). elim (prefix_cases n type left taken le h) [
          | inl k ↦ split.1 (inl (here.1 k))
          | inr k ↦ split.1 (inr (rest.1 k))
        ],
      )

-- Exactly these are implemented: for each number of the types, from none to all of them, and each
-- calling convention of the target, the trait `Function` and the method `call` of a generic detour
-- for the safe and for the unsafe function type, that method of a static detour on nightly, and
-- `HookableWith` for the unsafe type with the safe one as the detour, never the other way.
pub impl_hookable_iff :
    (arch : TargetArch) (nightly : Bool) (types : List String) (x : Impl)
    → Has x (impl_hookable arch nightly types) ↔ (
        (n : ℕ) × (n ≤ length types)
        × ((c : Option String) × Has c (conventions arch nightly)
            × Wanted arch nightly (take n types) c x))
unfolding impl_hookable
impl_hookable_iff arch nightly types x = recurse_iff arch nightly x types []

-- ===== src/Macros/Expand.antt =====
-- The expansion of `static_detour!` of src/macros.rs, a call inside a call, down to the limit that
-- rustc has for it.
use detour_rs.Base.{
  ℕ, zero, suc, ◌+◌, ◌≡◌, refl, subst, Option, none, some, List, [], ◌∷◌, ◌++◌, if◌then◌else◌, leb,
  max, arith, ◌⊎◌, inl, inr,
}
use detour_rs.Macros.{Token, Item, Invocation, boot, item, call, calls, rule}

abbrev pub appended : Option (List Item) → Option (List Item) → Option (List Item)
appended (some xs) (some ys) = some (xs ++ ys)
appended _ _ = none

-- The items that a call expands to with `limit` calls inside one another, and `none` where rustc
-- refuses: no rule matches, or only the one that matches anything, which puts a label that no token
-- is in front and so is called again until the limit is met.
unfoldable pub expand : (limit : ℕ) → Invocation → Option (List Item)
expand zero c = none
expand (suc limit) c = elim (rule c) [
  | none ↦ none
  | some (item i) ↦ some (i ∷ [])
  | some (call c') ↦ expand limit c'
  | some (calls c' c'') ↦ appended (expand limit c') (expand limit c'')
]

-- static_detour! { tokens }
unfoldable pub static_detour : (limit : ℕ) → List Token → Option (List Item)
unfolding expand
static_detour limit tokens = expand limit (boot tokens)

-- A call expands to the items where the limit is `n` at least, and to none below it.
pub record Yields (n : ℕ) (c : Invocation) (items : List Item) : Type 0 where
  pub yields : (limit : ℕ) → expand limit c ≡ (if leb n limit then some items else none)

item_limits :
    (c : Invocation) (i : Item) (limit : ℕ)
    → rule c ≡ some (item i)
    → expand limit c ≡ (if leb 1 limit then some (i ∷ []) else none)
unfolding expand
item_limits c i zero e = refl
item_limits c i (suc limit) e = rw (expand, e) (ground arith)

pub Yields-item : {c : Invocation} {i : Item} → rule c ≡ some (item i) → Yields 1 c (i ∷ [])
Yields-item {c} {i} e = record { yields = λ limit. item_limits c i limit e }

call_limits :
    (n : ℕ) (c c' : Invocation) (items : List Item) (limit : ℕ)
    → rule c ≡ some (call c')
    → Yields n c' items
    → expand limit c ≡ (if leb (suc n) limit then some items else none)
unfolding expand
call_limits n c c' items zero e h = ground arith
call_limits n c c' items (suc limit) e h = rw (expand, e, h.yields limit) (ground arith)

pub Yields-call :
    {n : ℕ} {c c' : Invocation} {items : List Item}
    → rule c ≡ some (call c')
    → Yields n c' items
    → Yields (suc n) c items
Yields-call {n} {c} {c'} {items} e h = record {
  yields = λ limit. call_limits n c c' items limit e h;
}

calls_limits :
    (n k : ℕ) (c c' c'' : Invocation) (xs ys : List Item) (limit : ℕ)
    → rule c ≡ some (calls c' c'')
    → Yields n c' xs
    → Yields k c'' ys
    → expand limit c ≡ (if leb (suc (max n k)) limit then some (xs ++ ys) else none)
unfolding expand
calls_limits n k c c' c'' xs ys zero e h h' = ground arith
calls_limits n k c c' c'' xs ys (suc limit) e h h' =
    rw (expand, e, h.yields limit, h'.yields limit) (ground arith)

pub Yields-calls :
    {n k : ℕ} {c c' c'' : Invocation} {xs ys : List Item}
    → rule c ≡ some (calls c' c'')
    → Yields n c' xs
    → Yields k c'' ys
    → Yields (suc (max n k)) c (xs ++ ys)
Yields-calls {n} {k} {c} {c'} {c''} {xs} {ys} e h h' = record {
  yields = λ limit. calls_limits n k c c' c'' xs ys limit e h h';
}

-- A call is refused at every limit.
pub record Refuses (c : Invocation) : Type 0 where
  pub refuses : (limit : ℕ) → expand limit c ≡ none

none_refuses : (c : Invocation) (limit : ℕ) → rule c ≡ none → expand limit c ≡ none
unfolding expand
none_refuses c zero e = refl
none_refuses c (suc limit) e = rw (expand, e) refl

pub Refuses-none : {c : Invocation} → rule c ≡ none → Refuses c
Refuses-none {c} e = record { refuses = λ limit. none_refuses c limit e }

call-Refuses :
    (c c' : Invocation) (limit : ℕ) → rule c ≡ some (call c') → Refuses c' → expand limit c ≡ none
unfolding expand
call-Refuses c c' zero e h = refl
call-Refuses c c' (suc limit) e h = rw (expand, e, h.refuses limit) refl

pub Refuses-call : {c c' : Invocation} → rule c ≡ some (call c') → Refuses c' → Refuses c
Refuses-call {c} {c'} e h = record { refuses = λ limit. call-Refuses c c' limit e h }

appended-none : (r : Option (List Item)) → appended r none ≡ none
appended-none none = refl
appended-none (some xs) = refl

calls_refuse :
    (c c' c'' : Invocation) (limit : ℕ)
    → rule c ≡ some (calls c' c'')
    → Refuses c' ⊎ Refuses c''
    → expand limit c ≡ none
unfolding expand
calls_refuse c c' c'' zero e h = refl
calls_refuse c c' c'' (suc limit) e (inl h) = rw (expand, e, h.refuses limit) refl
calls_refuse c c' c'' (suc limit) e (inr h) =
    rw (expand, e, h.refuses limit) (appended-none (expand limit c'))

pub Refuses-calls :
    {c c' c'' : Invocation} → rule c ≡ some (calls c' c'') → Refuses c' ⊎ Refuses c'' → Refuses c
Refuses-calls {c} {c'} {c''} e h = record { refuses = λ limit. calls_refuse c c' c'' limit e h }

-- Calls that expand to one call each, from one to another.
pub data Leads : ℕ → Invocation → Invocation → Type 0 where
  here : {c : Invocation} → Leads 0 c c
  next :
      {n : ℕ} {c c' c'' : Invocation}
      → rule c ≡ some (call c')
      → Leads n c' c''
      → Leads (suc n) c c''

pub Leads-eq : {n k : ℕ} {c c' : Invocation} → n ≡ k → Leads n c c' → Leads k c c'
Leads-eq {c} {c'} e l = subst (λ n. Leads n c c') e l

pub Yields-eq :
    {n k : ℕ} {c : Invocation} {items : List Item} → n ≡ k → Yields n c items → Yields k c items
Yields-eq {c} {items} e y = subst (λ n. Yields n c items) e y

pub Leads-Yields :
    {n k : ℕ} {c c' : Invocation} {items : List Item}
    → Leads n c c'
    → Yields k c' items
    → Yields (n + k) c items
Leads-Yields here y = Yields-eq (omega arith) y
Leads-Yields (next e l) y = Yields-eq (omega arith) (Yields-call e (Leads-Yields l y))

pub Leads-Refuses : {n : ℕ} {c c' : Invocation} → Leads n c c' → Refuses c' → Refuses c
Leads-Refuses here h = h
Leads-Refuses (next e l) h = Refuses-call e (Leads-Refuses l h)

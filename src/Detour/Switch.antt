-- ===== src/Detour/Switch.antt =====
-- What calls of `enable` and `disable` of src/arch/detour.rs do to the memory and to the flag.
use detour_rs.Base.{
  ◌≡◌, refl, sym, subst, ap, ◌∙◌, inl, inr, Bool, true, false, Option, none, some, List, [], ◌∷◌,
  if◌then◌else◌, Bool-cases, ◌≢◌, ◌⊎◌, Option-cases,
}
use detour_rs.Base.Memory.{Memory, read, write, write-write, read-write}
use detour_rs.Error.{ok, err, RegionError, region_failure}
use detour_rs.Arch.Patch.{
  Patcher, IsSized, IsOriginal, prolog, prolog-IsSized, toggle_lem, write_original,
}
use detour_rs.Detour.{Detour, toggle, same, drop, disable}

-- Calls of `toggle`, each with the state that it wants and what the system answers to it.
unfoldable pub switch : List (Bool × Option RegionError) → Memory × Detour → Memory × Detour
switch [] s = s
switch ((enabled, protect) ∷ calls) s = switch calls (toggle protect enabled s).1

-- The state that the last call for which the system granted the access wanted.
unfoldable pub last_granted : Bool → List (Bool × Option RegionError) → Bool
last_granted b [] = b
last_granted b ((enabled, none) ∷ calls) = last_granted enabled calls
last_granted b ((enabled, some e) ∷ calls) = last_granted b calls

same-true : (b c : Bool) → same b c ≡ true → b ≡ c
same-true true true h = refl
same-true true false h = cc
same-true false true h = cc
same-true false false h = refl

same-false : (b c : Bool) → same b c ≡ false → b ≢ c
same-false true true h = cc
same-false true false h = cc
same-false false true h = cc
same-false false false h = cc

-- Memory `m` is what the flag of the detour says: the memory before the hook, or the same with the
-- hook in the area of the patcher.
abbrev pub Synced : Memory → Patcher → Memory × Detour → Type 0
Synced m₀ p (m, d) = (d.patcher ≡ p) × (m ≡ write m₀ p.area.as_ptr (prolog p d.enabled))

rewrites :
    (m : Memory) (p : Patcher) (b c : Bool)
    → IsSized p
    → write (write m p.area.as_ptr (prolog p b)) p.area.as_ptr (prolog p c)
      ≡ write m p.area.as_ptr (prolog p c)
rewrites m p b c v =
    write-write m p.area.as_ptr (prolog p b) (prolog p c)
      (sym (prolog-IsSized p b v) ∙ prolog-IsSized p c v)

-- One granted call: the flag is the wanted one, and the memory goes with it.
granted :
    (m₀ m : Memory) (p : Patcher) (d : Detour) (enabled : Bool)
    → IsSized p
    → Synced m₀ p (m, d)
    → let (r, s) = toggle none enabled (m, d) in
      (r ≡ ok tt) × Synced m₀ p s × (s.1.enabled ≡ enabled)
unfolding toggle
granted m₀ m p d enabled v (e, h) = elim (Bool-cases (same d.enabled enabled)) [
  | inl agree ↦ rw agree (refl, (e, h), same-true d.enabled enabled agree)
  | inr differ ↦
      rw (differ, e, toggle_lem m p enabled v)
        (refl, (e, rw h (rewrites m₀ p d.enabled enabled v)), refl)
]

refused :
    (m : Memory) (d : Detour) (enabled : Bool) (x : RegionError)
    → (toggle (some x) enabled (m, d)).1 ≡ (m, d)
unfolding toggle
refused m d enabled x = elim (Bool-cases (same d.enabled enabled)) [
  | inl agree ↦ rw agree refl
  | inr differ ↦ rw differ refl
]

switch-Synced :
    (calls : List (Bool × Option RegionError)) (m₀ m : Memory) (p : Patcher) (d : Detour)
    → IsSized p
    → Synced m₀ p (m, d)
    → let s = switch calls (m, d) in Synced m₀ p s × (s.1.enabled ≡ last_granted d.enabled calls)
unfolding switch last_granted
switch-Synced [] m₀ m p d v h = (h, refl)
switch-Synced ((enabled, none) ∷ calls) m₀ m p d v h =
    let (_, h', e) = granted m₀ m p d enabled v h in
    let s = (toggle none enabled (m, d)).1 in
    let (synced, flag) = switch-Synced calls m₀ s.0 p s.1 v h' in
    (synced, flag ∙ ap (λ b. last_granted b calls) e)
switch-Synced ((enabled, some x) ∷ calls) m₀ m p d v h =
    subst
      (λ s.
        Synced m₀ p (switch calls s) × ((switch calls s).1.enabled ≡ last_granted d.enabled calls))
      (sym (refused m d enabled x)) (switch-Synced calls m₀ m p d v h)

settled :
    (m : Memory) (p : Patcher) (b : Bool)
    → IsOriginal m p
    → write m p.area.as_ptr (prolog p b) ≡ (if b then write m p.area.as_ptr p.detour_prolog else m)
settled m p true original = refl
settled m p false original = write_original m p original

-- Whatever calls of `enable` and `disable` were made on a detour that was off, its two prologs as
-- long as its area, which held the first of them, and whatever the system answered to each: the flag is what the last granted call wanted, and the memory is that before the
-- first call, with the hook written over the area of the patcher exactly where the flag is set.
pub switch_lem :
    (calls : List (Bool × Option RegionError)) (m : Memory) (d : Detour)
    → d.enabled ≡ false
    → IsSized d.patcher
    → IsOriginal m d.patcher
    → let s = switch calls (m, d) in
      let on = last_granted false calls in
      (s.1.enabled ≡ on)
      × (s.0 ≡ (if on then write m d.patcher.area.as_ptr d.patcher.detour_prolog else m))
switch_lem calls m d off v original =
    let start : m ≡ write m d.patcher.area.as_ptr (prolog d.patcher d.enabled) =
      rw off (sym (write_original m d.patcher original)) in
    let ((_, h), e) = switch-Synced calls m m d.patcher d v (refl, start) in
    let flag = e ∙ ap (λ b. last_granted b calls) off in
    (
      flag,
      h
          ∙ ap (λ b. write m d.patcher.area.as_ptr (prolog d.patcher b)) flag
          ∙ settled m d.patcher (last_granted false calls) original,
    )

-- A call of `toggle` that is refused is one that needed the access, and it leaves both the memory
-- and the detour as they are; any other call sets the flag to the wanted state, where both prologs
-- are as long as the area.
pub toggle-refused :
    (protect : Option RegionError) (enabled : Bool) (m : Memory) (d : Detour)
    → IsSized d.patcher
    → let (r, s) = toggle protect enabled (m, d) in
      ((r ≡ ok tt) × (s.1.enabled ≡ enabled))
      ⊎ ((x : RegionError) × (protect ≡ some x)
          × (d.enabled ≢ enabled)
          × (r ≡ err (region_failure x))
          × (s ≡ (m, d)))
unfolding toggle
toggle-refused protect enabled m d v = elim (Bool-cases (same d.enabled enabled)) [
  | inl agree ↦ rw agree (inl (refl, same-true d.enabled enabled agree))
  | inr differ ↦ elim (Option-cases protect) [
    | inl e ↦ rw (differ, e, toggle_lem m d.patcher enabled v) (inl (refl, refl))
    | inr (x, e) ↦ rw (differ, e) (inr (x, refl, same-false d.enabled enabled differ, refl, refl))
  ]
]

-- In a build with debug assertions, a detour that is dropped while it is switched on, with the
-- access granted, leaves the memory as it was before the hook; in one without, the hook is left in, whole, and the
-- memory is not what it was before. Its prologs differ, are as long as its area, and the area held the first of them.
pub drop_lem :
    (m : Memory) (d : Detour)
    → d.enabled ≡ true
    → IsSized d.patcher
    → IsOriginal m d.patcher
    → d.patcher.detour_prolog ≢ d.patcher.original_prolog
    → let hooked = write m d.patcher.area.as_ptr d.patcher.detour_prolog in
      ((drop true none (hooked, d)).1.0 ≡ m)
      × ((drop false none (hooked, d)).1.0 ≡ hooked)
      × (hooked ≢ m)
unfolding drop disable toggle
drop_lem m d on v original differs =
    let hooked = write m d.patcher.area.as_ptr d.patcher.detour_prolog in
    (
      rw (on, toggle_lem hooked d.patcher false v)
          (rewrites m d.patcher true false v ∙ write_original m d.patcher original),
      refl,
      (λ same_memory.
          let area = d.patcher.area in
          differs (
            sym (read-write m area.as_ptr d.patcher.detour_prolog)
            ∙ ap (λ n. read hooked area.as_ptr n) (sym v.detour_fits)
            ∙ ap (λ k. read k area.as_ptr area.len) same_memory
            ∙ original)),
    )

-- The drop of a detour that is switched on, with debug assertions and the access granted.
pub drop-eq :
    (m : Memory) (d : Detour)
    → d.enabled ≡ true
    → IsSized d.patcher
    → IsOriginal m d.patcher
    → drop true none (write m d.patcher.area.as_ptr d.patcher.detour_prolog, d)
      ≡ (ok tt, (m, record d { enabled = false }))
unfolding drop disable toggle
drop-eq m d on v original = rw (
  on,
  toggle_lem (write m d.patcher.area.as_ptr d.patcher.detour_prolog) d.patcher false v,
  rewrites m d.patcher true false v,
  write_original m d.patcher original,
)

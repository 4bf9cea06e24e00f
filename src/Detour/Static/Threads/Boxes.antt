-- ===== src/Detour/Static/Threads/Boxes.antt =====
-- The boxes of the closures that `set_detour` of src/detours/statik.rs swaps in and drops: none is
-- dropped twice, and none is lost.
use detour_rs.Base.{
  ℕ, ◌<◌, ◌≡◌, ◌≢◌, ◌⊎◌, ◌↔◌, inl, inr, refl, true, Option, none, some, List, arith,
}
use detour_rs.Error.{Result}
use detour_rs.Detour.Threads.{update}
use detour_rs.Detour.Static.Threads.{
  Shared, Phase, dropping, Move, swap, drop_some, System, pick, at_rest, Run, start, later,
}
use native.Mathlib.Decide.{ℕ_discrete}

-- The box that a thread has taken out, and is to drop.
abbrev pub taken : Phase → Option ℕ
taken (dropping f previous) = previous
taken _ = none

-- Who holds a box: the pointer, or a thread that is to drop it.
abbrev pub Holds : Shared → (ℕ → Phase) → ℕ → Type 0
Holds s phase q = (s.closure ≡ some q) ⊎ ((i : ℕ) × (taken (phase i) ≡ some q))

pub record Owned (s : Shared) (phase : ℕ → Phase) : Type 0 where
  pub current : (q : ℕ) → s.closure ≡ some q → s.live q ≡ true
  pub pending : (i q : ℕ) → taken (phase i) ≡ some q → (s.live q ≡ true) × (s.closure ≢ some q)
  pub unique : (i j q : ℕ) → taken (phase i) ≡ some q → taken (phase j) ≡ some q → i ≡ j
  pub below : (q : ℕ) → s.live q ≡ true → q < s.unused
  pub kept : (q : ℕ) → s.live q ≡ true → Holds s phase q

module _ {s : Shared} {phase : ℕ → Phase} (inv : Owned s phase) (i : ℕ) where
  open inv use {current, pending, unique, below, kept}

  Move-current :
      {p p' : Phase} {r : Option (Result (Unit {0}))} {u : Shared}
      → Move s p r u p'
      → phase i ≡ p
      → (q : ℕ) → u.closure ≡ some q
      → u.live q ≡ true
  Move-current swap e q h = ground arith
  Move-current (drop_some {q = k}) e q h = ground (arith, current q, pending i k)
  Move-current mv e q h = ground (arith, current q)

  Move-pending :
      {p p' : Phase} {r : Option (Result (Unit {0}))} {u : Shared}
      → Move s p r u p'
      → phase i ≡ p
      → (j q : ℕ) → taken (update phase i p' j) ≡ some q
      → (u.live q ≡ true) × (u.closure ≢ some q)
  Move-pending swap e j q h = (
    ground (arith, current q, pending j q),
    λ same_box. ground (arith, current q, pending j q, below q),
  )
  Move-pending (drop_some {q = k}) e j q h =
      (ground (arith, pending j q, unique i j k), λ c. ground (arith, pending j q))
  Move-pending mv e j q h = ground (arith, pending j q)

  Move-unique :
      {p p' : Phase} {r : Option (Result (Unit {0}))} {u : Shared}
      → Move s p r u p'
      → phase i ≡ p
      → (j k q : ℕ) → taken (update phase i p' j) ≡ some q
      → taken (update phase i p' k) ≡ some q
      → j ≡ k
  Move-unique swap e j k q a b = ground (arith, unique j k q, pending j q, pending k q)
  Move-unique mv e j k q a b = ground (arith, unique j k q)

  Move-below :
      {p p' : Phase} {r : Option (Result (Unit {0}))} {u : Shared}
      → Move s p r u p'
      → (q : ℕ) → u.live q ≡ true
      → q < u.unused
  Move-below swap q h = ground (arith, below q)
  Move-below drop_some q h = ground (arith, below q)
  Move-below mv q h = below q h

  Move-kept :
      {p p' : Phase} {r : Option (Result (Unit {0}))} {u : Shared}
      → Move s p r u p'
      → phase i ≡ p
      → (q : ℕ) → u.live q ≡ true
      → Holds u (update phase i p') q
  Move-kept swap e q h = elim (ℕ_discrete s.unused q) [
    | yes new ↦ inl (ground arith)
    | no old ↦
        let before : s.live q ≡ true = ground arith in
        elim (kept q before) [ inl c ↦ inr (i, ground arith) | inr (j, c) ↦ inr (j, ground arith) ]
  ]
  Move-kept (drop_some {q = k}) e q h =
      let before : s.live q ≡ true = ground arith in
      elim (kept q before) [ inl c ↦ inl c | inr (j, c) ↦ inr (j, ground arith) ]
  Move-kept mv e q h = elim (kept q h) [ inl c ↦ inl c | inr (j, c) ↦ inr (j, ground arith) ]

  pub Move-Owned :
      {p' : Phase} {r : Option (Result (Unit {0}))} {u : Shared}
      → Move s (phase i) r u p'
      → Owned u (update phase i p')
  Move-Owned mv = record {
    current = Move-current mv refl;
    pending = Move-pending mv refl;
    unique = Move-unique mv refl;
    below = Move-below mv;
    kept = Move-kept mv refl;
  }

pub Run-Owned :
    {results : List (Result (Unit {0}))} {t : System}
    → Run at_rest results t
    → Owned t.shared t.phase
Run-Owned start = record {
  current = λ q h. absurd (cc);
  pending = λ i q h. absurd (cc);
  unique = λ i j q h k. absurd (cc);
  below = λ q h. absurd (cc);
  kept = λ q h. absurd (cc);
}
Run-Owned (later r (pick i mv)) = Move-Owned (Run-Owned r) i mv

-- In any interleaving, a closure is alive exactly as long as the pointer holds it or a thread has
-- taken it out and is to drop it: none is lost.
pub live-Holds :
    {results : List (Result (Unit {0}))} {t : System}
    → Run at_rest results t
    → (q : ℕ) → (t.shared.live q ≡ true) ↔ Holds t.shared t.phase q
live-Holds {t} r q =
    let inv = Run-Owned r in
    let alive : Holds t.shared t.phase q → t.shared.live q ≡ true =
      λ h. elim h [ inl c ↦ inv.current q c | inr (i, c) ↦ (inv.pending i q c).0 ] in
    (inv.kept q, alive)

-- In any interleaving, a closure that a thread is to drop is alive, the pointer no longer holds it, and
-- no other thread is to drop it: none is dropped twice.
pub taken-live :
    {results : List (Result (Unit {0}))} {t : System}
    → Run at_rest results t
    → (i j q : ℕ) → taken (t.phase i) ≡ some q
    → taken (t.phase j) ≡ some q
    → (t.shared.live q ≡ true) × (t.shared.closure ≢ some q) × (i ≡ j)
taken-live {t} r i j q a b =
    let inv = Run-Owned r in
    let (alive, out) = inv.pending i q a in (alive, out, inv.unique i j q a b)

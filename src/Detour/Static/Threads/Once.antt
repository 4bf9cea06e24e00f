-- ===== src/Detour/Static/Threads/Once.antt =====
-- At most one call of `StaticDetour::initialize` of src/detours/statik.rs succeeds, in any
-- interleaving, and after one has, there is a closure.
use detour_rs.Base.{
  ℕ, suc, ◌≤◌, ◌≡◌, ◌⊎◌, refl, Bool, true, false, Option, none, some, List, [], ◌∷◌, arith,
}
use detour_rs.Error.{Result, ok, err, panic}
use detour_rs.Detour.Threads.{update}
use detour_rs.Detour.Static.Threads.{
  Shared, Phase, swapping, dropping, Move, exchange_wins, swap, drop_none, drop_some, System, pick,
  completed, at_rest, Run, start, later,
}

-- How many of the calls succeeded.
abbrev pub wins : List (Result (Unit {0})) → ℕ
wins [] = 0
wins (ok u ∷ results) = suc (wins results)
wins (err e ∷ results) = wins results
wins (panic ∷ results) = wins results

abbrev pub is_some {ℓ} : {A : Type ℓ} → Option A → Bool
is_some none = false
is_some (some x) = true

-- The thread has won the exchange, and its call has not returned.
abbrev pub is_first : Phase → Bool
is_first (swapping f) = f
is_first (dropping f previous) = f
is_first _ = false

abbrev pub is_dropping : Phase → Bool
is_dropping (dropping f previous) = true
is_dropping _ = false

pub record Inv (results : List (Result (Unit {0}))) (s : Shared) (phase : ℕ → Phase) : Type 0 where
  pub unique : (i j : ℕ) → is_first (phase i) ≡ true → is_first (phase j) ≡ true → i ≡ j
  pub pending : (i : ℕ) → is_first (phase i) ≡ true → wins results ≡ 0
  pub made : (i : ℕ) → is_first (phase i) ≡ true → is_some s.detour ≡ true
  pub unmade : is_some s.detour ≡ false → wins results ≡ 0
  pub won : wins results ≤ 1
  pub published : wins results ≡ 1 → is_some s.closure ≡ true
  pub swapped : (i : ℕ) → is_dropping (phase i) ≡ true → is_some s.closure ≡ true

module _ {results : List (Result (Unit {0}))} {s : Shared} {phase : ℕ → Phase}
    (inv : Inv results s phase) (i : ℕ) where
  open inv use {unique, pending, made, unmade, won, published, swapped}

  Move-unique :
      {p p' : Phase} {r : Option (Result (Unit {0}))} {u : Shared}
      → Move s p r u p'
      → phase i ≡ p
      → (j k : ℕ) → is_first (update phase i p' j) ≡ true
      → is_first (update phase i p' k) ≡ true
      → j ≡ k
  Move-unique (exchange_wins free) e j k a b = ground (arith, unique j k, made j, made k)
  Move-unique mv e j k a b = ground (arith, unique j k, unique i j, unique i k)

  Move-made :
      {p p' : Phase} {r : Option (Result (Unit {0}))} {u : Shared}
      → Move s p r u p'
      → phase i ≡ p
      → (j : ℕ) → is_first (update phase i p' j) ≡ true
      → is_some u.detour ≡ true
  Move-made (exchange_wins free) e j a = refl
  Move-made mv e j a = ground (arith, made j, made i)

  Move-pending :
      {p p' : Phase} {r : Option (Result (Unit {0}))} {u : Shared}
      → Move s p r u p'
      → phase i ≡ p
      → (j : ℕ) → is_first (update phase i p' j) ≡ true
      → wins (completed r results) ≡ 0
  Move-pending (exchange_wins free) e j a = ground (arith, unmade)
  Move-pending (drop_none {f = true}) e j a = ground (arith, unique i j, pending j)
  Move-pending (drop_none {f = false}) e j a = ground (arith, pending j)
  Move-pending (drop_some {f = true}) e j a = ground (arith, unique i j, pending j)
  Move-pending (drop_some {f = false}) e j a = ground (arith, pending j)
  Move-pending mv e j a = ground (arith, pending j, pending i)

  -- The counts: a call succeeds when its thread leaves `set_detour`.
  record Counts (r : Option (Result (Unit {0}))) (u : Shared) : Type 0 where
    still_unmade : is_some u.detour ≡ false → wins (completed r results) ≡ 0
    still_won : wins (completed r results) ≤ 1
    still_published : wins (completed r results) ≡ 1 → is_some u.closure ≡ true

  Move-Counts :
      {p p' : Phase} {r : Option (Result (Unit {0}))} {u : Shared}
      → Move s p r u p'
      → phase i ≡ p
      → Counts r u
  Move-Counts (drop_none {f = true}) e =
      ground (arith, unmade, won, published, pending i, made i, swapped i)
  Move-Counts (drop_none {f = false}) e = ground (arith, unmade, won, published)
  Move-Counts (drop_some {f = true}) e =
      ground (arith, unmade, won, published, pending i, made i, swapped i)
  Move-Counts (drop_some {f = false}) e = ground (arith, unmade, won, published)
  Move-Counts mv e = ground (arith, unmade, won, published)

  Move-swapped :
      {p p' : Phase} {r : Option (Result (Unit {0}))} {u : Shared}
      → Move s p r u p'
      → phase i ≡ p
      → (j : ℕ) → is_dropping (update phase i p' j) ≡ true
      → is_some u.closure ≡ true
  Move-swapped swap e j a = refl
  Move-swapped mv e j a = ground (arith, swapped j)

  pub Move-Inv :
      {p' : Phase} {r : Option (Result (Unit {0}))} {u : Shared}
      → Move s (phase i) r u p'
      → Inv (completed r results) u (update phase i p')
  Move-Inv mv =
      let counts = Move-Counts mv refl in
      record {
        unique = Move-unique mv refl;
        pending = Move-pending mv refl;
        made = Move-made mv refl;
        unmade = counts.still_unmade;
        won = counts.still_won;
        published = counts.still_published;
        swapped = Move-swapped mv refl;
      }

pub Run-Inv :
    {results : List (Result (Unit {0}))} {t : System}
    → Run at_rest results t
    → Inv results t.shared t.phase
Run-Inv start = record {
  unique = λ i j a. absurd (cc);
  pending = λ i a. refl;
  made = λ i a. absurd (cc);
  unmade = λ a. refl;
  won = omega arith;
  published = λ a. absurd (omega arith);
  swapped = λ i a. absurd (cc);
}
Run-Inv (later r (pick i mv)) = Move-Inv (Run-Inv r) i mv

-- In any interleaving of any number of threads, at most one call of `initialize` succeeds; once one
-- has, both pointers are set.
pub initialize-wins :
    {results : List (Result (Unit {0}))} {t : System}
    → Run at_rest results t
    → (wins results ≤ 1)
      × ((wins results ≡ 0)
          ⊎ ((is_some t.shared.detour ≡ true) × (is_some t.shared.closure ≡ true)))
initialize-wins {t} r =
    let inv = Run-Inv r in (inv.won, ground (arith, inv.unmade, inv.published, inv.won))

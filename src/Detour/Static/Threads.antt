-- ===== src/Detour/Static/Threads.antt =====
-- src/detours/statik.rs in any number of threads, interleaved in any order: `initialize`,
-- `set_detour`, `enable`, `disable`, and calls of the hooked function, which reach `__detour`. A step
-- is one access of a thread to one of the two pointers, or the drop of a closure's box. A call of
-- `Detour::toggle` is one step, which it amounts to by Detour/Threads. The drop of the static detour
-- itself needs it unshared, and is in Detour/Static.
pub mod Once
pub mod Boxes
pub mod Hooked
pub mod Tests
use detour_rs.Base.{ℕ, suc, ◌≡◌, Bool, true, false, Option, none, some, List, [], ◌∷◌}
use detour_rs.Error.{Result, ok, err, Error, RegionError, already_initialized}
use detour_rs.Detour.{Detour}
use detour_rs.Detour.Threads.{update}

-- The two pointers, and the heap that the closures' boxes are in: a box is a number, given out once.
pub record Shared : Type 0 where
  pub closure : Option ℕ
  pub detour : Option Detour
  pub live : ℕ → Bool
  pub unused : ℕ

-- Where a thread stands. The flag tells the swap that `initialize` makes from another one.
pub data Phase : Type 0 where
  idle : Phase
  making : Phase  -- in GenericDetour::new
  exchanging : (made : Detour) → Phase  -- before compare_exchange
  swapping : (first : Bool) → Phase  -- before the swap of set_detour
  dropping : (first : Bool) (previous : Option ℕ) → Phase  -- before the drop of the previous closure
  entered : Phase  -- in __ffi_detour, before the load of __detour
  using : (box : ℕ) → Phase  -- before the call of the closure that was loaded
  panicked : Phase
  undefined : Phase  -- a closure that was dropped has been called

-- What a call of `initialize` returns, and nothing for a step that returns from none.
abbrev pub returned : Bool → Option (Result (Unit {0}))
returned true = some (ok tt)
returned false = none

-- One step of one thread.
pub data Move (s : Shared) : Phase → Option (Result (Unit {0})) → Shared → Phase → Type 0 where
  initialize : Move s idle none s making
  new_ok : (d : Detour) → d.enabled ≡ false → Move s making none s (exchanging d)
  new_fails : (e : Error) → Move s making (some (err e)) s idle
  new_panics : Move s making none s panicked
  exchange_wins :
      {d : Detour}
      → s.detour ≡ none
      → Move s (exchanging d) none (record s { detour = some d }) (swapping true)
  exchange_fails :
      {d : Detour} (present : Detour)
      → s.detour ≡ some present
      → Move s (exchanging d) (some (err already_initialized)) s idle
  set_detour : Move s idle none s (swapping false)
  swap :
      {f : Bool}
      → Move s
          (swapping f)
          none
          (record s {
            closure = some (s.unused);
            live = update s.live s.unused true;
            unused = suc s.unused;
          })
          (dropping f s.closure)
  drop_none : {f : Bool} → Move s (dropping f none) (returned f) s idle
  drop_some :
      {f : Bool} {q : ℕ}
      → Move s (dropping f (some q)) (returned f) (record s { live = update s.live q false }) idle
  toggle_missing : s.detour ≡ none → Move s idle none s idle
  toggle_refused : (e : RegionError) (d : Detour) → s.detour ≡ some d → Move s idle none s idle
  toggle :
      (w : Bool) (d : Detour)
      → s.detour ≡ some d
      → Move s idle none (record s { detour = some (record d { enabled = w }) }) idle
  enter : (d : Detour) → s.detour ≡ some d → d.enabled ≡ true → Move s idle none s entered
  load_null : s.closure ≡ none → Move s entered none s panicked
  load : (q : ℕ) → s.closure ≡ some q → Move s entered none s (using q)
  call_closure : {q : ℕ} → s.live q ≡ true → Move s (using q) none s idle
  call_dropped : {q : ℕ} → s.live q ≡ false → Move s (using q) none s undefined

pub record System : Type 0 where
  pub shared : Shared
  pub phase : ℕ → Phase

pub data Step (s : System) : Option (Result (Unit {0})) → System → Type 0 where
  pick :
      (i : ℕ) {r : Option (Result (Unit {0}))} {u : Shared} {p : Phase}
      → Move s.shared (s.phase i) r u p
      → Step s r (record { shared = u; phase = update s.phase i p })

abbrev pub completed :
    Option (Result (Unit {0})) → List (Result (Unit {0})) → List (Result (Unit {0}))
completed none results = results
completed (some r) results = r ∷ results

-- StaticDetour::__new, with no thread in a call.
abbrev pub at_rest : System
at_rest = record {
  shared = record { closure = none; detour = none; live = λ q. false; unused = 0 };
  phase = λ i. idle;
}

-- A run, with what the calls of `initialize` that have ended in it returned.
pub data Run (s : System) : List (Result (Unit {0})) → System → Type 0 where
  start : Run s [] s
  later :
      {results : List (Result (Unit {0}))} {r : Option (Result (Unit {0}))} {t u : System}
      → Run s results t
      → Step t r u
      → Run s (completed r results) u

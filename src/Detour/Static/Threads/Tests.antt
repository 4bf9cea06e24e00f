-- ===== src/Detour/Static/Threads/Tests.antt =====
-- Concrete interleavings of the operations of src/detours/statik.rs.
use detour_rs.Base.{ℕ, ◌≤◌, ◌≡◌, ◌≢◌, ◌⊎◌, refl, true, false, Option, none, some, List, [], ◌∷◌}
use detour_rs.Error.{Result}
use detour_rs.Detour.{Detour}
use detour_rs.Detour.Static.Threads.{
  Shared, Phase, panicked, undefined, Move, initialize, new_ok, exchange_wins, set_detour, swap,
  drop_none, toggle, enter, load, System, pick, Run, start, later, at_rest,
}
use detour_rs.Detour.Static.Threads.Once.{wins, is_some, initialize-wins}
use detour_rs.Detour.Static.Threads.Boxes.{taken-live}
use detour_rs.Detour.Static.Threads.Hooked.{load-ne-panicked, enable-panics, set_detour-dangles}
use native.Mathlib.Decide.{ℕ_discrete}

abbrev detour : Detour
detour = record {
  relay = none;
  trampoline = record { as_ptr = 0x2000; len = 3 };
  patcher = record {
    area = record { as_ptr = 0x1000; len = 2 };
    original_prolog = 0 ∷ 0 ∷ [];
    detour_prolog = 0xEB ∷ 0x10 ∷ [];
  };
  enabled = false;
}

record Reached : Type 0 where
  results : List (Result (Unit {0}))
  last : System
  run : Run at_rest results last

abbrev turn :
    (t : Reached) (i : ℕ) {r : Option (Result (Unit {0}))} {u : Shared} {p : Phase}
    → Move t.last.shared (t.last.phase i) r u p
    → Reached
turn t i mv = record { results = _; last = _; run = later t.run (pick i mv) }

-- Thread 0 has put its detour in the place of the null pointer.
abbrev exchanged : Reached
unfolding ℕ_discrete
exchanged =
    let r0 : Reached = record { results = []; last = at_rest; run = start } in
    let r1 : Reached = turn r0 0 initialize in
    let r2 : Reached = turn r1 0 (new_ok detour refl) in turn r2 0 (exchange_wins refl)

-- It has returned, and thread 1 is in a call of the hooked function.
abbrev hooked : Reached
unfolding ℕ_discrete
hooked =
    let r1 : Reached = turn exchanged 0 swap in
    let r2 : Reached = turn r1 0 drop_none in
    let r3 : Reached = turn r2 0 (toggle true detour refl) in
    turn r3 1 (enter (record detour { enabled = true }) refl refl)

-- Thread 1 is about to call the closure.
abbrev calling : Reached
unfolding ℕ_discrete
calling = turn hooked 1 (load 0 refl)

-- Thread 0 has replaced it, and is to drop the first one.
abbrev replaced : Reached
unfolding ℕ_discrete
replaced = let r1 : Reached = turn calling 0 set_detour in turn r1 0 swap

initialize-wins_example :
    (wins hooked.results ≤ 1)
    × ((wins hooked.results ≡ 0)
        ⊎ ((is_some hooked.last.shared.detour ≡ true)
            × (is_some hooked.last.shared.closure ≡ true)))
initialize-wins_example = initialize-wins hooked.run

taken-live_example :
    (replaced.last.shared.live 0 ≡ true)
    × (replaced.last.shared.closure ≢ some 0)
    × (◌≡◌ {A = ℕ} 0 0)
unfolding ℕ_discrete
taken-live_example = taken-live replaced.run 0 0 0 refl refl

load-ne-panicked_example : Phase.using 0 ≢ panicked
unfolding ℕ_discrete
load-ne-panicked_example = load-ne-panicked hooked.run refl 1 refl (load 0 refl)

enable-panics_example : (u : System) × Run (exchanged.last) [] u × (u.phase 1 ≡ panicked)
unfolding ℕ_discrete
enable-panics_example = enable-panics exchanged.run 0 1 refl refl refl

set_detour-dangles_example : (u : System) × Run (calling.last) [] u × (u.phase 1 ≡ undefined)
unfolding ℕ_discrete
set_detour-dangles_example = set_detour-dangles {t = calling.last} 1 0 0 refl refl refl

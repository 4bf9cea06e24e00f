-- ===== src/Detour/Threads/Tests.antt =====
-- Concrete interleavings of `Detour::toggle` of src/arch/detour.rs in two threads.
use detour_rs.Base.{◌⊎◌, ℕ, ◌+◌, ◌*◌, ◌≤◌, ◌≡◌, ◌≢◌, refl, true, false, Option, none, List, [], ◌∷◌}
use detour_rs.Base.Memory.{Memory}
use detour_rs.Arch.{aarch64}
use detour_rs.Arch.Cache.{Invalidates}
use detour_rs.Arch.Patch.{IsSized}
use detour_rs.Detour.{Detour}
use detour_rs.Detour.Threads.{
  Target, Shared, Phase, idle, panicked, Call, Move, call, lock, load_differs, protect, copy,
  copy_byte, copy_ends, store, flush, unprotect, unlock, System, pick, Run, start, later, at_rest,
}
use detour_rs.Detour.Threads.Stands.{inside, InSync}
use detour_rs.Detour.Threads.Serial.{replay, Answered}
use detour_rs.Detour.Threads.Safety.{interleaved-replay, toggle-exclusive}
use detour_rs.Detour.Threads.Ends.{Steps}
use detour_rs.Detour.Threads.Live.{toggle-returns}
use native.Mathlib.Decide.{ℕ_discrete}

abbrev zeros : Memory
zeros p = 0

-- A target whose C runtime reads the whole cache anew.
abbrev target : Target
target = record {
  arch = aarch64;
  macos = false;
  calls = record {
    clear_cache = λ m beg end cache. m;
    sys_icache_invalidate = λ m beg len cache. m;
  };
}

abbrev clears : Invalidates (target.calls)
clears = record {
  cleared = λ m cache beg end a below above. refl;
  invalidated = λ m cache beg len a below above. refl;
}

abbrev detour : Detour
detour = record {
  relay = none;
  trampoline = record { as_ptr = 0x2000; len = 3 };
  patcher = record {
    area = record { as_ptr = 0x1000; len = 2 };
    original_prolog = 0 ∷ 0 ∷ [];
    detour_prolog = 0xEB ∷ 0x10 ∷ [];
  };
  enabled = false;
}

abbrev sized : IsSized (detour.patcher)
sized = record { original_fits = refl; detour_fits = refl }

record Reached : Type 0 where
  calls : List Call
  last : System
  run : Run target (at_rest zeros zeros detour) calls last

abbrev turn :
    (r : Reached) (i : ℕ) {c : Option Call} {u : Shared} {p : Phase}
    → Move target i r.last.shared (r.last.phase i) c u p
    → Reached
turn r i mv = record { calls = _; last = _; run = later r.run (pick i mv) }

abbrev fresh : Reached
fresh = record { calls = []; last = at_rest zeros zeros detour; run = start }

-- Both threads have called `enable`, and thread 0 is to copy the hook.
abbrev opened : Reached
unfolding ℕ_discrete
opened =
    let r1 : Reached = turn fresh 0 (call {w = true}) in
    let r2 : Reached = turn r1 1 (call {w = true}) in
    let r3 : Reached = turn r2 0 (lock refl refl) in
    let r4 : Reached = turn r3 0 (load_differs refl) in
    let r5 : Reached = turn r4 0 protect in turn r5 0 (copy refl)

-- The call of thread 0 has ended; thread 1 still waits.
abbrev ended : Reached
unfolding ℕ_discrete
ended =
    let r1 : Reached = turn opened 0 copy_byte in
    let r2 : Reached = turn r1 0 copy_byte in
    let r3 : Reached = turn r2 0 copy_ends in
    let r4 : Reached = turn r3 0 store in
    let r5 : Reached = turn r4 0 flush in let r6 : Reached = turn r5 0 unprotect in turn r6 0 unlock

in_sync : InSync target (fresh.last.shared)
in_sync a below above = refl

interleaved-replay_example :
    (ended.last.shared.memory ≡ (replay (zeros, detour) ended.calls).0)
    × (ended.last.shared.detour ≡ (replay (zeros, detour) ended.calls).1)
    × Answered (zeros, detour) ended.calls
    × InSync target ended.last.shared
    × (ended.last.shared.writable ≡ false)
unfolding ℕ_discrete
interleaved-replay_example = interleaved-replay clears sized in_sync ended.run refl

toggle-exclusive_example :
    ((◌≡◌ {A = ℕ} 0 1)
      ⊎ (inside (opened.last.phase 0) ≡ false)
      ⊎ (inside (opened.last.phase 1) ≡ false))
    × (opened.last.phase 1 ≢ panicked)
    × (opened.last.shared.poisoned ≡ false)
unfolding ℕ_discrete
toggle-exclusive_example = toggle-exclusive clears sized in_sync opened.run 0 1 1

toggle-returns_example :
    (n : ℕ) × (u : System) × Steps target n opened.last u × (n ≤ 2 * 2 + 17) × (u.phase 1 ≡ idle)
unfolding ℕ_discrete
toggle-returns_example = toggle-returns clears sized in_sync opened.run 1 (λ h. cc)

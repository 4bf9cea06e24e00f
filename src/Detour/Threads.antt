-- ===== src/Detour/Threads.antt =====
-- `Detour::toggle` of src/arch/detour.rs in any number of threads, interleaved in any order. A step
-- is one access of a thread to what the threads share; the mutex of `memory::POOL` has an owner, and
-- may be poisoned. `enable` and `disable` are the calls with `true` and `false`. The steps are those
-- of calls on one detour. What else is done under the mutex is not among them: calls on another detour,
-- which may patch the same area, and allocations, whose panics would poison the mutex.
pub mod Stands
pub mod Invariant
pub mod Mutex
pub mod Serial
pub mod Ends
pub mod Live
pub mod Safety
pub mod Tests
use detour_rs.Base.{ℕ, suc, ◌≡◌, ◌≢◌, Bool, true, false, Option, none, some, List, [], ◌∷◌, length}
use detour_rs.Base.Memory.{Memory, write}
use detour_rs.Error.{Result, ok, err, panic, RegionError, region_failure}
use detour_rs.Arch.Cache.{flush_instruction_cache}
pub use detour_rs.Arch.Cache.{Target}
use detour_rs.Arch.Patch.{prolog}
use detour_rs.Detour.{Detour, same}
use mathlib.Core.Logic.{ite}
use native.Mathlib.Decide.{ℕ_discrete}

-- What the threads share; `writable` says whether the pages of the patched area may be written.
pub record Shared : Type 0 where
  pub memory : Memory
  pub cache : Memory
  pub detour : Detour
  pub owner : Option ℕ
  pub poisoned : Bool
  pub writable : Bool

-- Where a thread stands in `toggle(wanted)`, with the local variables that are live there.
pub data Phase : Type 0 where
  idle : Phase  -- in no call
  waiting : (wanted : Bool) → Phase  -- before POOL.lock()
  locked : (wanted : Bool) → Phase  -- before the load of `enabled`
  differing : (wanted : Bool) → Phase  -- before protect_with_handle
  protected : (wanted : Bool) → Phase  -- before copy_from_slice
  copying : (wanted : Bool) (at : ℕ) (rest : List ℕ) → Phase  -- the bytes that are still to copy
  copied : (wanted : Bool) → Phase  -- before the store of `enabled`
  stored : (wanted : Bool) → Phase  -- before flush_instruction_cache
  flushed : (wanted : Bool) → Phase  -- before the drop of `_handle`
  leaving : (wanted : Bool) (protect : Option RegionError) (result : Result (Unit {0})) → Phase  -- before the drop of `_guard`
  panicked : Phase

-- A call that has left the mutex: the state it wanted, what the system answered to it, its result.
pub record Call : Type 0 where
  pub wanted : Bool
  pub protect : Option RegionError
  pub result : Result (Unit {0})

-- arch::flush_instruction_cache(area.as_ptr() as *const (), area.len())
abbrev pub flush_area : Target → Shared → Memory
flush_area target s =
    let area = s.detour.patcher.area in
    flush_instruction_cache target.calls target.arch target.macos s.memory area.as_ptr area.len
      s.cache

-- One step of thread `i`, with the call that it completes, if it does.
pub data Move (target : Target) (i : ℕ) (s : Shared)
    : Phase → Option Call → Shared → Phase → Type 0 where
  call : {w : Bool} → Move target i s idle none s (waiting w)
  lock :
      {w : Bool}
      → s.owner ≡ none
      → s.poisoned ≡ false
      → Move target i s (waiting w) none (record s { owner = some i }) (locked w)
  lock_poisoned :
      {w : Bool} → s.owner ≡ none → s.poisoned ≡ true → Move target i s (waiting w) none s panicked
  load_same :
      {w : Bool}
      → same s.detour.enabled w ≡ true
      → Move target i s (locked w) none s (leaving w none (ok tt))
  load_differs :
      {w : Bool} → same s.detour.enabled w ≡ false → Move target i s (locked w) none s (differing w)
  protect :
      {w : Bool} → Move target i s (differing w) none (record s { writable = true }) (protected w)
  protect_fails :
      {w : Bool} (e : RegionError)
      → Move target i s (differing w) none s (leaving w (some e) (err (region_failure e)))
  copy :
      {w : Bool}
      → s.detour.patcher.area.len ≡ length (prolog s.detour.patcher w)
      → Move target i s
          (protected w)
          none
          s
          (copying w s.detour.patcher.area.as_ptr (prolog s.detour.patcher w))
  copy_panics :
      {w : Bool}
      → s.detour.patcher.area.len ≢ length (prolog s.detour.patcher w)
      → Move target i s
          (protected w)
          none
          (record s { owner = none; poisoned = true; writable = false })
          panicked
  copy_byte :
      {w : Bool} {at x : ℕ} {rest : List ℕ}
      → Move target i s
          (copying w at (x ∷ rest))
          none
          (record s { memory = write s.memory at (x ∷ []) })
          (copying w (suc at) rest)
  copy_ends : {w : Bool} {at : ℕ} → Move target i s (copying w at []) none s (copied w)
  store :
      {w : Bool}
      → Move target i s
          (copied w)
          none
          (record s { detour = record (s.detour) { enabled = w } })
          (stored w)
  flush :
      {w : Bool}
      → Move target i s (stored w) none (record s { cache = flush_area target s }) (flushed w)
  unprotect :
      {w : Bool}
      → Move target i s (flushed w) none (record s { writable = false }) (leaving w none (ok tt))
  unlock :
      {w : Bool} {answer : Option RegionError} {r : Result (Unit {0})}
      → Move target i s
          (leaving w answer r)
          (some (record { wanted = w; protect = answer; result = r }))
          (record s { owner = none })
          idle

pub record System : Type 0 where
  pub shared : Shared
  pub phase : ℕ → Phase

abbrev pub update {ℓ} : {A : Type ℓ} → (ℕ → A) → ℕ → A → ℕ → A
update f i a j = ite (ℕ_discrete i j) a (f j)

-- A step of some thread.
pub data Step (target : Target) (s : System) : Option Call → System → Type 0 where
  pick :
      (i : ℕ) {c : Option Call} {u : Shared} {p : Phase}
      → Move target i s.shared (s.phase i) c u p
      → Step target s c (record { shared = u; phase = update s.phase i p })

abbrev pub completed : Option Call → List Call → List Call
completed none calls = calls
completed (some c) calls = c ∷ calls

-- A run from `s`, with the calls that were completed in it, the last one first.
pub data Run (target : Target) (s : System) : List Call → System → Type 0 where
  start : Run target s [] s
  later :
      {calls : List Call} {c : Option Call} {t u : System}
      → Run target s calls t
      → Step target t c u
      → Run target s (completed c calls) u

-- No thread is in a call, the mutex is free, and the pages of the area are read-execute.
abbrev pub at_rest : (memory cache : Memory) → Detour → System
at_rest memory cache d = record {
  shared = record {
    memory = memory;
    cache = cache;
    detour = d;
    owner = none;
    poisoned = false;
    writable = false;
  };
  phase = λ i. idle;
}

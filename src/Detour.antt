-- ===== src/Detour.antt =====
-- src/arch/detour.rs and src/arch/memory.rs: the detour that every public type wraps, over the
-- interface that an architecture has. What an operation changes is a `World`: the bytes of the
-- memory and the pool that the crate allocates from.
pub mod Switch
pub mod Made
pub mod Threads
pub mod Flushed
pub mod Tests
pub mod Static
pub mod Raw
pub mod Generic
use detour_rs.Base.{ℕ, ◌≡◌, ◌==◌, Bool, true, false, List, Option, none, some, if◌then◌else◌}
use detour_rs.Base.Memory.{Memory, write}
use detour_rs.Error.{
  Result, ok, err, panic, Error, RegionError, same_address, not_executable, region_failure, ◌>>=◌,
  assert,
}
use detour_rs.Arch.{TargetArch}
use detour_rs.Arch.Patch.{Slice, Patcher, copy_from_slice}
use detour_rs.Arch.Patch
use detour_rs.Pic.{CodeEmitter, total_len, emit}

-- What `arch::` stands for on a target: `meta`, `Trampoline` and `Patcher`.
pub record Architecture : Type 1 where
  pub arch : TargetArch
  pub Trampoline : Type 0
  pub prolog_margin : ℕ → ℕ
  pub new_trampoline : Memory → (target margin : ℕ) → Result Trampoline
  pub prolog_size : Trampoline → ℕ
  pub emitter : Trampoline → CodeEmitter
  pub relay_builder : (target detour : ℕ) → Result (Option CodeEmitter)
  pub new_patcher : Memory → (target detour prolog_size : ℕ) → Result Patcher

-- The pool behind `memory::POOL`, and whether an address is executable.
pub record System : Type 1 where
  pub Pool : Type 0
  pub allocate : Pool → (origin size : ℕ) → Result (Slice × Pool)
  pub release : Pool → Slice → Pool
  pub is_executable_address : ℕ → Result Bool

pub record World (Pool : Type 0) : Type 0 where
  pub memory : Memory
  pub pool : Pool

pub record Detour : Type 0 where
  pub relay : Option Slice
  pub trampoline : Slice
  pub patcher : Patcher
  pub enabled : Bool

-- A call that ends with a result and leaves a state behind, on errors too.
infixl 5 ◌>>+◌
abbrev pub ◌>>+◌ {ℓ} : {S A B : Type ℓ} → Result A × S → (A → S → Result B × S) → Result B × S
(ok a, s) >>+ f = f a s
(err e, s) >>+ f = (err e, s)
(panic, s) >>+ f = (panic, s)

-- The value is dropped where the call that follows it fails.
abbrev pub or_drop {ℓ} : {S A : Type ℓ} → Result A × S → (S → S) → Result A × S
or_drop (ok a, s) drop = (ok a, s)
or_drop (err e, s) drop = (err e, drop s)
or_drop (panic, s) drop = (panic, drop s)

module _ (system : System) where
  open system use {Pool, allocate, release, is_executable_address}

  -- <ExecutableMemory as Drop>::drop, for a relay too
  abbrev pub drop_memory : Slice → World Pool → World Pool
  drop_memory slice w = record w { pool = release w.pool slice }

  abbrev pub drop_relay : Option Slice → World Pool → World Pool
  drop_relay none w = w
  drop_relay (some slice) w = drop_memory slice w

  abbrev allocated : Result (Slice × Pool) → World Pool → Result Slice × World Pool
  allocated (ok (slice, pool)) w = (ok slice, record w { pool = pool })
  allocated (err e) w = (err e, w)
  allocated panic w = (panic, w)

  abbrev written : Result Memory → Slice → World Pool → Result Slice × World Pool
  written (ok memory) slice w = (ok slice, record w { memory = memory })
  written (err e) slice w = (err e, w)
  written panic slice w = (panic, w)

  -- Code is generated for the address that the allocator gives, and copied there.
  unfoldable pub allocate_pic :
      TargetArch → CodeEmitter → (origin : ℕ) → World Pool → Result Slice × World Pool
  allocate_pic arch emitter origin w =
      allocated (allocate w.pool origin (total_len emitter)) w >>+ λ slice w.
      or_drop (written (emit arch emitter slice.as_ptr >>= copy_from_slice w.memory slice) slice w)
        (drop_memory slice)

  -- if !is_executable_address(target)? || !is_executable_address(detour)? { Err(NotExecutable)?; }
  unfoldable pub check_executable : (target detour : ℕ) → Result (Unit {0})
  check_executable target detour = do
    first ← is_executable_address target
    both ← (if first then is_executable_address detour else ok false)
    if both then ok tt else err not_executable

  module _ (a : Architecture) where
    open a use {
      arch, Trampoline, prolog_margin, new_trampoline, prolog_size, emitter, relay_builder,
      new_patcher,
    }

    abbrev new_relay :
        Option CodeEmitter → (target : ℕ) → World Pool → Result (Option Slice) × World Pool
    new_relay none target w = (ok none, w)
    new_relay (some code) target w =
        allocate_pic arch code target w >>+ λ slice w. (ok (some slice), w)

    abbrev pub destination : Option Slice → ℕ → ℕ
    destination none detour = detour
    destination (some slice) detour = slice.as_ptr

    -- The patcher, and the trampoline in its memory; the relay is dropped where one of them fails.
    unfoldable pub assemble :
        Trampoline → (target detour : ℕ) → Option Slice → World Pool → Result Detour × World Pool
    assemble trampoline target detour relay w =
        or_drop
          ((new_patcher w.memory target (destination relay detour) (prolog_size trampoline), w)
            >>+ λ patcher w. allocate_pic arch (emitter trampoline) target w >>+ λ slice w. (
              ok (record { relay = relay; trampoline = slice; patcher = patcher; enabled = false }),
              w,
            ))
          (drop_relay relay)

    -- Detour::new, without the lock.
    unfoldable pub new : (target detour : ℕ) → World Pool → Result Detour × World Pool
    new target detour w =
        if target == detour
        then (err same_address, w)
        else ((check_executable target detour, w) >>+ λ _ w.
            (new_trampoline w.memory target (prolog_margin target), w) >>+ λ trampoline w.
            (relay_builder target detour, w) >>+ λ builder w.
            new_relay builder target w >>+ assemble trampoline target detour)

-- The equality of two flags.
abbrev pub same : Bool → Bool → Bool
same true b = b
same false true = false
same false false = true

-- Detour::toggle, given what `region::protect_with_handle` answers. Nothing changes where the hook
-- is in the wanted state already, or the protection is refused.
unfoldable pub toggle :
    Option RegionError → (enabled : Bool) → Memory × Detour → Result (Unit {0}) × (Memory × Detour)
toggle protect enabled (m, d) = if same d.enabled enabled then (ok tt, (m, d)) else elim protect [
  | some e ↦ (err (region_failure e), (m, d))
  | none ↦ elim (Patch.toggle m d.patcher enabled) [
    | ok m' ↦ (ok tt, (m', record d { enabled = enabled }))
    | err e ↦ (err e, (m, d))
    | panic ↦ (panic, (m, d))
  ]
]

unfoldable pub enable : Option RegionError → Memory × Detour → Result (Unit {0}) × (Memory × Detour)
unfolding toggle
enable protect s = toggle protect true s

unfoldable pub disable :
    Option RegionError → Memory × Detour → Result (Unit {0}) × (Memory × Detour)
unfolding toggle
disable protect s = toggle protect false s

unfoldable pub is_enabled : Detour → Bool
is_enabled d = d.enabled

abbrev is_ok {ℓ} : {A : Type ℓ} → Result A → Bool
is_ok (ok a) = true
is_ok (err e) = false
is_ok panic = false

-- <Detour as Drop>::drop, where `debug_assertions` is the flag of the build; the memory of the
-- detour's fields is given back apart from it.
unfoldable pub drop :
    (debug_assertions : Bool)
    → Option RegionError
    → Memory × Detour
    → Result (Unit {0}) × (Memory × Detour)
unfolding disable
drop true protect s = let (r, s') = disable protect s in (assert (is_ok r), s')
drop false protect s = (ok tt, s)

-- ===== src/Detour/Threads/Stands.antt =====
-- What the shared state holds while a thread is in `Detour::toggle` of src/arch/detour.rs, at each of
-- its steps.
use detour_rs.Base.{ℕ, ◌+◌, ◌≤◌, ◌<◌, ◌≡◌, Bool, true, false, Option, none, some, length}
use detour_rs.Base.Memory.{Memory, write}
use detour_rs.Error.{Result}
use detour_rs.Arch.Cache.{fetched}
use detour_rs.Arch.Patch.{prolog}
use detour_rs.Detour.{Detour, toggle, same}
use detour_rs.Detour.Threads.{
  Target, Shared, Phase, idle, waiting, locked, differing, protected, copying, copied, stored,
  flushed, leaving, panicked, Call,
}

-- A thread holds the mutex.
abbrev pub inside : Phase → Bool
inside idle = false
inside (waiting w) = false
inside panicked = false
inside _ = true

-- What is executed in the area is what the memory holds there.
abbrev pub InSync : Target → Shared → Type 0
InSync target s =
    (a : ℕ)
    → s.detour.patcher.area.as_ptr ≤ a
    → a < s.detour.patcher.area.as_ptr + s.detour.patcher.area.len
    → fetched target.arch s.memory s.cache a ≡ s.memory a

-- The shared state when no call is under way, the calls so far having led to `before`.
pub record Settled (target : Target) (before : Memory × Detour) (s : Shared) : Type 0 where
  pub settled_memory : s.memory ≡ before.0
  pub settled_detour : s.detour ≡ before.1
  pub in_sync : InSync target s
  pub sealed : s.writable ≡ false

-- The memory after the copy of the wanted prolog.
abbrev pub patched : Memory × Detour → Bool → Memory
patched before w = write before.0 before.1.patcher.area.as_ptr (prolog before.1.patcher w)

-- The area is being patched: `memory` is what the memory will be after the bytes that are left.
pub record Patching (before : Memory × Detour) (s : Shared) (w enabled : Bool) (memory : Memory)
    : Type 0 where
  pub leads : memory ≡ patched before w
  pub flagged : s.detour ≡ record (before.1) { enabled = enabled }
  pub differs : same before.1.enabled w ≡ false
  pub opened : s.writable ≡ true

pub record Finished (target : Target) (before : Memory × Detour) (s : Shared)
    (after : Result (Unit {0}) × (Memory × Detour)) (result : Result (Unit {0})) : Type 0 where
  pub outcome : after ≡ (result, (s.memory, s.detour))
  pub synced : InSync target s
  pub closed : s.writable ≡ false

-- The shared state while the holder of the mutex stands at a phase of its call.
abbrev pub Stands : Target → Memory × Detour → Shared → Phase → Type 0
Stands target before s idle = Settled target before s
Stands target before s (waiting w) = Settled target before s
Stands target before s panicked = Settled target before s
Stands target before s (locked w) = Settled target before s
Stands target before s (differing w) = Settled target before s × (same before.1.enabled w ≡ false)
Stands target before s (protected w) =
    (s.memory ≡ before.0)
    × (s.detour ≡ before.1)
    × (same before.1.enabled w ≡ false)
    × (s.writable ≡ true)
Stands target before s (copying w at rest) =
    Patching before s w before.1.enabled (write s.memory at rest)
    × (length rest ≤ before.1.patcher.area.len)
Stands target before s (copied w) = Patching before s w before.1.enabled s.memory
Stands target before s (stored w) = Patching before s w w s.memory
Stands target before s (flushed w) = Patching before s w w s.memory × InSync target s
Stands target before s (leaving w answer r) = Finished target before s (toggle answer w before) r

-- What the calls have led to once another one, or none, is completed.
abbrev pub after : Option Call → Memory × Detour → Memory × Detour
after none before = before
after (some c) before = (toggle c.protect c.wanted before).1

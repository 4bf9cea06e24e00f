-- ===== src/Alloc/Thread.antt =====
-- src/alloc/mod.rs: the allocator that detours share behind a mutex, and the handle of a piece of
-- memory, which gives it back when it is dropped. The guard of the mutex is held for the whole of each
-- operation, so each is one step; one that panics leaves the mutex poisoned. The `Arc` is the sharing of
-- one `ThreadAllocator`.
use detour_rs.Base.{ℕ, [], Bool, true, false, if◌then◌else◌}
use detour_rs.Error.{Result, ok, err, panic}
use detour_rs.Alloc.Proximity.{SlicePool, Os, ProximityAllocator}
use detour_rs.Alloc.Proximity

pub record ThreadAllocator (Pool : Type 0) : Type 0 where
  pub allocator : ProximityAllocator Pool
  pub poisoned : Bool

unfoldable pub new : {Pool : Type 0} → (max_distance : ℕ) → ThreadAllocator Pool
new max_distance = record {
  allocator = record { max_distance = max_distance; pools = [] };
  poisoned = false;
}

pub record ExecutableMemory (Allocation : Type 0) : Type 0 where
  pub allocation : Allocation

module _ (slices : SlicePool) (os : Os (slices.Pool)) where
  open slices use {Pool, Allocation}

  -- A panic under the guard.
  abbrev poison : ThreadAllocator Pool → ThreadAllocator Pool
  poison a = record a { poisoned = true }

  abbrev handed_out :
      ThreadAllocator Pool
      → Result (Allocation × ProximityAllocator Pool)
      → Result (ExecutableMemory Allocation) × ThreadAllocator Pool
  handed_out a (ok (x, allocator)) =
      (ok (record { allocation = x }), record a { allocator = allocator })
  handed_out a (err e) = (err e, a)
  handed_out a panic = (panic, poison a)

  -- self.0.lock().unwrap() panics where the mutex is poisoned.
  unfoldable pub allocate :
      ThreadAllocator Pool
      → (origin size : ℕ) → Result (ExecutableMemory Allocation) × ThreadAllocator Pool
  allocate a origin size =
      if a.poisoned
      then (panic, a)
      else handed_out a (Proximity.allocate slices os a.allocator origin size)

  abbrev taken_back :
      ThreadAllocator Pool
      → Result (ProximityAllocator Pool)
      → Result (Unit {0}) × ThreadAllocator Pool
  taken_back a (ok allocator) = (ok tt, record a { allocator = allocator })
  taken_back a (err e) = (err e, a)
  taken_back a panic = (panic, poison a)

  -- <ExecutableMemory as Drop>::drop
  unfoldable pub drop :
      ThreadAllocator Pool → ExecutableMemory Allocation → Result (Unit {0}) × ThreadAllocator Pool
  drop a memory =
      if a.poisoned
      then (panic, a)
      else taken_back a (Proximity.release slices os a.allocator memory.allocation)

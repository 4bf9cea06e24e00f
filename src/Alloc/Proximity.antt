-- ===== src/Alloc/Proximity.antt =====
-- src/alloc/proximity.rs: pools of executable memory within a distance of an address. A pool is a
-- `SlicePool<u8>` of the crate `slice_pool` over a mapping of the crate `mmap`; both are parameters.
pub mod Served
pub mod NewPool
pub mod Near
pub mod Release
use detour_rs.Base.{
  ℕ, zero, suc, ◌+◌, ◌-◌, ◌≤◌, ◌≡◌, Bool, true, false, ◌&&◌, ltb, leb, ◌==◌, if◌then◌else◌, Option,
  none, some, List, [], ◌∷◌, ◌++◌, ◌*◌,
}
use Prim.Native.Nat.{min}
use mathlib.Core.Option
use detour_rs.Base.Words.{in_range}
use detour_rs.Error.{Result, ok, err, panic, Error, out_of_memory, expect, ◌>>=◌}
use detour_rs.Alloc.Os.{Query}
use detour_rs.Alloc.Search.{
  Range, contains, SearchDirection, before, after, FreeRegionIter, Next, done, free_at, refused,
  stuck, next,
}
use detour_rs.Alloc.Search

-- The operations of `SlicePool<u8>` and of its allocations that the code calls.
pub record SlicePool : Type 1 where
  pub Pool : Type 0
  pub Allocation : Type 0
  pub as_ptr : Pool → ℕ
  pub len : Pool → ℕ
  -- the allocation, and the pool that has it given out
  pub alloc : Pool → ℕ → Option (Allocation × Pool)
  pub allocation_ptr : Allocation → ℕ

-- mmap::MapOption
pub data MapOption : Type 0 where
  map_readable map_writable map_executable : MapOption
  map_addr : (address : ℕ) → MapOption

-- `usize` of less than `m`, the page size, the regions in use, and the pool over what
-- `mmap::MemoryMap::new` answers, if the system grants the mapping.
pub record Os (Pool : Type 0) : Type 0 where
  pub m : ℕ
  pub page_size : ℕ
  pub query : ℕ → Query
  pub memory_map : (size : ℕ) → List MapOption → Option Pool

pub record ProximityAllocator (Pool : Type 0) : Type 0 where
  pub max_distance : ℕ
  pub pools : List Pool

-- What the search for a new pool ends with. `stuck` is no Rust value: the fuel is out.
pub data PoolSearch (Pool : Type 0) : Type 0 where
  pool : Pool → PoolSearch Pool
  failure : Error → PoolSearch Pool
  exhausted : PoolSearch Pool
  stuck_search : PoolSearch Pool

-- Iterator::chain, for the search that `next` makes.
abbrev pub or_else : {Pool : Type 0} → PoolSearch Pool → PoolSearch Pool → PoolSearch Pool
or_else exhausted other = other
or_else (pool p) other = pool p
or_else (failure e) other = failure e
or_else stuck_search other = stuck_search

-- .unwrap_or(Err(Error::OutOfMemory))
abbrev pub searched : {Pool : Type 0} → PoolSearch Pool → Result Pool
searched (pool p) = ok p
searched (failure e) = err e
searched exhausted = err out_of_memory
searched stuck_search = panic

module _ (slices : SlicePool) (os : Os (slices.Pool)) where
  open slices use {Pool, Allocation, as_ptr, len, alloc, allocation_ptr}
  open os use {m, page_size, query, memory_map}

  -- Tries to allocate fixed memory at the specified address.
  unfoldable pub allocate_fixed_pool : (address size : ℕ) → Option Pool
  allocate_fixed_pool address size =
      memory_map size (map_readable ∷ map_writable ∷ map_executable ∷ map_addr address ∷ [])

  -- The addresses that are at most `max_distance` from the origin; the sums saturate.
  unfoldable pub memory_range : (max_distance origin : ℕ) → Range
  memory_range max_distance origin = record {
    start = origin - max_distance;
    stop = min (origin + max_distance) (m - 1);
  }

  -- Whether the memory of a pool is within the range.
  unfoldable pub is_pool_in_range : Range → Pool → Bool
  is_pool_in_range range p = contains range (as_ptr p) && contains range (as_ptr p + len p - 1)

  -- The closure of `allocate_memory`.
  unfoldable pub try_pool : Range → ℕ → Pool → Option (Allocation × Pool)
  unfolding is_pool_in_range
  try_pool range size p = if is_pool_in_range range p then alloc p size else none

  -- The first pool that is within the range and has room, with the pools after the call.
  unfoldable pub allocate_memory : Range → ℕ → List Pool → Option (Allocation × List Pool)
  allocate_memory range size [] = none
  allocate_memory range size (p ∷ ps) =
      let rest : Option (Allocation × List Pool) =
        Option.map (λ r. (r.0, p ∷ r.1)) (allocate_memory range size ps) in
      elim (try_pool range size p) [ some (x, p') ↦ some (x, p' ∷ ps) | none ↦ rest ]

  -- The addresses that the search yields are tried one after the other; its first error ends it.
  unfoldable pub try_regions : ℕ → ℕ → FreeRegionIter → PoolSearch Pool
  try_regions zero size it = stuck_search
  try_regions (suc fuel) size it = elim (next m page_size query (suc fuel) it) [
    | done ↦ exhausted
    | stuck ↦ stuck_search
    | free_at address it' ↦ elim (allocate_fixed_pool address size) [
      | some p ↦ pool p
      | none ↦ try_regions fuel size it'
    ]
    | refused e it' ↦ failure e
  ]

  -- As many rounds as there are addresses.
  abbrev pub fuel : ℕ
  fuel = suc m

  unfoldable pub allocate_pool : Range → (origin size : ℕ) → PoolSearch Pool
  allocate_pool range origin size =
      or_else (try_regions fuel size (Search.new m origin (some range) after))
        (try_regions fuel size (Search.new m origin (some range) before))

  unfoldable pub allocate :
      ProximityAllocator Pool → (origin size : ℕ) → Result (Allocation × ProximityAllocator Pool)
  allocate a origin size =
      let range = memory_range a.max_distance origin in
      elim (allocate_memory range size a.pools) [
        | some (x, ps) ↦ ok (x, record a { pools = ps })
        | none ↦ do
          p ← searched (allocate_pool range origin size)
          (x, p') ← expect (alloc p size)
          ok (x, record a { pools = a.pools ++ p' ∷ [] })
      ]

  -- Whether an allocation lies in the memory of a pool.
  unfoldable pub holds : Allocation → Pool → Bool
  holds value p = in_range (as_ptr p) (as_ptr p + len p) (allocation_ptr value)

  -- `position`, `expect`, and the removal of the pool when its `len()` is one.
  unfoldable pub release_from : Allocation → List Pool → Result (List Pool)
  release_from value [] = panic
  release_from value (p ∷ ps) =
      let rest = release_from value ps >>= λ ps'. ok (p ∷ ps') in
      if holds value p then ok (if len p == 1 then ps else p ∷ ps) else rest

  unfoldable pub release : ProximityAllocator Pool → Allocation → Result (ProximityAllocator Pool)
  release a value = do ps ← release_from value a.pools; ok (record a { pools = ps })

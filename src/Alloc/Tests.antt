-- ===== src/Alloc/Tests.antt =====
-- Concrete runs of the theorems about src/alloc, with one mapped region and pools that give their
-- memory out from the start on.
use detour_rs.Base.{
  ℕ, ◌+◌, ◌≤◌, ◌<◌, ◌≡◌, ◌≢◌, refl, inl, inr, true, none, some, Option, List, [], ◌∷◌, leb,
  if◌then◌else◌, arith, Bool-cases, ap, sym, subst, leb→le,
}
use mathlib.Core.Option
use detour_rs.Base.Words.{in_range}
use detour_rs.Error.{ok, free_memory}
use detour_rs.Alloc.Os.{Region, Query, mapped, failed, Encloses, Filled}
use detour_rs.Alloc.Search.{
  Range, contains, SearchDirection, after, FreeRegionIter, next, free_at, past_item, stuck,
}
use detour_rs.Alloc.Search
use detour_rs.Alloc.Proximity.{
  SlicePool, Os, ProximityAllocator, release, release_from, holds, stuck_search, try_regions,
  allocate, allocate_memory, allocate_pool, memory_range, allocate_fixed_pool, MapOption, map_addr,
}
use detour_rs.Alloc.Proximity.Release.{release-keeps}
use detour_rs.Alloc.Proximity.Served.{Grants}
use detour_rs.Alloc.Proximity.Near.{Allocated, allocate-Allocated}
use detour_rs.Alloc.Proximity.NewPool.{try_regions-ne-stuck}

abbrev used_region : Region
used_region = record { lower = 0x1000; upper = 0x3000; is_executable = true }

abbrev query : ℕ → Query
query address = if in_range 0x1000 0x3000 address then mapped used_region else failed free_memory

query-mapped :
    (address : ℕ) (region : Region)
    → query address ≡ mapped region
    → (in_range 0x1000 0x3000 address ≡ true) × (used_region ≡ region)
query-mapped address region h = elim (Bool-cases (in_range 0x1000 0x3000 address)) [
  | inl inside ↦ let same : mapped used_region ≡ mapped region = rw inside at h in (inside, cc)
  | inr outside ↦ let other : failed free_memory ≡ mapped region = rw outside at h in cc
]

query-Encloses : Encloses query
query-Encloses address region h =
    let (inside, same) = query-mapped address region h in
    subst (λ r. (r.lower ≤ address) × (address < r.upper)) same (ground arith)

query-Filled : Filled query
query-Filled address p region h lo hi =
    let (inside, same) = query-mapped address region h in
    let lower : 0x1000 ≡ region.lower = ap (λ r. r.lower) same in
    let upper : 0x3000 ≡ region.upper = ap (λ r. r.upper) same in
    let there : in_range 0x1000 0x3000 p ≡ true = ground arith in (used_region, rw there)

-- Its address, its length, and how much of it is given out.
abbrev Chunk : Type 0
Chunk = ℕ × ℕ × ℕ

abbrev pools : SlicePool
pools = record {
  Pool = Chunk;
  Allocation = ℕ;
  as_ptr = λ p. p.0;
  len = λ p. p.1;
  alloc = λ p n. if leb (p.2 + n) p.1 then some (p.0 + p.2, (p.0, p.1, p.2 + n)) else none;
  allocation_ptr = λ x. x;
}

pools-Grants : Grants pools
pools-Grants p p' n x h = elim (Bool-cases (leb (p.2 + n) p.1)) [
  | inl fits ↦
      let given : pools.alloc p n ≡ some (p.0 + p.2, (p.0, p.1, p.2 + n)) = rw fits in
      let at : p.0 + p.2 ≡ x = cc in
      let front : p.0 ≡ p'.0 = cc in
      let size : p.1 ≡ p'.1 = cc in
      let room = leb→le _ _ fits in (omega arith, omega arith, sym front, sym size)
  | inr full ↦ let c : none ≡ some (x, p') = rw full at h in cc
]

-- Where a mapping is asked for.
abbrev fixed : List MapOption → Option ℕ
fixed [] = none
fixed (map_addr address ∷ options) = some address
fixed (o ∷ options) = fixed options

abbrev os : Os (pools.Pool)
os = record {
  m = 0x1_0000_0000_0000_0000;
  page_size = 0x1000;
  query = query;
  memory_map = λ size options. Option.map (λ address. (address, size, 0)) (fixed options);
}

abbrev empty : ProximityAllocator (pools.Pool)
empty = record { max_distance = 0x1_0000; pools = [] }

abbrev one_pool : ProximityAllocator (pools.Pool)
one_pool = record { max_distance = 0x1_0000; pools = (0x3000, 16, 16) ∷ [] }

allocated : allocate pools os empty 0x1500 16 ≡ ok (0x3000, one_pool)
unfolding allocate allocate_memory allocate_pool memory_range try_regions allocate_fixed_pool next
    Search.new
allocated = refl

allocate-Allocated_example : Allocated pools os empty 0x1500 16 0x3000 one_pool
allocate-Allocated_example =
    allocate-Allocated pools os empty one_pool 0x1500 16 0x3000 pools-Grants query-Encloses
      allocated

abbrev upwards : FreeRegionIter
upwards = record {
  range = record { start = 0x500; stop = 0x11500 };
  search = after;
  current = 0x1500;
}

try_regions-ne-stuck_example : try_regions pools os 0x1_0001 16 upwards ≢ stuck_search
try_regions-ne-stuck_example =
    try_regions-ne-stuck pools os 0x1_0001 16 upwards query-Encloses (omega arith) (omega arith)
      (omega arith)

abbrev behind : FreeRegionIter
behind = record upwards { current = 0x4000 }

yielded : next os.m 0x1000 query 5 upwards ≡ free_at 0x3000 behind
unfolding next
yielded = refl

released : release pools os one_pool 0x3000 ≡ ok one_pool
unfolding release release_from holds
released = refl

release-keeps_example : one_pool ≡ one_pool
release-keeps_example =
    release-keeps pools os one_pool one_pool 0x3000 ((λ e. omega arith), tt) released

-- ===== src/Alloc/Proximity/Near.antt =====
-- What src/alloc/proximity.rs promises of an allocation: where it lies, and when a new pool is made.
use detour_rs.Base.{
  ℕ, ◌+◌, ◌≤◌, ◌<◌, ◌≡◌, refl, subst, ap, ◌⊎◌, inl, inr, true, [], ◌∷◌, ◌++◌, Option, none, some,
  arith, All,
}
use detour_rs.Error.{ok, expect, >>=-eq-ok, ok-injective}
use detour_rs.Alloc.Os.{Encloses}
use detour_rs.Alloc.Search.{
  Range, contains, SearchDirection, before, after, FreeRegionIter, past_item, Next, done, free_at,
  refused, stuck, next,
}
use detour_rs.Alloc.Search
use detour_rs.Alloc.Search.Steps.{IsFree}
use detour_rs.Alloc.Proximity.{
  SlicePool, Os, ProximityAllocator, PoolSearch, pool, failure, exhausted, stuck_search, or_else,
  searched, memory_range, fuel, allocate_fixed_pool, allocate_pool, allocate,
}
use detour_rs.Alloc.Proximity.Served.{Grants, Unfit, IsServed, allocate_memory-cases}
use detour_rs.Alloc.Proximity.NewPool.{try_regions-pool}

pub expect-eq-ok {ℓ} : {A : Type ℓ} (o : Option A) {a : A} → expect o ≡ ok a → o ≡ some a
expect-eq-ok none h = cc
expect-eq-ok (some a) h = ap some (ok-injective h)

searched-eq-ok : {Pool : Type 0} (r : PoolSearch Pool) {p : Pool} → searched r ≡ ok p → r ≡ pool p
searched-eq-ok (pool p) h = ap pool (ok-injective h)
searched-eq-ok (failure e) h = cc
searched-eq-ok exhausted h = cc
searched-eq-ok stuck_search h = cc

or_else-eq-pool :
    {Pool : Type 0} (r t : PoolSearch Pool) {p : Pool}
    → or_else r t ≡ pool p
    → (r ≡ pool p) ⊎ (t ≡ pool p)
or_else-eq-pool (pool p) t h = inl h
or_else-eq-pool (failure e) t h = inl h
or_else-eq-pool exhausted t h = inr h
or_else-eq-pool stuck_search t h = inl h

module _ (s : SlicePool) (os : Os (s.Pool)) where
  -- What an allocation is: the first pool that can serve it grants it, within the distance of the
  -- origin, and what that pool becomes takes its place, with all other pools as they were; or it
  -- is the first of a new pool, which was made at a free address within the distance, since no pool
  -- that was there could serve it.
  abbrev pub Allocated :
      ProximityAllocator (s.Pool)
      → (origin n : ℕ) → s.Allocation
      → ProximityAllocator (s.Pool)
      → Type 0
  Allocated a origin n x a' =
      ((origin ≤ s.allocation_ptr x + a.max_distance)
        × (s.allocation_ptr x + n ≤ origin + a.max_distance)
        × IsServed s os (memory_range s os a.max_distance origin) n a.pools x a'.pools)
      ⊎ (All (Unfit s os (memory_range s os a.max_distance origin) n) a.pools
          × (address : ℕ) × (origin ≤ address + a.max_distance)
          × (address < origin + a.max_distance)
          × IsFree (os.query) address
          × (p : s.Pool) × (p' : s.Pool) × (allocate_fixed_pool s os address n ≡ some p)
          × (s.alloc p n ≡ some (x, p'))
          × (a'.pools ≡ a.pools ++ p' ∷ []))

  near :
      (a : ProximityAllocator (s.Pool)) (origin p n : ℕ)
      → (memory_range s os a.max_distance origin).start ≤ p
      → p + n ≤ (memory_range s os a.max_distance origin).stop
      → (origin ≤ p + a.max_distance) × (p + n ≤ origin + a.max_distance)
  unfolding memory_range
  near a origin p n lo hi = omega arith

  near_address :
      (a : ProximityAllocator (s.Pool)) (origin p : ℕ)
      → contains (memory_range s os a.max_distance origin) p ≡ true
      → (origin ≤ p + a.max_distance) × (p < origin + a.max_distance)
  unfolding memory_range
  near_address a origin p h = ground arith

  allocate_pool-near :
      (a : ProximityAllocator (s.Pool)) (origin n : ℕ) (p : s.Pool)
      → Encloses (os.query)
      → searched (allocate_pool s os (memory_range s os a.max_distance origin) origin n) ≡ ok p
      → (address : ℕ) × (origin ≤ address + a.max_distance)
        × (address < origin + a.max_distance)
        × IsFree (os.query) address
        × (allocate_fixed_pool s os address n ≡ some p)
  unfolding allocate_pool
  allocate_pool-near a origin n p encloses h =
      let range = memory_range s os a.max_distance origin in
      elim (or_else-eq-pool _ _ (searched-eq-ok _ h)) [
        | inl e ↦
            let (address, inside, free, made) =
              try_regions-pool s os (fuel s os) n (Search.new (os.m) origin (some range) after) p
                encloses e in
            let (lo, hi) = near_address a origin address (unfold Search.new in inside) in
            (address, lo, hi, free, made)
        | inr e ↦
            let (address, inside, free, made) =
              try_regions-pool s os (fuel s os) n (Search.new (os.m) origin (some range) before) p
                encloses e in
            let (lo, hi) = near_address a origin address (unfold Search.new in inside) in
            (address, lo, hi, free, made)
      ]

  -- Where the pools grant memory of their own only and a region encloses the addresses that it is
  -- answered for, an allocation that succeeds is granted by the first pool that is in range and has
  -- room, within the distance of the origin, and what that pool becomes takes its place, with all
  -- other pools as they were; or no pool that was there is in range and has room, and it comes
  -- from a new pool at a free address within the distance, which is added as the last one.
  pub allocate-Allocated :
      (a a' : ProximityAllocator (s.Pool)) (origin n : ℕ) (x : s.Allocation)
      → Grants s
      → Encloses (os.query)
      → allocate s os a origin n ≡ ok (x, a')
      → Allocated a origin n x a'
  unfolding allocate
  allocate-Allocated a a' origin n x grants encloses h =
      elim (allocate_memory-cases s os (memory_range s os a.max_distance origin) n a.pools grants) [
        | inr (y, ps, e, served) ↦
            let (lo, hi) = near a origin (s.allocation_ptr y) n served.start_le served.end_le in
            subst (λ r. Allocated a origin n r.0 r.1) (ok-injective (rw (e, allocate) at h))
              (inl (lo, hi, served))
        | inl (e, unfit) ↦
            let (p, searched', rest) =
              >>=-eq-ok
                (searched (allocate_pool s os (memory_range s os a.max_distance origin) origin n)) _
                (rw (e, allocate) at h) in
            let ((y, p'), granted, finish) = >>=-eq-ok (expect (s.alloc p n)) _ rest in
            let (address, lo, hi, free, made) =
              allocate_pool-near a origin n p encloses searched' in
            subst (λ r. Allocated a origin n r.0 r.1) (ok-injective finish)
              (inr (
                unfit,
                address,
                lo,
                hi,
                free,
                p,
                p',
                made,
                expect-eq-ok (s.alloc p n) granted,
                refl,
              ))
      ]

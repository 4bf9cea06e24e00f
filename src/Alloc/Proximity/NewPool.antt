-- ===== src/Alloc/Proximity/NewPool.antt =====
-- The search of src/alloc/proximity.rs for a new pool: where the pool is made, and that it ends.
use detour_rs.Base.{
  ℕ, zero, suc, ◌+◌, ◌%◌, ◌≤◌, ◌<◌, ◌≡◌, refl, sym, subst, ap, ◌∙◌, ◌≢◌, ◌⊎◌, inl, inr, true, some,
  arith, Option-cases,
}
use native.Mathlib.Nat.{mod-eq_of_lt}
use detour_rs.Error.{Error}
use detour_rs.Alloc.Os.{Encloses}
use detour_rs.Alloc.Search.{
  Range, contains, SearchDirection, before, after, FreeRegionIter, past_item, Next, done, free_at,
  refused, stuck, next,
}
use detour_rs.Alloc.Search.Steps.{IsFree, Yields, next-item, rounds, next-ne-stuck}
use detour_rs.Alloc.Proximity.{
  SlicePool, Os, pool, failure, exhausted, stuck_search, try_regions, fuel, allocate_fixed_pool,
}

next-cases :
    (x : Next)
    → (x ≡ done)
      ⊎ (x ≡ stuck)
      ⊎ ((e : Error) × (it : FreeRegionIter) × (x ≡ refused e it))
      ⊎ ((p : ℕ) × (it : FreeRegionIter) × (x ≡ free_at p it))
next-cases done = inl refl
next-cases stuck = inr (inl refl)
next-cases (refused e it) = inr (inr (inl (e, it, refl)))
next-cases (free_at p it) = inr (inr (inr (p, it, refl)))

module _ (s : SlicePool) (os : Os (s.Pool)) where
  -- One round of the search for a new pool.
  try_regions-round :
      (fuel n : ℕ) (it : FreeRegionIter)
      → (try_regions s os (suc fuel) n it ≡ exhausted)
        ⊎ (next (os.m) (os.page_size) (os.query) (suc fuel) it ≡ stuck)
          × (try_regions s os (suc fuel) n it ≡ stuck_search)
        ⊎ ((e : Error) × (try_regions s os (suc fuel) n it ≡ failure e))
        ⊎ ((address : ℕ) × (it' : FreeRegionIter) × (next
                (os.m)
                (os.page_size)
                (os.query)
                (suc fuel)
                it
              ≡ free_at address it')
            × (((p : s.Pool) × (allocate_fixed_pool s os address n ≡ some p)
                  × (try_regions s os (suc fuel) n it ≡ pool p))
                ⊎ (try_regions s os (suc fuel) n it ≡ try_regions s os fuel n it')))
  unfolding try_regions
  try_regions-round fuel n it =
      elim (next-cases (next (os.m) (os.page_size) (os.query) (suc fuel) it)) [
        | inl e ↦ inl (rw (e, try_regions))
        | inr (inl e) ↦ inr (inl (e, rw (e, try_regions)))
        | inr (inr (inl (x, it', e))) ↦ inr (inr (inl (x, rw (e, try_regions))))
        | inr (inr (inr (address, it', e))) ↦
            elim (Option-cases (allocate_fixed_pool s os address n)) [
              | inr (p, f) ↦ inr (inr (inr (address, it', e, inl (p, f, rw (e, f, try_regions)))))
              | inl f ↦ inr (inr (inr (address, it', e, inr (rw (e, f, try_regions)))))
            ]
      ]

  -- A new pool is made at an address that was free, in the range.
  pub try_regions-pool :
      (k n : ℕ) (it : FreeRegionIter) (p : s.Pool)
      → Encloses (os.query)
      → try_regions s os k n it ≡ pool p
      → (address : ℕ) × (contains it.range address ≡ true)
        × IsFree (os.query) address
        × (allocate_fixed_pool s os address n ≡ some p)
  try_regions-pool zero n it p encloses h =
      let c : stuck_search ≡ pool p = unfold try_regions in h in cc
  try_regions-pool (suc k) n it p encloses h = elim (try_regions-round k n it) [
    | inl e ↦ let c : exhausted ≡ pool p = sym e ∙ h in cc
    | inr (inl (_, e)) ↦ let c : stuck_search ≡ pool p = sym e ∙ h in cc
    | inr (inr (inl (x, e))) ↦ let c : failure x ≡ pool p = sym e ∙ h in cc
    | inr (inr (inr (address, it', e, tried))) ↦
        let (some_place, inside, free, ahead, on) =
          next-item (os.m) (os.page_size) (os.query) encloses (suc k) it it' address e in
        elim tried [
          | inl (q, mapped', f) ↦
              let same : q ≡ p = cc (sym f ∙ h) in (address, inside, free, mapped' ∙ ap some same)
          | inr f ↦
              let range : it'.range ≡ it.range = ap (λ i. i.range) on in
              let (there, inside', free', got) = try_regions-pool k n it' p encloses (sym f ∙ h) in
              (there, subst (λ r. contains r there ≡ true) range inside', free', got)
        ]
  ]

  ahead-lt :
      (d : SearchDirection) (range : Range) (start p : ℕ)
      → 0 < os.page_size
      → 0 < p
      → range.stop + os.page_size ≤ os.m
      → contains range p ≡ true
      → Yields d start p
      → rounds d range (past_item (os.m) d p (os.page_size)) < rounds d range start
  ahead-lt before range start p page some_place room inside ahead = omega arith
  ahead-lt after range start p page some_place room inside ahead =
      let below : p < range.stop = ground arith in
      let on : (p + os.page_size) % os.m ≡ p + os.page_size = mod-eq_of_lt (omega arith) in
      omega arith

  -- With more fuel than the range has addresses ahead, the search for a new pool ends, where a region
  -- encloses the addresses that it is answered for, a page has bytes, and the range ends a page
  -- below the end of the addresses.
  pub try_regions-ne-stuck :
      (k n : ℕ) (it : FreeRegionIter)
      → Encloses (os.query)
      → 0 < os.page_size
      → it.range.stop + os.page_size ≤ os.m
      → rounds it.search it.range it.current < k
      → try_regions s os k n it ≢ stuck_search
  try_regions-ne-stuck zero n it encloses page room enough = absurd (omega arith)
  try_regions-ne-stuck (suc k) n it encloses page room enough = elim (try_regions-round k n it) [
    | inl e ↦ rw e (λ c. cc)
    | inr (inl (e, _)) ↦
        absurd (next-ne-stuck (os.m) (os.page_size) (os.query) encloses (suc k) it page enough e)
    | inr (inr (inl (x, e))) ↦ rw e (λ c. cc)
    | inr (inr (inr (address, it', e, tried))) ↦
        let (some_place, inside, free, ahead, on) =
          next-item (os.m) (os.page_size) (os.query) encloses (suc k) it it' address e in
        elim tried [
          | inl (q, _, f) ↦ rw f (λ c. cc)
          | inr f ↦
              let fewer =
                ahead-lt it.search it.range it.current address page some_place room inside ahead in
              rw (f, on)
                (try_regions-ne-stuck k n
                  (record it { current = past_item (os.m) it.search address (os.page_size) })
                  encloses page room (omega arith))
        ]
  ]

-- ===== src/Alloc/Search/Steps.antt =====
-- The search of src/alloc/search.rs ends, stays in its range and finds what is free.
use detour_rs.Base.{
  ℕ, zero, suc, ◌-◌, ◌≤◌, ◌<◌, ◌≡◌, refl, ap, ◌∙◌, ◌≢◌, ◌⊎◌, inl, inr, true, ltb, arith, Bool-cases,
  ltb→lt, ltb→le, sym, subst,
}
use detour_rs.Error.{RegionError, free_memory, inner}
use detour_rs.Alloc.Os.{Region, Query, mapped, failed, Encloses, Filled}
use detour_rs.Alloc.Search.{
  Range, contains, SearchDirection, before, after, FreeRegionIter, done, free_at, stuck, next,
  found, past_region, past_item,
}

-- How many rounds are left at most.
abbrev pub rounds : SearchDirection → Range → ℕ → ℕ
rounds before range current = current
rounds after range current = range.stop - current

Query-cases : (q : Query) → ((r : Region) × (q ≡ mapped r)) ⊎ ((e : RegionError) × (q ≡ failed e))
Query-cases (mapped r) = inl (r, refl)
Query-cases (failed e) = inr (e, refl)

-- One round of the loop: it is over, it passes a region that is in use, or it yields an item.
abbrev Round : (m page_size : ℕ) → (ℕ → Query) → ℕ → FreeRegionIter → Type 0
Round m page_size query fuel it =
    (next m page_size query (suc fuel) it ≡ done)
    ⊎ ((0 < it.current)
        × (contains it.range it.current ≡ true)
        × (r : Region) × (query it.current ≡ mapped r)
        × (next m page_size query (suc fuel) it
            ≡ next m page_size query fuel
                (record it { current = past_region it.search r page_size })))
    ⊎ ((0 < it.current)
        × (contains it.range it.current ≡ true)
        × (e : RegionError) × (query it.current ≡ failed e)
        × (next m page_size query (suc fuel) it
            ≡ found e it.current
                (record it { current = past_item m it.search it.current page_size })))

next-Round :
    (m page_size : ℕ) (query : ℕ → Query) (fuel : ℕ) (it : FreeRegionIter)
    → Round m page_size query fuel it
unfolding next
next-Round m page_size query fuel it = elim (Bool-cases (ltb 0 it.current)) [
  | inr at_zero ↦ inl (simp at_zero)
  | inl some_place ↦ elim (Bool-cases (contains it.range it.current)) [
    | inr outside ↦ inl (simp (some_place, outside))
    | inl inside ↦ elim (Query-cases (query it.current)) [
      | inr (e, free) ↦
          inr
            (inr (ltb→lt 0 it.current some_place, inside, e, free, simp (some_place, inside, free)))
      | inl (r, used) ↦
          inr
            (inl (ltb→lt 0 it.current some_place, inside, r, used, simp (some_place, inside, used)))
    ]
  ]
]

found-ne-stuck : (x : RegionError) (current : ℕ) (it : FreeRegionIter) → found x current it ≢ stuck
found-ne-stuck free_memory current it = λ p. cc
found-ne-stuck (inner e) current it = λ p. cc

module _ (m page_size : ℕ) (query : ℕ → Query) (encloses : Encloses query) where
  past_region-lt :
      (s : SearchDirection) (range : Range) (current : ℕ) (r : Region)
      → 0 < current
      → 0 < page_size
      → contains range current ≡ true
      → query current ≡ mapped r
      → rounds s range (past_region s r page_size) < rounds s range current
  past_region-lt before range current r some_place page inside e =
      omega (arith, encloses current r e)
  past_region-lt after range current r some_place page inside e =
      let (lower, upper) = encloses current r e in ground arith

  -- With more fuel than the range has addresses ahead, the search ends.
  pub next-ne-stuck :
      (fuel : ℕ) (it : FreeRegionIter)
      → 0 < page_size
      → rounds it.search it.range it.current < fuel
      → next m page_size query fuel it ≢ stuck
  next-ne-stuck zero it page enough = absurd (omega arith)
  next-ne-stuck (suc fuel) it page enough = elim (next-Round m page_size query fuel it) [
    | inl e ↦ rw e (λ p. cc)
    | inr (inl (some_place, inside, r, used, e)) ↦
        let fewer = past_region-lt it.search it.range it.current r some_place page inside used in
        rw e (
          next-ne-stuck fuel (record it { current = past_region it.search r page_size }) page
            (omega arith))
    | inr (inr (_, _, x, _, e)) ↦ rw e (found-ne-stuck x it.current _)
  ]

found_here :
    (x : RegionError) (current p : ℕ) (it it' : FreeRegionIter)
    → found x current it ≡ free_at p it'
    → current ≡ p
found_here free_memory current p it it' h = cc
found_here (inner e) current p it it' h = cc

-- An address that the search may yield: not null, in the range, free, and not behind where the
-- search was, in its direction.
abbrev pub Yields : SearchDirection → ℕ → ℕ → Type 0
Yields before current p = p ≤ current
Yields after current p = current ≤ p

abbrev pub IsFree : (ℕ → Query) → ℕ → Type 0
IsFree query p = query p ≡ failed free_memory

Yields-trans : (s : SearchDirection) (a b c : ℕ) → Yields s a b → Yields s b c → Yields s a c
Yields-trans before a b c h k = omega arith
Yields-trans after a b c h k = omega arith

module _ (m page_size : ℕ) (query : ℕ → Query) (encloses : Encloses query) where
  past_region-Yields :
      (s : SearchDirection) (current : ℕ) (r : Region)
      → query current ≡ mapped r
      → Yields s current (past_region s r page_size)
  past_region-Yields before current r e = omega (arith, encloses current r e)
  past_region-Yields after current r e = omega (arith, encloses current r e)

  Yields-here : (s : SearchDirection) (current : ℕ) → Yields s current current
  Yields-here before current = omega arith
  Yields-here after current = omega arith

  yielded :
      (it it' : FreeRegionIter) (x : RegionError) (p : ℕ)
      → 0 < it.current
      → contains it.range it.current ≡ true
      → query it.current ≡ failed x
      → found x it.current (record it { current = past_item m it.search it.current page_size })
        ≡ free_at p it'
      → (0 < p)
        × (contains it.range p ≡ true)
        × IsFree query p
        × Yields it.search it.current p
        × (it' ≡ record it { current = past_item m it.search p page_size })
  yielded it it' free_memory p some_place inside free e =
      let here : it.current ≡ p = cc in
      let same : record it { current = past_item m it.search it.current page_size } ≡ it' = cc in
      (
        omega arith,
        subst (λ q. contains it.range q ≡ true) here inside,
        subst (IsFree query) here free,
        subst (Yields it.search it.current) here (Yields-here it.search it.current),
        sym same ∙ ap (λ q. record it { current = past_item m it.search q page_size }) here,
      )
  yielded it it' (inner n) p some_place inside free e = cc

  -- Where a region encloses the addresses that it is answered for, every address that the search
  -- yields is not null, is free, lies in the range and ahead, and the search goes
  -- on a page further.
  pub next-item :
      (fuel : ℕ) (it it' : FreeRegionIter) (p : ℕ)
      → next m page_size query fuel it ≡ free_at p it'
      → (0 < p)
        × (contains it.range p ≡ true)
        × IsFree query p
        × Yields it.search it.current p
        × (it' ≡ record it { current = past_item m it.search p page_size })
  next-item zero it it' p h = let c : stuck ≡ free_at p it' = unfold next in h in cc
  next-item (suc fuel) it it' p h = elim (next-Round m page_size query fuel it) [
    | inl e ↦ let c : done ≡ free_at p it' = sym e ∙ h in cc
    | inr (inl (some_place, inside, r, used, e)) ↦
        let it1 = record it { current = past_region it.search r page_size } in
        let (pos', within, free, ahead, on) = next-item fuel it1 it' p (sym e ∙ h) in
        (
          pos',
          within,
          free,
          Yields-trans it.search it.current (past_region it.search r page_size) p
              (past_region-Yields it.search it.current r used) ahead,
          on,
        )
    | inr (inr (some_place, inside, x, is_free, e)) ↦
        yielded it it' x p some_place inside is_free (sym e ∙ h)
  ]

  -- Searching upwards, it yields the closest free address: all addresses from where it was up to
  -- there are in use, where a region is answered for exactly its own addresses.
  pub next-closest :
      (fuel : ℕ) (it it' : FreeRegionIter) (p q : ℕ)
      → Filled query
      → it.search ≡ after
      → next m page_size query fuel it ≡ free_at p it'
      → it.current ≤ q
      → q < p
      → (r : Region) × (query q ≡ mapped r)
  next-closest zero it it' p q filled s h lo hi =
      let c : stuck ≡ free_at p it' = unfold next in h in cc
  next-closest (suc fuel) it it' p q filled s h lo hi =
      elim (next-Round m page_size query fuel it) [
        | inl e ↦ let c : done ≡ free_at p it' = sym e ∙ h in cc
        | inr (inl (some_place, inside, r, used, e)) ↦
            let on : next m page_size query fuel
                  (record it { current = past_region it.search r page_size })
                ≡ free_at p it' =
              sym e ∙ h in
            let (lower, upper) = encloses it.current r used in
            let top : past_region it.search r page_size ≡ r.upper =
              ap (λ d. past_region d r page_size) s in
            elim (Bool-cases (ltb q r.upper)) [
              | inl below ↦ filled it.current q r used (omega arith) (ltb→lt q r.upper below)
              | inr above ↦
                  next-closest fuel (record it { current = past_region it.search r page_size }) it'
                    p q filled s on (omega (arith, ltb→le q r.upper above)) hi
            ]
        | inr (inr (some_place, inside, x, is_free, e)) ↦
            let same : it.current ≡ p = found_here x it.current p _ it' (sym e ∙ h) in
            absurd (omega arith)
      ]

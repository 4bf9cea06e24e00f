-- ===== src/Alloc/Proximity/Served.antt =====
-- Which pool of src/alloc/proximity.rs serves a request, and which requests no pool can serve.
use detour_rs.Base.{
  ℕ, ◌+◌, ◌≤◌, ◌≡◌, refl, ap, ◌⊎◌, inl, inr, false, List, [], ◌∷◌, ◌++◌, true, none, some, arith,
  All, Bool-cases, Option-cases,
}
use detour_rs.Alloc.Search.{Range}
use detour_rs.Alloc.Proximity.{SlicePool, Os, is_pool_in_range, try_pool, allocate_memory}

-- The documented behaviour of `SlicePool::alloc`: the allocation lies in the memory of the pool,
-- which stays where it is.
abbrev pub Grants : SlicePool → Type 0
Grants s =
    (p p' : s.Pool) (n : ℕ) (x : s.Allocation)
    → s.alloc p n ≡ some (x, p')
    → (s.as_ptr p ≤ s.allocation_ptr x)
      × (s.allocation_ptr x + n ≤ s.as_ptr p + s.len p)
      × (s.as_ptr p' ≡ s.as_ptr p)
      × (s.len p' ≡ s.len p)

module _ (s : SlicePool) (os : Os (s.Pool)) where
  -- A pool that cannot serve a request: it is out of the range, or has no room.
  abbrev pub Unfit : Range → ℕ → s.Pool → Type 0
  Unfit range n p = (is_pool_in_range s os range p ≡ false) ⊎ (s.alloc p n ≡ none)

  try_pool-none :
      (range : Range) (n : ℕ) (p : s.Pool) → try_pool s os range n p ≡ none → Unfit range n p
  unfolding try_pool
  try_pool-none range n p h = elim (Bool-cases (is_pool_in_range s os range p)) [
    | inl inside ↦ inr (rw inside at h)
    | inr outside ↦ inl outside
  ]

  try_pool-some :
      (range : Range) (n : ℕ) (p p' : s.Pool) (x : s.Allocation)
      → Grants s
      → try_pool s os range n p ≡ some (x, p')
      → (is_pool_in_range s os range p ≡ true)
        × (s.alloc p n ≡ some (x, p'))
        × (range.start ≤ s.allocation_ptr x)
        × (s.allocation_ptr x + n ≤ range.stop)
  unfolding try_pool is_pool_in_range
  try_pool-some range n p p' x grants h = elim (Bool-cases (is_pool_in_range s os range p)) [
    | inr outside ↦ cc (rw outside at h)
    | inl inside ↦
        let given : s.alloc p n ≡ some (x, p') = rw inside at h in
        let (lo, hi, _, _) = grants p p' n x given in (inside, given, ground arith, ground arith)
  ]

  -- The first of the pools that can serve a request serves it, within the range, and the pool that
  -- has it given out takes its place.
  pub record IsServed (range : Range) (n : ℕ) (ps : List (s.Pool)) (x : s.Allocation)
      (ps' : List (s.Pool)) : Type 0 where
    pub before_it : List (s.Pool)
    pub behind_it : List (s.Pool)
    pub serving : s.Pool
    pub left : s.Pool
    pub stood : ps ≡ before_it ++ serving ∷ behind_it
    pub stands : ps' ≡ before_it ++ left ∷ behind_it
    pub unfit : All (Unfit range n) before_it
    pub in_range : is_pool_in_range s os range serving ≡ true
    pub granted : s.alloc serving n ≡ some (x, left)
    pub start_le : range.start ≤ s.allocation_ptr x
    pub end_le : s.allocation_ptr x + n ≤ range.stop

  later-IsServed :
      (range : Range) (n : ℕ) (p : s.Pool) (ps ps' : List (s.Pool)) (x : s.Allocation)
      → Unfit range n p
      → IsServed range n ps x ps'
      → IsServed range n (p ∷ ps) x (p ∷ ps')
  later-IsServed range n p ps ps' x cannot served = record {
    before_it = p ∷ served.before_it;
    behind_it = served.behind_it;
    serving = served.serving;
    left = served.left;
    stood = ap (λ qs. p ∷ qs) served.stood;
    stands = ap (λ qs. p ∷ qs) served.stands;
    unfit = (cannot, served.unfit);
    in_range = served.in_range;
    granted = served.granted;
    start_le = served.start_le;
    end_le = served.end_le;
  }

  -- Either no pool can serve the request, or the first that can does, within the range.
  pub allocate_memory-cases :
      (range : Range) (n : ℕ) (ps : List (s.Pool))
      → Grants s
      → ((allocate_memory s os range n ps ≡ none) × All (Unfit range n) ps)
        ⊎ ((x : s.Allocation) × (ps' : List (s.Pool)) × (allocate_memory s os range n ps
              ≡ some (x, ps'))
            × IsServed range n ps x ps')
  unfolding allocate_memory
  allocate_memory-cases range n [] grants = inl (refl, tt)
  allocate_memory-cases range n (p ∷ ps) grants = elim (Option-cases (try_pool s os range n p)) [
    | inr ((x, p'), e) ↦
        let (inside, given, lo, hi) = try_pool-some range n p p' x grants e in
        inr (
          x,
          p' ∷ ps,
          rw (e, allocate_memory),
          record {
            before_it = [];
            behind_it = ps;
            serving = p;
            left = p';
            stood = refl;
            stands = refl;
            unfit = tt;
            in_range = inside;
            granted = given;
            start_le = lo;
            end_le = hi;
          },
        )
    | inl e ↦ elim (allocate_memory-cases range n ps grants) [
      | inl (rest, unfit) ↦ inl (rw (e, rest, allocate_memory), (try_pool-none range n p e, unfit))
      | inr (x, ps', rest, served) ↦ inr (
        x,
        p ∷ ps',
        rw (e, rest, allocate_memory),
        later-IsServed range n p ps ps' x (try_pool-none range n p e) served,
      )
    ]
  ]

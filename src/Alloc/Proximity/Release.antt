-- ===== src/Alloc/Proximity/Release.antt =====
-- What `release` of src/alloc/proximity.rs keeps.
use detour_rs.Base.{
  ◌≡◌, ◌≢◌, sym, ap, ◌∙◌, inl, inr, false, List, [], ◌∷◌, All, Bool-cases, arith, ◌==◌,
}
use detour_rs.Error.{ok, >>=-eq-ok, ok-injective}
use detour_rs.Alloc.Proximity.{SlicePool, Os, ProximityAllocator, holds, release_from, release}

module _ (s : SlicePool) (os : Os (s.Pool)) where
  release_from-keeps :
      (value : s.Allocation) (ps ps' : List (s.Pool))
      → All (λ p. s.len p ≢ 1) ps
      → release_from s os value ps ≡ ok ps'
      → ps' ≡ ps
  unfolding release_from
  release_from-keeps value [] ps' long h = cc
  release_from-keeps value (p ∷ ps) ps' long h = elim (Bool-cases (holds s os value p)) [
    | inl here ↦
        let more : (s.len p == 1) ≡ false = ground (arith, long.0) in
        sym (ok-injective (rw (here, more) at h))
    | inr elsewhere ↦
        let (rest, found, done) = >>=-eq-ok (release_from s os value ps) _ (rw elsewhere at h) in
        sym (ok-injective done) ∙ ap (λ qs. p ∷ qs) (release_from-keeps value ps rest long.1 found)
  ]

  -- A release that succeeds keeps every pool, where no pool has exactly one byte: the memory of a
  -- longer pool is never given back to the system.
  pub release-keeps :
      (a a' : ProximityAllocator (s.Pool)) (value : s.Allocation)
      → All (λ p. s.len p ≢ 1) a.pools
      → release s os a value ≡ ok a'
      → a' ≡ a
  unfolding release
  release-keeps a a' value long h =
      let (rest, found, done) = >>=-eq-ok (release_from s os value a.pools) _ h in
      sym (ok-injective done)
      ∙ ap (λ ps. record a { pools = ps }) (release_from-keeps value a.pools rest long found)

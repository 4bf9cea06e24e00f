-- ===== src/Alloc/Os.antt =====
-- What src/alloc and src/util.rs ask of the operating system through the crate `region`: these
-- crates are not part of the repository, so their answers are parameters.
use detour_rs.Base.{ℕ, ◌≤◌, ◌<◌, ◌≡◌, Bool}
use detour_rs.Error.{Result, ok, err, RegionError, region_failure}

-- region::Region
pub record Region : Type 0 where
  pub lower : ℕ
  pub upper : ℕ
  pub is_executable : Bool

-- What `region::query` answers.
pub data Query : Type 0 where
  mapped : Region → Query
  failed : RegionError → Query

-- util::is_executable_address
unfoldable pub is_executable_address : (ℕ → Query) → ℕ → Result Bool
is_executable_address query address = elim (query address) [
  | mapped region ↦ ok region.is_executable
  | failed e ↦ err (region_failure e)
]

-- The documented behaviour of `region::query`: the region that it answers with holds the address.
abbrev pub Encloses : (ℕ → Query) → Type 0
Encloses query =
    (address : ℕ) (region : Region)
    → query address ≡ mapped region
    → (region.lower ≤ address) × (address < region.upper)

-- And every address of that region is answered with a region.
abbrev pub Filled : (ℕ → Query) → Type 0
Filled query =
    (address p : ℕ) (region : Region)
    → query address ≡ mapped region
    → region.lower ≤ p
    → p < region.upper
    → (r : Region) × (query p ≡ mapped r)

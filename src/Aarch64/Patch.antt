-- ===== src/Aarch64/Patch.antt =====
-- What src/arch/aarch64/patcher.rs promises of a patcher that could be made.
use detour_rs.Base.{ℕ, ◌≡◌, length}
use detour_rs.Base.Memory.{Memory}
use detour_rs.Base.Words.{length-le_bytes}
use detour_rs.Error.{ok}
use detour_rs.Arch.Patch.{Slice, Patcher, IsSized, IsOriginal}
use detour_rs.Arch.Patch.Made.{area-eq, make-Made}
use detour_rs.Aarch64.Patcher.{patch_area, branch_bytes, make}

patch_area-eq :
    (m : Memory) (target size : ℕ) (area : Slice)
    → patch_area m target size ≡ ok area
    → area ≡ record { as_ptr = target; len = 4 }
unfolding patch_area
patch_area-eq m target size area = area-eq _ _ _ area

length-branch_bytes : (from to : ℕ) → length (branch_bytes from to) ≡ 4
unfolding branch_bytes
length-branch_bytes from to = length-le_bytes 4 _

-- A patcher that could be made patches the four bytes at the target with a branch to the detour; both
-- of its prologs fill the area, which still holds the first of them.
pub make-IsSized :
    (m : Memory) (target detour size : ℕ) (p : Patcher)
    → make m target detour size ≡ ok p
    → (p.area ≡ record { as_ptr = target; len = 4 })
      × IsSized p
      × IsOriginal m p
      × (p.detour_prolog ≡ branch_bytes target detour)
unfolding make
make-IsSized m target detour size p =
    make-Made m target 4 (patch_area m target size) (λ from. branch_bytes from detour) p
      (patch_area-eq m target size) (length-branch_bytes target detour)

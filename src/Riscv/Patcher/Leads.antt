-- ===== src/Riscv/Patcher/Leads.antt =====
-- Where a target leads once the patch of src/arch/riscv/patcher.rs is switched on.
use detour_rs.Base.{ℕ, ◌≡◌, refl, length}
use detour_rs.Base.Memory.{Memory}
use detour_rs.Base.Words.{le_bytes}
use detour_rs.Error.{ok}
use detour_rs.Arch.Patch.{Patcher}
use detour_rs.Arch.Patch.Made.{Made, area-eq, make-Made}
use detour_rs.Riscv.Defs.{RvArch}
use detour_rs.Riscv.Patcher.{patch_area, branch_bytes, make}

length-branch_bytes : (a : RvArch) (from to : ℕ) → length (branch_bytes a from to) ≡ 8
unfolding branch_bytes le_bytes
length-branch_bytes a from to = refl

pub make-eight :
    (m : Memory) (a : RvArch) (target detour size : ℕ) (p : Patcher)
    → make m a target detour size ≡ ok p
    → Made m target 8 (branch_bytes a target detour) p
unfolding make patch_area
make-eight m a target detour size p =
    make-Made m target 8 (patch_area m target size) (λ from. branch_bytes a from detour) p
      (area-eq _ _ (record { as_ptr = target; len = 8 })) (length-branch_bytes a target detour)

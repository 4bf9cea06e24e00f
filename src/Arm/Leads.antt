-- ===== src/Arm/Leads.antt =====
-- Where a target leads once the patch of src/arch/arm/patcher.rs is switched on.
use detour_rs.Base.{ℕ, ◌+◌, ◌<◌, ◌≡◌, refl, true, some, List, ◌++◌, arith}
use detour_rs.Base.Memory.{Memory, Holds-behind, Holds-word_at}
use detour_rs.Base.Words.{le_bytes}
use detour_rs.Error.{ok}
use detour_rs.Arch.{arm, usize_mod}
use detour_rs.Arch.Patch.{Patcher, toggle}
use detour_rs.Arch.Patch.Made.{Made, area-eq, make-Made, toggle-Holds}
use detour_rs.Pic.{emit, emit_loop, add_thunk, new, generate, len}
use detour_rs.Arm.Machine.{load_target, literal}
use detour_rs.Arm.Thunk.{jmp_abs}
use detour_rs.Arm.Patcher.{make, patch_area, hook_bytes}

abbrev jump : ℕ → List ℕ
jump detour = le_bytes 4 0xE51F_F004 ++ le_bytes 4 detour

make-eight :
    (m : Memory) (target detour size : ℕ) (p : Patcher)
    → make m target detour size ≡ ok p
    → Made m target 8 (jump detour) p
unfolding make patch_area hook_bytes emit emit_loop add_thunk new generate len jmp_abs le_bytes
make-eight m target detour size p =
    make-Made m target 8 (patch_area m target size) (λ from. jump detour) p
      (area-eq _ _ (record { as_ptr = target; len = 8 })) refl

-- A patcher that is made and switched on leads from the target to the detour, an address, in one
-- instruction.
pub patch-leads :
    (m m' : Memory) (target detour size : ℕ) (p : Patcher)
    → make m target detour size ≡ ok p
    → toggle m p true ≡ ok m'
    → target + 8 < usize_mod arm
    → detour < usize_mod arm
    → load_target m' target ≡ some detour
unfolding le_bytes
patch-leads m m' target detour size p made on room hd =
    let held =
      toggle-Holds m m m' target 8 (jump detour) p (make-eight m target detour size p made) on in
    let (h1, h2) =
      Holds-behind m' target (target + 4) 4 0xE51F_F004 (le_bytes 4 detour) (omega arith) held in
    let w1 = Holds-word_at m' target 4 0xE51F_F004 (omega arith) h1 in
    let w2 = Holds-word_at m' (target + 4) 4 detour hd h2 in
    let place : literal target 0xE51F_F004 ≡ target + 4 = omega arith in rw (w1, place, w2) refl

-- ===== src/Arm/Tests.antt =====
-- Concrete runs of the theorems about src/arch/arm.
use detour_rs.Base.{ℕ, ◌≡◌, ◌≢◌, refl, true, some, List, [], ◌∷◌, arith}
use detour_rs.Base.Memory.{Memory, read, write}
use detour_rs.Base.Words.{le_bytes, from_le_bytes}
use detour_rs.Error.{ok}
use detour_rs.Arch.Fixed.{builder, verbatim}
use detour_rs.Arch.Patch.{Patcher, toggle, copy_from_slice}
use detour_rs.Pic.{emit, emit_loop, add_thunk, new, generate, len}
use detour_rs.Arm.Machine.{load_target, literal}
use detour_rs.Arm.Thunk.{jmp_abs}
use detour_rs.Arm.Patcher.{make, patch_area, is_code_padding, hook_bytes}
use detour_rs.Arm.Leads.{patch-leads}
use detour_rs.Arm.Trampoline.{process}
use detour_rs.Arm.Trampoline.Strays.{process-strays}

abbrev zeros : Memory
zeros p = 0

abbrev patch : List ℕ
patch = 0x04 ∷ 0xF0 ∷ 0x1F ∷ 0xE5 ∷ 0x00 ∷ 0x20 ∷ 0x00 ∷ 0x00 ∷ []

abbrev patcher : Patcher
patcher = record {
  area = record { as_ptr = 0x1000; len = 8 };
  original_prolog = 0 ∷ 0 ∷ 0 ∷ 0 ∷ 0 ∷ 0 ∷ 0 ∷ 0 ∷ [];
  detour_prolog = patch;
}

patcher_made : make zeros 0x1000 0x2000 4 ≡ ok patcher
unfolding make patch_area is_code_padding hook_bytes emit emit_loop add_thunk new generate len
    jmp_abs le_bytes read from_le_bytes
patcher_made = refl

patcher_on : toggle zeros patcher true ≡ ok (write zeros 0x1000 patch)
unfolding toggle copy_from_slice
patcher_on = refl

patch-leads_example : load_target (write zeros 0x1000 patch) 0x1000 ≡ some 0x2000
patch-leads_example =
    patch-leads zeros (write zeros 0x1000 patch) 0x1000 0x2000 4 patcher patcher_made patcher_on
      (omega arith) (omega arith)

-- LDR PC, [PC, #-4], the jump of the thunks itself.
process-strays_example :
    (process (builder 0x1000 8) 0xE51F_F004 0x1000 ≡ verbatim (builder 0x1000 8) 0xE51F_F004)
    × (literal 0x8000 0xE51F_F004 ≢ literal 0x1000 0xE51F_F004)
process-strays_example =
    process-strays 0xE51F_F004 (omega arith) refl (builder 0x1000 8) 0x1000 0x8000 (omega arith)
      (omega arith) (λ e. omega arith)

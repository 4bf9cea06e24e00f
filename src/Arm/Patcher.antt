-- ===== src/Arm/Patcher.antt =====
-- src/arch/arm/patcher.rs: a patch is an absolute jump of eight bytes. The switch between the bytes of
-- the function and the patch is in Arch/Patch.antt.
use detour_rs.Base.{ℕ, ◌+◌, ◌-◌, Bool, true, ◌&&◌, ◌||◌, List, [], ◌∷◌, leb, ◌==◌, if◌then◌else◌}
use detour_rs.Base.Memory.{Memory, read}
use detour_rs.Base.Words.{from_le_bytes}
use detour_rs.Error.{Result, ok, err, no_patch_area, ◌>>=◌}
use detour_rs.Arch.{arm}
use detour_rs.Arch.Patch.{Slice, Patcher}
use detour_rs.Pic.{new, add_thunk, emit}
use detour_rs.Arm.Thunk.{jmp_abs}

abbrev pub jump_size : ℕ
jump_size = 8

abbrev is_nop : List ℕ → Bool
is_nop chunk = let w = from_le_bytes chunk in w == 0xE320_F000 || w == 0xE1A0_0000 || w == 0

-- Chunks of four bytes are no-operations or zero, what is left over is zero.
unfoldable pub is_code_padding : List ℕ → Bool
unfolding from_le_bytes
is_code_padding [] = true
is_code_padding (a ∷ []) = a == 0
is_code_padding (a ∷ b ∷ []) = a == 0 && b == 0
is_code_padding (a ∷ b ∷ c ∷ []) = a == 0 && b == 0 && c == 0
is_code_padding (a ∷ b ∷ c ∷ d ∷ buf) = is_nop (a ∷ b ∷ c ∷ d ∷ []) && is_code_padding buf

unfoldable pub patch_area : Memory → (target prolog_size : ℕ) → Result Slice
unfolding is_code_padding
patch_area memory target prolog_size =
    if leb jump_size prolog_size
    then ok (record { as_ptr = target; len = jump_size })
    else if is_code_padding (read memory (target + prolog_size) (jump_size - prolog_size))
    then ok (record { as_ptr = target; len = jump_size })
    else err no_patch_area

unfoldable pub hook_bytes : (patch_address detour : ℕ) → Result (List ℕ)
hook_bytes patch_address detour = emit arm (add_thunk new (jmp_abs detour)) patch_address

unfoldable pub make : Memory → (target detour prolog_size : ℕ) → Result Patcher
unfolding patch_area hook_bytes
make memory target detour prolog_size = do
  area ← patch_area memory target prolog_size
  detour_prolog ← hook_bytes area.as_ptr detour
  ok (record {
    area = area;
    original_prolog = read memory area.as_ptr area.len;
    detour_prolog = detour_prolog;
  })

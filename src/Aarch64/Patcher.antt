-- ===== src/Aarch64/Patcher.antt =====
-- src/arch/aarch64/patcher.rs: a patch is one branch of four bytes. The switch between the bytes of
-- the function and the branch is in Arch/Patch.antt.
use detour_rs.Base.{
  ℕ, ◌+◌, ◌-◌, ◌/◌, ◌%◌, Bool, true, ◌&&◌, ◌||◌, List, [], ◌∷◌, leb, ◌==◌, if◌then◌else◌, bit_and,
  bit_or,
}
use detour_rs.Base.Memory.{Memory, read}
use detour_rs.Base.Words.{le_bytes, from_le_bytes, wrapping_sub, u32_mod}
use detour_rs.Error.{Result, ok, err, no_patch_area, ◌>>=◌}
use detour_rs.Arch.{aarch64, usize_mod}
use detour_rs.Arch.Patch.{Slice, Patcher}

abbrev pub jump_size : ℕ
jump_size = 4

abbrev is_nop : List ℕ → Bool
is_nop chunk = let w = from_le_bytes chunk in w == 0xD503_201F || w == 0

-- Chunks of four bytes are instructions or zero, what is left over is zero.
unfoldable pub is_code_padding : List ℕ → Bool
unfolding from_le_bytes
is_code_padding [] = true
is_code_padding (a ∷ []) = a == 0
is_code_padding (a ∷ b ∷ []) = a == 0 && b == 0
is_code_padding (a ∷ b ∷ c ∷ []) = a == 0 && b == 0 && c == 0
is_code_padding (a ∷ b ∷ c ∷ d ∷ buf) = is_nop (a ∷ b ∷ c ∷ d ∷ []) && is_code_padding buf

unfoldable pub patch_area : Memory → (target prolog_size : ℕ) → Result Slice
unfolding is_code_padding
patch_area memory target prolog_size =
    if leb jump_size prolog_size
    then ok (record { as_ptr = target; len = jump_size })
    else if is_code_padding (read memory (target + prolog_size) (jump_size - prolog_size))
    then ok (record { as_ptr = target; len = jump_size })
    else err no_patch_area

-- The low 26 bits of the displacement in words; an arithmetic shift and a logical one agree there.
unfoldable pub branch_bytes : ℕ → ℕ → List ℕ
branch_bytes from to =
    let displacement = wrapping_sub (usize_mod aarch64) to from in
    let imm26 = bit_and (displacement / 4 % u32_mod) 0x03FF_FFFF in
    le_bytes 4 (bit_or 0x1400_0000 imm26)

unfoldable pub make : Memory → (target detour prolog_size : ℕ) → Result Patcher
unfolding patch_area branch_bytes
make memory target detour prolog_size = do
  area ← patch_area memory target prolog_size
  ok (record {
    area = area;
    original_prolog = read memory area.as_ptr area.len;
    detour_prolog = branch_bytes area.as_ptr detour;
  })

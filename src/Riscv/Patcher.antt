-- ===== src/Riscv/Patcher.antt =====
-- src/arch/riscv/patcher.rs: a patch is AUIPC and JALR, eight bytes. The switch between the bytes of
-- the function and the patch is in Arch/Patch.antt.
pub mod Lands
pub mod Leads
use detour_rs.Base.{
  ℕ, ◌+◌, ◌-◌, ◌*◌, ◌/◌, ◌^◌, ◌%◌, Bool, true, false, ◌&&◌, ◌||◌, List, [], ◌∷◌, ◌++◌, leb, ltb,
  ◌==◌, if◌then◌else◌, bit_and, bit_or,
}
use detour_rs.Base.Memory.{Memory, read}
use detour_rs.Base.Words.{
  le_bytes, from_le_bytes, wrapping_add, wrapping_sub, u32_mod, shift_right_signed,
}
use detour_rs.Error.{Result, ok, err, no_patch_area, ◌>>=◌}
use detour_rs.Arch.Patch.{Slice, Patcher}
use detour_rs.Riscv.Defs.{RvArch, word_mod}

abbrev pub jump_size : ℕ
jump_size = 8

abbrev is_nop : List ℕ → Bool
is_nop chunk = let w = from_le_bytes chunk in w == 0x0000_0013 || w == 0

-- Chunks of four bytes are no-operations or zero, what is left over is zero.
unfoldable pub is_code_padding : List ℕ → Bool
unfolding from_le_bytes
is_code_padding [] = true
is_code_padding (a ∷ []) = a == 0
is_code_padding (a ∷ b ∷ []) = a == 0 && b == 0
is_code_padding (a ∷ b ∷ c ∷ []) = a == 0 && b == 0 && c == 0
is_code_padding (a ∷ b ∷ c ∷ d ∷ buf) = is_nop (a ∷ b ∷ c ∷ d ∷ []) && is_code_padding buf

unfoldable pub patch_area : Memory → (target prolog_size : ℕ) → Result Slice
unfolding is_code_padding
patch_area memory target prolog_size =
    if leb jump_size prolog_size
    then ok (record { as_ptr = target; len = jump_size })
    else if is_code_padding (read memory (target + prolog_size) (jump_size - prolog_size))
    then ok (record { as_ptr = target; len = jump_size })
    else err no_patch_area

-- The signed numbers of 32 bits are given by their patterns; `lo12` is within range by its making.
unfoldable pub branch_bytes : RvArch → (from to : ℕ) → List ℕ
branch_bytes a from to =
    let offset32 = wrapping_sub (word_mod a) to from % u32_mod in
    let hi20 = shift_right_signed u32_mod (wrapping_add u32_mod offset32 0x800) 12 in
    let lo12 = wrapping_sub u32_mod offset32 (hi20 * 2 ^ 12 % u32_mod) in
    let auipc = bit_or (bit_or (bit_and hi20 0x000F_FFFF * 2 ^ 12) (6 * 2 ^ 7)) 0x17 in
    let jalr = bit_or (bit_or (bit_and lo12 0x0000_0FFF * 2 ^ 20) (6 * 2 ^ 15)) 0x67 in
    le_bytes 4 auipc ++ le_bytes 4 jalr

unfoldable pub make : Memory → RvArch → (target detour prolog_size : ℕ) → Result Patcher
unfolding patch_area branch_bytes
make memory a target detour prolog_size = do
  area ← patch_area memory target prolog_size
  ok (record {
    area = area;
    original_prolog = read memory area.as_ptr area.len;
    detour_prolog = branch_bytes a area.as_ptr detour;
  })

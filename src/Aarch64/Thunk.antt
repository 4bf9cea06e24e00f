-- ===== src/Aarch64/Thunk.antt =====
-- src/arch/aarch64/thunk/mod.rs and meta.rs: the instructions that trampolines are made of, and the
-- relay. A condition or a literal load that reaches too far is replaced by longer code.
pub mod Runs
pub mod Jump
pub mod Far
use detour_rs.Base.{
  ℕ, ◌*◌, ◌/◌, ◌^◌, Bool, true, false, not, Option, none, some, List, ◌++◌, bit_and, bit_or, ◌==◌,
  if◌then◌else◌,
}
use detour_rs.Base.Words.{le_bytes, wrapping_sub}
use detour_rs.Arch.{aarch64, is_within_range, usize_mod}
use detour_rs.Pic.{CodeEmitter, Thunk, vec, new, add_thunk}

abbrev pub x16 : ℕ
x16 = 16

abbrev pub x17 : ℕ
x17 = 17

-- MOVZ, and MOVK for the three halves above.
unfoldable pub encode_mov_imm64 : ℕ → ℕ → List ℕ
encode_mov_imm64 reg value =
    let part = λ (n : ℕ). bit_and (value / 2 ^ n) 0xFFFF in
    let word = λ (base n : ℕ). le_bytes 4 (bit_or (bit_or base (part n * 32)) reg) in
    word 0xD280_0000 0 ++ word 0xF2A0_0000 16 ++ word 0xF2C0_0000 32 ++ word 0xF2E0_0000 48

-- LDR X16, #8; BR X16; .quad dest
abbrev pub jump_bytes : ℕ → List ℕ
jump_bytes dest = le_bytes 4 0x5800_0050 ++ le_bytes 4 0xD61F_0200 ++ le_bytes 8 dest

unfoldable pub jmp_abs : ℕ → Thunk
jmp_abs dest = vec (jump_bytes dest)

-- LDR X16, #8; BLR X16; .quad dest
unfoldable pub call_abs : ℕ → Thunk
call_abs dest = vec (le_bytes 4 0x5800_0050 ++ le_bytes 4 0xD63F_0200 ++ le_bytes 8 dest)

unfoldable pub mov_imm64 : (reg value : ℕ) → Thunk
unfolding encode_mov_imm64
mov_imm64 reg value = vec (encode_mov_imm64 reg value)

unfoldable pub nop : Thunk
nop = vec (le_bytes 4 0xD503_201F)

-- The opcode of the branch that skips the jump.
abbrev pub cbz_base : (negate sf_64 : Bool) → ℕ
cbz_base false true = 0xB500_0000
cbz_base false false = 0x3500_0000
cbz_base true true = 0xB400_0000
cbz_base true false = 0x3400_0000

unfoldable pub cbz_far : (reg : ℕ) → (sf_64 negate : Bool) → (dest : ℕ) → Thunk
cbz_far reg sf_64 negate dest =
    vec (le_bytes 4 (bit_or (bit_or (cbz_base negate sf_64) (5 * 32)) reg) ++ jump_bytes dest)

unfoldable pub tbz_far : (reg bit : ℕ) → (negate : Bool) → (dest : ℕ) → Thunk
tbz_far reg bit negate dest =
    let b5 = bit_and (bit / 32) 1 in
    let b40 = bit_and bit 31 in
    let opcode = if negate then 0x3600_0000 else 0x3700_0000 in
    let insn = bit_or (bit_or (bit_or (bit_or (b5 * 2 ^ 31) opcode) (b40 * 2 ^ 19)) (5 * 32)) reg in
    vec (le_bytes 4 insn ++ jump_bytes dest)

-- The address is loaded into X17, or into X16 where the destination is X17, and then the literal
-- from there.
abbrev load_literal : (opcode rt src_addr : ℕ) → Thunk
unfolding encode_mov_imm64
load_literal opcode rt src_addr =
    let addr_reg = if rt == x17 then x16 else x17 in
    vec
      (encode_mov_imm64 addr_reg src_addr ++ le_bytes 4 (bit_or (bit_or opcode (addr_reg * 32)) rt))

unfoldable pub ldr_literal_64 : (rt src_addr : ℕ) → Thunk
unfolding encode_mov_imm64
ldr_literal_64 rt src_addr = load_literal 0xF940_0000 rt src_addr

unfoldable pub ldr_literal_32 : (rt src_addr : ℕ) → Thunk
unfolding encode_mov_imm64
ldr_literal_32 rt src_addr = load_literal 0xB940_0000 rt src_addr

unfoldable pub ldrsw_literal : (rt src_addr : ℕ) → Thunk
unfolding encode_mov_imm64
ldrsw_literal rt src_addr = load_literal 0xB980_0000 rt src_addr

-- meta::prolog_margin
unfoldable pub prolog_margin : ℕ → ℕ
prolog_margin target = 4

-- meta::relay_builder; the result is never an error.
unfoldable pub relay_builder : (target detour : ℕ) → Option CodeEmitter
relay_builder target detour =
    let displacement = wrapping_sub (usize_mod aarch64) detour target in
    if not (is_within_range aarch64 displacement)
    then some (add_thunk new (jmp_abs detour))
    else none

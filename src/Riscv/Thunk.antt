-- ===== src/Riscv/Thunk.antt =====
-- src/arch/riscv/thunk/mod.rs and meta.rs: the code that stands for an instruction in a trampoline,
-- and the relay.
pub mod Encode
pub mod Runs
use detour_rs.Base.{
  ℕ, ◌+◌, ◌-◌, ◌*◌, ◌/◌, ◌^◌, ◌%◌, Bool, not, Option, none, some, List, [], ◌∷◌, ◌++◌, bit_and,
  bit_or, bit_xor, if◌then◌else◌,
}
use detour_rs.Base.Words.{le_bytes, wrapping_sub}
use detour_rs.Arch.{is_within_range}
use detour_rs.Pic.{CodeEmitter, Thunk, vec, new, add_thunk}
use detour_rs.Riscv.Defs.{RvArch, rv32, rv64, target_arch, word_mod, word_bytes}

unfoldable pub nop : Thunk
nop = vec (le_bytes 4 0x0000_0013)

-- The offset that a jump skips must be even, and fit in 21 bits.
unfoldable pub encode_j_type : (rd imm : ℕ) → ℕ
encode_j_type rd imm =
    bit_or
      (bit_or
        (bit_or
          (bit_or
            (bit_or (bit_and (imm / 2 ^ 20) 1 * 2 ^ 31) (bit_and (imm / 2 ^ 1) 0x3FF * 2 ^ 21))
            (bit_and (imm / 2 ^ 11) 1 * 2 ^ 20))
          (bit_and (imm / 2 ^ 12) 0xFF * 2 ^ 12))
        (rd * 2 ^ 7))
      0x6F

-- The offset of a branch must be even, and fit in 13 bits.
unfoldable pub encode_b_type : (funct3 rs1 rs2 imm : ℕ) → ℕ
encode_b_type funct3 rs1 rs2 imm =
    bit_or
      (bit_or
        (bit_or
          (bit_or
            (bit_or
              (bit_or
                (bit_or (bit_and (imm / 2 ^ 12) 1 * 2 ^ 31) (bit_and (imm / 2 ^ 5) 0x3F * 2 ^ 25))
                (rs2 * 2 ^ 20))
              (rs1 * 2 ^ 15))
            (funct3 * 2 ^ 12))
          (bit_and (imm / 2 ^ 1) 0xF * 2 ^ 8))
        (bit_and (imm / 2 ^ 11) 1 * 2 ^ 7))
      0x63

-- LD or LW, after the width of a register.
abbrev pub load_funct3 : RvArch → ℕ
load_funct3 rv32 = 2
load_funct3 rv64 = 3

abbrev t1 : ℕ
t1 = 6

-- AUIPC t1, 0; LD t1, 12(t1); JALR rd, t1, 0; the destination.
unfoldable pub jmp_abs_bytes : RvArch → (rd dest : ℕ) → List ℕ
jmp_abs_bytes a rd dest =
    let auipc = bit_or (t1 * 2 ^ 7) 0x17 in
    let load =
      bit_or
        (bit_or (bit_or (bit_or (12 * 2 ^ 20) (t1 * 2 ^ 15)) (load_funct3 a * 2 ^ 12)) (t1 * 2 ^ 7))
        0x03 in
    let jalr = bit_or (bit_or (t1 * 2 ^ 15) (rd * 2 ^ 7)) 0x67 in
    le_bytes 4 auipc ++ le_bytes 4 load ++ le_bytes 4 jalr ++ le_bytes (word_bytes a) dest

unfoldable pub jmp_abs_rd : RvArch → (rd dest : ℕ) → Thunk
unfolding jmp_abs_bytes
jmp_abs_rd a rd dest = vec (jmp_abs_bytes a rd dest)

unfoldable pub jmp_abs : RvArch → ℕ → Thunk
unfolding jmp_abs_rd
jmp_abs a dest = jmp_abs_rd a 0 dest

unfoldable pub call_abs : RvArch → ℕ → Thunk
unfolding jmp_abs_rd
call_abs a dest = jmp_abs_rd a 1 dest

unfoldable pub call_abs_rd : RvArch → (rd dest : ℕ) → Thunk
unfolding jmp_abs_rd
call_abs_rd a rd dest = jmp_abs_rd a rd dest

-- JAL rd over the literal, which leaves its address in rd, and a load from there.
abbrev pub literal_skip : RvArch → ℕ
literal_skip rv32 = 8
literal_skip rv64 = 12

unfoldable pub li_abs : RvArch → (rd value : ℕ) → Thunk
unfolding encode_j_type
li_abs a rd value =
    let jal = encode_j_type rd (literal_skip a) in
    let load = bit_or (bit_or (bit_or (rd * 2 ^ 15) (load_funct3 a * 2 ^ 12)) (rd * 2 ^ 7)) 0x03 in
    vec (le_bytes 4 jal ++ le_bytes (word_bytes a) value ++ le_bytes 4 load)

abbrev pub jmp_size : RvArch → ℕ
jmp_size rv32 = 16
jmp_size rv64 = 20

-- The inverted branch skips an absolute jump.
unfoldable pub branch_far : RvArch → (instr dest : ℕ) → Thunk
unfolding encode_b_type jmp_abs_bytes
branch_far a instr dest =
    let rs1 = bit_and (instr / 2 ^ 15) 0x1F in
    let rs2 = bit_and (instr / 2 ^ 20) 0x1F in
    let funct3 = bit_xor (bit_and (instr / 2 ^ 12) 0x7) 1 in
    let branch_skip = encode_b_type funct3 rs1 rs2 (4 + jmp_size a) in
    vec (le_bytes 4 branch_skip ++ jmp_abs_bytes a 0 dest)

-- meta::prolog_margin
unfoldable pub prolog_margin : ℕ → ℕ
prolog_margin target = 8

-- meta::relay_builder; the result is never an error.
unfoldable pub relay_builder : RvArch → (target detour : ℕ) → Option CodeEmitter
unfolding jmp_abs
relay_builder a target detour =
    let displacement = wrapping_sub (word_mod a) detour target in
    if not (is_within_range (target_arch a) displacement)
    then some (add_thunk new (jmp_abs a detour))
    else none

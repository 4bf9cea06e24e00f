-- ===== src/Riscv/Thunk/Encode.antt =====
-- The jumps and branches that src/arch/riscv/thunk/mod.rs encodes and src/arch/riscv/trampoline/mod.rs
-- decodes, as sums of their fields.
use detour_rs.Base.{ℕ, ◌+◌, ◌*◌, ◌/◌, ◌^◌, ◌%◌, ◌<◌, ◌≡◌, arith}
use detour_rs.Base.Fields.{bit_or-sum, bit_and-mask}
use detour_rs.Riscv.Thunk.{encode_j_type, encode_b_type}

pub encode_j_type-sum :
    (rd imm : ℕ)
    → rd < 32
    → encode_j_type rd imm
      ≡ imm / 2 ^ 20 % 2 * 2 ^ 31
        + imm / 2 % 2 ^ 10 * 2 ^ 21
        + imm / 2 ^ 11 % 2 * 2 ^ 20
        + imm / 2 ^ 12 % 2 ^ 8 * 2 ^ 12
        + rd * 2 ^ 7
        + 0x6F
unfolding encode_j_type
encode_j_type-sum rd imm h =
    let s1 = imm / 2 ^ 20 % 2 * 2 ^ 31 in
    let s2 = s1 + imm / 2 % 2 ^ 10 * 2 ^ 21 in
    let s3 = s2 + imm / 2 ^ 11 % 2 * 2 ^ 20 in
    let s4 = s3 + imm / 2 ^ 12 % 2 ^ 8 * 2 ^ 12 in
    let s5 = s4 + rd * 2 ^ 7 in
    let e1 = bit_or-sum 31 s1 (imm / 2 % 2 ^ 10 * 2 ^ 21) (omega arith) (omega arith) in
    let e2 = bit_or-sum 21 s2 (imm / 2 ^ 11 % 2 * 2 ^ 20) (omega arith) (omega arith) in
    let e3 = bit_or-sum 20 s3 (imm / 2 ^ 12 % 2 ^ 8 * 2 ^ 12) (omega arith) (omega arith) in
    let e4 = bit_or-sum 12 s4 (rd * 2 ^ 7) (omega arith) (omega arith) in
    let e5 = bit_or-sum 7 s5 0x6F (omega arith) (omega arith) in
    rw (
      bit_and-mask 1 (imm / 2 ^ 20),
      bit_and-mask 10 (imm / 2 ^ 1),
      bit_and-mask 1 (imm / 2 ^ 11),
      bit_and-mask 8 (imm / 2 ^ 12),
      e1,
      e2,
      e3,
      e4,
      e5,
    )

pub encode_b_type-sum :
    (funct3 rs1 rs2 imm : ℕ)
    → funct3 < 8
    → rs1 < 32
    → rs2 < 32
    → encode_b_type funct3 rs1 rs2 imm
      ≡ imm / 2 ^ 12 % 2 * 2 ^ 31
        + imm / 2 ^ 5 % 2 ^ 6 * 2 ^ 25
        + rs2 * 2 ^ 20
        + rs1 * 2 ^ 15
        + funct3 * 2 ^ 12
        + imm / 2 % 2 ^ 4 * 2 ^ 8
        + imm / 2 ^ 11 % 2 * 2 ^ 7
        + 0x63
unfolding encode_b_type
encode_b_type-sum funct3 rs1 rs2 imm h1 h2 h3 =
    let s1 = imm / 2 ^ 12 % 2 * 2 ^ 31 in
    let s2 = s1 + imm / 2 ^ 5 % 2 ^ 6 * 2 ^ 25 in
    let s3 = s2 + rs2 * 2 ^ 20 in
    let s4 = s3 + rs1 * 2 ^ 15 in
    let s5 = s4 + funct3 * 2 ^ 12 in
    let s6 = s5 + imm / 2 % 2 ^ 4 * 2 ^ 8 in
    let s7 = s6 + imm / 2 ^ 11 % 2 * 2 ^ 7 in
    let e1 = bit_or-sum 31 s1 (imm / 2 ^ 5 % 2 ^ 6 * 2 ^ 25) (omega arith) (omega arith) in
    let e2 = bit_or-sum 25 s2 (rs2 * 2 ^ 20) (omega arith) (omega arith) in
    let e3 = bit_or-sum 20 s3 (rs1 * 2 ^ 15) (omega arith) (omega arith) in
    let e4 = bit_or-sum 15 s4 (funct3 * 2 ^ 12) (omega arith) (omega arith) in
    let e5 = bit_or-sum 12 s5 (imm / 2 % 2 ^ 4 * 2 ^ 8) (omega arith) (omega arith) in
    let e6 = bit_or-sum 8 s6 (imm / 2 ^ 11 % 2 * 2 ^ 7) (omega arith) (omega arith) in
    let e7 = bit_or-sum 7 s7 0x63 (omega arith) (omega arith) in
    rw (
      bit_and-mask 1 (imm / 2 ^ 12),
      bit_and-mask 6 (imm / 2 ^ 5),
      bit_and-mask 4 (imm / 2 ^ 1),
      bit_and-mask 1 (imm / 2 ^ 11),
      e1,
      e2,
      e3,
      e4,
      e5,
      e6,
      e7,
    )

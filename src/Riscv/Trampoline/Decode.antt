-- ===== src/Riscv/Trampoline/Decode.antt =====
-- The decoders of src/arch/riscv/trampoline/mod.rs against the manual's fields, and against the
-- encoders of src/arch/riscv/thunk/mod.rs.
use detour_rs.Base.{
  ℕ, ◌+◌, ◌-◌, ◌*◌, ◌/◌, ◌^◌, ◌%◌, ◌≤◌, ◌<◌, ◌≡◌, refl, ap, ◌∙◌, ◌⊎◌, inl, inr, arith,
}
use detour_rs.Base.Fields.{bit_or-sum, bit_and-mask}
use detour_rs.Base.Words.{u32_mod, widen_signed, shift_right_signed}
use detour_rs.Riscv.Defs.{RvArch, rv32, rv64, word_mod}
use detour_rs.Riscv.Thunk.{encode_j_type, encode_b_type}
use detour_rs.Riscv.Thunk.Encode.{encode_j_type-sum, encode_b_type-sum}
use detour_rs.Riscv.Trampoline.{decode_j_type, decode_b_type}
use detour_rs.Riscv.Machine.{j_imm, b_imm, bits}

-- The fields of the immediates, put together.
abbrev j_fields : ℕ → ℕ
j_fields w = bits 31 1 w * 2 ^ 20 + bits 12 8 w * 2 ^ 12 + bits 20 1 w * 2 ^ 11 + bits 21 10 w * 2

abbrev b_fields : ℕ → ℕ
b_fields w = bits 31 1 w * 2 ^ 12 + bits 7 1 w * 2 ^ 11 + bits 25 6 w * 2 ^ 5 + bits 8 4 w * 2

decode_j_type-fields :
    (w : ℕ) → decode_j_type w ≡ shift_right_signed u32_mod (j_fields w * 2 ^ 11 % u32_mod) 11
unfolding decode_j_type
decode_j_type-fields w =
    let s1 = bits 31 1 w * 2 ^ 20 in
    let s2 = s1 + bits 12 8 w * 2 ^ 12 in
    let s3 = s2 + bits 20 1 w * 2 ^ 11 in
    let e1 = bit_or-sum 20 s1 (bits 12 8 w * 2 ^ 12) (omega arith) (omega arith) in
    let e2 = bit_or-sum 12 s2 (bits 20 1 w * 2 ^ 11) (omega arith) (omega arith) in
    let e3 = bit_or-sum 11 s3 (bits 21 10 w * 2) (omega arith) (omega arith) in
    rw (
      bit_and-mask 1 (w / 2 ^ 31),
      bit_and-mask 10 (w / 2 ^ 21),
      bit_and-mask 1 (w / 2 ^ 20),
      bit_and-mask 8 (w / 2 ^ 12),
      e1,
      e2,
      e3,
    )

decode_b_type-fields :
    (w : ℕ) → decode_b_type w ≡ shift_right_signed u32_mod (b_fields w * 2 ^ 19 % u32_mod) 19
unfolding decode_b_type
decode_b_type-fields w =
    let s1 = bits 31 1 w * 2 ^ 12 in
    let s2 = s1 + bits 7 1 w * 2 ^ 11 in
    let s3 = s2 + bits 25 6 w * 2 ^ 5 in
    let e1 = bit_or-sum 12 s1 (bits 7 1 w * 2 ^ 11) (omega arith) (omega arith) in
    let e2 = bit_or-sum 11 s2 (bits 25 6 w * 2 ^ 5) (omega arith) (omega arith) in
    let e3 = bit_or-sum 5 s3 (bits 8 4 w * 2) (omega arith) (omega arith) in
    rw (
      bit_and-mask 1 (w / 2 ^ 31),
      bit_and-mask 6 (w / 2 ^ 25),
      bit_and-mask 4 (w / 2 ^ 8),
      bit_and-mask 1 (w / 2 ^ 7),
      e1,
      e2,
      e3,
    )

widened_21 :
    (a : RvArch) (x : ℕ)
    → x < 2 ^ 21
    → widen_signed u32_mod (word_mod a) (shift_right_signed u32_mod (x * 2 ^ 11 % u32_mod) 11)
      ≡ widen_signed 0x20_0000 (word_mod a) x
widened_21 rv32 x h = ground arith
widened_21 rv64 x h = ground arith

widened_13 :
    (a : RvArch) (x : ℕ)
    → x < 2 ^ 13
    → widen_signed u32_mod (word_mod a) (shift_right_signed u32_mod (x * 2 ^ 19 % u32_mod) 19)
      ≡ widen_signed 0x2000 (word_mod a) x
widened_13 rv32 x h = ground arith
widened_13 rv64 x h = ground arith

-- The offsets that are decoded of any word are the immediates that the instruction set manual gives
-- JAL and the branches, on both widths.
pub decode-imm :
    (a : RvArch) (w : ℕ)
    → (widen_signed u32_mod (word_mod a) (decode_j_type w) ≡ j_imm a w)
      × (widen_signed u32_mod (word_mod a) (decode_b_type w) ≡ b_imm a w)
decode-imm a w = (
  ap (widen_signed u32_mod (word_mod a)) (decode_j_type-fields w)
      ∙ widened_21 a (j_fields w) (omega arith),
  ap (widen_signed u32_mod (word_mod a)) (decode_b_type-fields w)
      ∙ widened_13 a (b_fields w) (omega arith),
)

-- The fields of a jump that is encoded.
pub j_word :
    (rd imm w : ℕ)
    → rd < 32
    → encode_j_type rd imm ≡ w
    → (w < u32_mod) × (bits 0 7 w ≡ 0x6F) × (bits 7 5 w ≡ rd) × (j_fields w ≡ imm / 2 % 2 ^ 20 * 2)
j_word rd imm w h e =
    let sum = encode_j_type-sum rd imm h in (omega arith, omega arith, omega arith, omega arith)

pub b_word :
    (funct3 rs1 rs2 imm w : ℕ)
    → funct3 < 8
    → rs1 < 32
    → rs2 < 32
    → encode_b_type funct3 rs1 rs2 imm ≡ w
    → (w < u32_mod)
      × (bits 0 7 w ≡ 0x63)
      × (bits 12 3 w ≡ funct3)
      × (bits 15 5 w ≡ rs1)
      × (bits 20 5 w ≡ rs2)
      × (b_fields w ≡ imm / 2 % 2 ^ 12 * 2)
b_word funct3 rs1 rs2 imm w h1 h2 h3 e =
    let sum = encode_b_type-sum funct3 rs1 rs2 imm h1 h2 h3 in
    (omega arith, omega arith, omega arith, omega arith, omega arith, omega arith)

-- An even offset of `n` bits, as a signed number of 32 bits.
abbrev pub Fits : (half imm : ℕ) → Type 0
Fits half imm = (imm % 2 ≡ 0) × (imm < u32_mod) × ((imm < half) ⊎ (u32_mod - half ≤ imm))

shifted_21 :
    (imm : ℕ)
    → Fits 0x10_0000 imm
    → shift_right_signed u32_mod (imm / 2 % 2 ^ 20 * 2 * 2 ^ 11 % u32_mod) 11 ≡ imm
shifted_21 imm (even, lt, inl low) = ground arith
shifted_21 imm (even, lt, inr high) = ground arith

shifted_13 :
    (imm : ℕ)
    → Fits 0x1000 imm
    → shift_right_signed u32_mod (imm / 2 % 2 ^ 12 * 2 * 2 ^ 19 % u32_mod) 19 ≡ imm
shifted_13 imm (even, lt, inl low) = ground arith
shifted_13 imm (even, lt, inr high) = ground arith

pub decode-encode_j_type :
    (rd imm : ℕ) → rd < 32 → Fits 0x10_0000 imm → decode_j_type (encode_j_type rd imm) ≡ imm
decode-encode_j_type rd imm h fits =
    let (lt, opcode, r, fields) = j_word rd imm (encode_j_type rd imm) h refl in
    decode_j_type-fields (encode_j_type rd imm) ∙ rw fields (shifted_21 imm fits)

pub decode-encode_b_type :
    (funct3 rs1 rs2 imm : ℕ)
    → funct3 < 8
    → rs1 < 32
    → rs2 < 32
    → Fits 0x1000 imm
    → decode_b_type (encode_b_type funct3 rs1 rs2 imm) ≡ imm
decode-encode_b_type funct3 rs1 rs2 imm h1 h2 h3 fits =
    let w = encode_b_type funct3 rs1 rs2 imm in
    let (lt, opcode, f, r1, r2, fields) = b_word funct3 rs1 rs2 imm w h1 h2 h3 refl in
    decode_b_type-fields w ∙ rw fields (shifted_13 imm fits)

-- An even offset that the encoding of a jump (of 21 bits) or of a branch (of 13 bits) can hold is
-- decoded again from the encoded instruction, whatever its registers and its condition are.
pub decode-encode :
    (rd imm funct3 rs1 rs2 imm' : ℕ)
    → rd < 32
    → Fits 0x10_0000 imm
    → funct3 < 8
    → rs1 < 32
    → rs2 < 32
    → Fits 0x1000 imm'
    → (decode_j_type (encode_j_type rd imm) ≡ imm)
      × (decode_b_type (encode_b_type funct3 rs1 rs2 imm') ≡ imm')
decode-encode rd imm funct3 rs1 rs2 imm' h0 fits h1 h2 h3 fits' =
    (decode-encode_j_type rd imm h0 fits, decode-encode_b_type funct3 rs1 rs2 imm' h1 h2 h3 fits')

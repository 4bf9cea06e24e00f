-- ===== src/Aarch64/Trampoline/Fields.antt =====
-- What the processor makes of the words that `process` of src/arch/aarch64/trampoline/mod.rs tests for.
use detour_rs.Base.{
  ℕ, ◌+◌, ◌*◌, ◌/◌, ◌^◌, ◌%◌, ◌<◌, ◌≡◌, refl, ◌∙◌, true, false, not, ◌==◌, some, none, bit_and,
  bit_or, inl, inr, Bool-cases, arith,
}
use detour_rs.Base.Bits.{bit_and-0x9f}
use detour_rs.Base.Fields.{bit_or-sum, bit_and-mask, bit_and-high}
use detour_rs.Aarch64.Machine.{instruction, branch, cbz, tbz, adr, adrp, bits, offset_of, adr_bits}
use detour_rs.Aarch64.Thunk.Far.{bit_of}
use detour_rs.Aarch64.Trampoline.Emitted.{IsB, IsBl, IsCbz, IsTbz, IsAdr, IsAdrp}

tested : (x y : ℕ) → (x == y) ≡ true → x ≡ y
tested x y h = ground arith

-- The opcodes, as fields.
top_6 : (w k : ℕ) → (bit_and w 0xFC00_0000 == k * 2 ^ 26) ≡ true → bits 26 6 w ≡ k
top_6 w k h =
    let e = tested (bit_and w 0xFC00_0000) (k * 2 ^ 26) h in
    omega (arith, bit_and-high 26 w 0x3F, bit_and-mask 6 (w / 2 ^ 26))

next_6 : (w k : ℕ) → (bit_and w 0x7E00_0000 == k * 2 ^ 25) ≡ true → bits 25 6 w ≡ k
next_6 w k h =
    let e = tested (bit_and w 0x7E00_0000) (k * 2 ^ 25) h in
    omega (arith, bit_and-high 25 w 0x3F, bit_and-mask 6 (w / 2 ^ 25))

around_5 :
    (w k : ℕ)
    → w < 2 ^ 32
    → k < 2
    → (bit_and w 0x9F00_0000 == (k * 128 + 0x10) * 2 ^ 24) ≡ true
    → (bits 24 5 w ≡ 0x10) × (bits 31 1 w ≡ k)
around_5 w k lt hk h =
    let e = tested (bit_and w 0x9F00_0000) ((k * 128 + 0x10) * 2 ^ 24) h in
    let f = bit_and-high 24 w 0x9F in
    let g = bit_and-0x9f (w / 2 ^ 24) (omega arith) in (omega arith, omega arith)

pub IsB-instruction :
    (w : ℕ) → IsB w → instruction w ≡ some (branch (offset_of 0x400_0000 4 (bits 0 26 w)))
unfolding instruction
IsB-instruction w h = let o = top_6 w 5 h in rw o refl

pub IsBl-instruction : (w : ℕ) → IsBl w → instruction w ≡ none
unfolding instruction
IsBl-instruction w h =
    let o = top_6 w 0x25 h in
    let n1 : (bits 25 6 w == 0x1A) ≡ false = ground arith in
    let n2 : (bits 25 6 w == 0x1B) ≡ false = ground arith in
    let n3 : (bits 24 5 w == 0x10) ≡ false = ground arith in
    let n4 : (bits 23 9 w == 0x1A5) ≡ false = ground arith in
    let n5 : (bits 23 9 w == 0x1E5) ≡ false = ground arith in
    let n6 : (bits 24 8 w == 0x58) ≡ false = ground arith in
    let n7 : (bits 10 22 w == 0x35_87C0) ≡ false = ground arith in
    rw (o, n1, n2, n3, n4, n5, n6, n7) refl

pub IsCbz-instruction :
    (w : ℕ)
    → IsCbz w
    → instruction w
      ≡ some (cbz (bits 31 1 w) (bits 24 1 w) (bits 0 5 w) (offset_of 0x8_0000 4 (bits 5 19 w)))
unfolding instruction
IsCbz-instruction w h =
    let o = next_6 w 0x1A h in let n1 : (bits 26 6 w == 5) ≡ false = ground arith in rw (n1, o) refl

pub IsTbz-instruction :
    (w : ℕ)
    → IsTbz w
    → instruction w
      ≡ some (
          tbz
            (bits 31 1 w * 32 + bits 19 5 w)
            (bits 24 1 w)
            (bits 0 5 w)
            (offset_of 0x4000 4 (bits 5 14 w)))
unfolding instruction
IsTbz-instruction w h =
    let o = next_6 w 0x1B h in let n1 : (bits 26 6 w == 5) ≡ false = ground arith in rw (n1, o) refl

pub IsAdr-instruction :
    (w : ℕ)
    → w < 2 ^ 32
    → IsAdr w
    → instruction w ≡ some (adr (bits 0 5 w) (offset_of 0x20_0000 1 (adr_bits w)))
unfolding instruction
IsAdr-instruction w lt h =
    let (o, s) = around_5 w 0 lt (omega arith) h in
    let n1 : (bits 26 6 w == 5) ≡ false = ground arith in
    let n2 : (bits 25 6 w == 0x1A) ≡ false = ground arith in
    let n3 : (bits 25 6 w == 0x1B) ≡ false = ground arith in rw (n1, n2, n3, o, s) refl

pub IsAdrp-instruction :
    (w : ℕ)
    → w < 2 ^ 32
    → IsAdrp w
    → instruction w ≡ some (adrp (bits 0 5 w) (offset_of 0x20_0000 0x1000 (adr_bits w)))
unfolding instruction
IsAdrp-instruction w lt h =
    let (o, s) = around_5 w 1 lt (omega arith) h in
    let n1 : (bits 26 6 w == 5) ≡ false = ground arith in
    let n2 : (bits 25 6 w == 0x1A) ≡ false = ground arith in
    let n3 : (bits 25 6 w == 0x1B) ≡ false = ground arith in rw (n1, n2, n3, o, s) refl

-- The operands of a conditional branch, as the code reads them.
pub rt-is : (w : ℕ) → bit_and (w % 256) 0x1F ≡ bits 0 5 w
rt-is w = bit_and-mask 5 (w % 256) ∙ omega arith

pub rd-is : (w : ℕ) → bit_and w 0x1F ≡ bits 0 5 w
rd-is w = bit_and-mask 5 w ∙ omega arith

pub sf-is : (w : ℕ) → w < 2 ^ 32 → bit_of (not (w / 2 ^ 31 == 0)) ≡ bits 31 1 w
sf-is w lt = elim (Bool-cases (w / 2 ^ 31 == 0)) [
  | inl zeroed ↦ rw zeroed (ground arith)
  | inr other ↦ rw other (ground arith)
]

pub negate-is : (w : ℕ) → bit_of (not (bit_and w 0x0100_0000 == 0)) ≡ bits 24 1 w
negate-is w =
    let e = bit_and-high 24 w 1 in
    let f = bit_and-mask 1 (w / 2 ^ 24) in
    elim (Bool-cases (bit_and w 0x0100_0000 == 0)) [
      | inl zeroed ↦ rw zeroed (ground arith)
      | inr other ↦ rw other (ground arith)
    ]

pub bit-is :
    (w : ℕ)
    → bit_or (bit_and (w / 2 ^ 31) 1 * 2 ^ 5) (bit_and (w / 2 ^ 19) 0x1F) % 256
      ≡ bits 31 1 w * 32 + bits 19 5 w
bit-is w =
    let e = bit_or-sum 5 (bits 31 1 w * 2 ^ 5) (bits 19 5 w) (omega arith) (omega arith) in
    rw (bit_and-mask 1 (w / 2 ^ 31), bit_and-mask 5 (w / 2 ^ 19), e) (omega arith)

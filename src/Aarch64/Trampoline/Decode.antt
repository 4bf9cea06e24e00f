-- ===== src/Aarch64/Trampoline/Decode.antt =====
-- The offsets that src/arch/aarch64/trampoline/mod.rs decodes, against the fields of the manual.
use detour_rs.Base.{ℕ, ◌*◌, ◌/◌, ◌^◌, ◌%◌, ◌<◌, ◌≡◌, ap, ◌∙◌, arith}
use detour_rs.Base.Fields.{bit_or-sum, bit_and-mask}
use detour_rs.Base.Words.{wrapping_add}
use detour_rs.Arch.{aarch64, usize_mod}
use detour_rs.Aarch64.Machine.{bits, offset_of, adr_bits}
use detour_rs.Aarch64.Trampoline.{sign_extend, adr_imm21}
use detour_rs.Aarch64.Trampoline.Emitted.{dest_26, dest_19, dest_14}

extended_26 :
    (v : ℕ) → v < 2 ^ 26 → sign_extend v 26 * 2 ^ 2 % usize_mod aarch64 ≡ offset_of 0x400_0000 4 v
unfolding sign_extend
extended_26 v h = ground arith

extended_19 :
    (v : ℕ) → v < 2 ^ 19 → sign_extend v 19 * 2 ^ 2 % usize_mod aarch64 ≡ offset_of 0x8_0000 4 v
unfolding sign_extend
extended_19 v h = ground arith

extended_14 :
    (v : ℕ) → v < 2 ^ 14 → sign_extend v 14 * 2 ^ 2 % usize_mod aarch64 ≡ offset_of 0x4000 4 v
unfolding sign_extend
extended_14 v h = ground arith

extended_21 : (v : ℕ) → v < 2 ^ 21 → sign_extend v 21 ≡ offset_of 0x20_0000 1 v
unfolding sign_extend
extended_21 v h = ground arith

extended_page :
    (v : ℕ)
    → v < 2 ^ 21
    → sign_extend v 21 * 2 ^ 12 % usize_mod aarch64 ≡ offset_of 0x20_0000 0x1000 v
unfolding sign_extend
extended_page v h = ground arith

-- The destinations are those of the manual's offsets.
pub dest_26-is :
    (w pc : ℕ)
    → dest_26 w pc ≡ wrapping_add (usize_mod aarch64) pc (offset_of 0x400_0000 4 (bits 0 26 w))
dest_26-is w pc =
    ap (λ x. wrapping_add (usize_mod aarch64) pc (sign_extend x 26 * 2 ^ 2 % usize_mod aarch64))
      (bit_and-mask 26 w ∙ omega arith)
    ∙ ap (wrapping_add (usize_mod aarch64) pc) (extended_26 (bits 0 26 w) (omega arith))

pub dest_19-is :
    (w pc : ℕ)
    → dest_19 w pc ≡ wrapping_add (usize_mod aarch64) pc (offset_of 0x8_0000 4 (bits 5 19 w))
dest_19-is w pc =
    ap (λ x. wrapping_add (usize_mod aarch64) pc (sign_extend x 19 * 2 ^ 2 % usize_mod aarch64))
      (bit_and-mask 19 (w / 2 ^ 5))
    ∙ ap (wrapping_add (usize_mod aarch64) pc) (extended_19 (bits 5 19 w) (omega arith))

pub dest_14-is :
    (w pc : ℕ)
    → dest_14 w pc ≡ wrapping_add (usize_mod aarch64) pc (offset_of 0x4000 4 (bits 5 14 w))
dest_14-is w pc =
    ap (λ x. wrapping_add (usize_mod aarch64) pc (sign_extend x 14 * 2 ^ 2 % usize_mod aarch64))
      (bit_and-mask 14 (w / 2 ^ 5))
    ∙ ap (wrapping_add (usize_mod aarch64) pc) (extended_14 (bits 5 14 w) (omega arith))

adr_imm21-bits : (w : ℕ) → adr_imm21 w ≡ sign_extend (adr_bits w) 21
unfolding adr_imm21
adr_imm21-bits w =
    let e = bit_or-sum 2 (bits 5 19 w * 4) (bits 29 2 w) (omega arith) (omega arith) in
    rw (bit_and-mask 2 (w / 2 ^ 29), bit_and-mask 19 (w / 2 ^ 5), e)

pub adr_imm21-is : (w : ℕ) → adr_imm21 w ≡ offset_of 0x20_0000 1 (adr_bits w)
adr_imm21-is w = adr_imm21-bits w ∙ extended_21 (adr_bits w) (omega arith)

pub adr_page-is :
    (w : ℕ) → adr_imm21 w * 2 ^ 12 % usize_mod aarch64 ≡ offset_of 0x20_0000 0x1000 (adr_bits w)
adr_page-is w =
    ap (λ x. x * 2 ^ 12 % usize_mod aarch64) (adr_imm21-bits w)
    ∙ extended_page (adr_bits w) (omega arith)

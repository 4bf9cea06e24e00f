-- ===== src/Arm/Trampoline/Strays.antt =====
-- What becomes of a jump through a literal in `process` of src/arch/arm/trampoline/mod.rs.
use detour_rs.Base.{
  ℕ, ◌+◌, ◌/◌, ◌^◌, ◌%◌, ◌<◌, ◌≡◌, refl, sym, ap, ◌∙◌, ◌≢◌, ◌⊎◌, inl, inr, true, false, ◌==◌,
  bit_and, Bool-cases, arith,
}
use detour_rs.Base.Fields.{bit_and-mask, bit_and-div}
use detour_rs.Base.Words.{wrapping_add, wrapping_sub, u32_mod}
use detour_rs.Arch.{arm, usize_mod}
use detour_rs.Arch.Fixed.{Builder, verbatim}
use detour_rs.Arm.Machine.{bits, loads_pc, literal}
use detour_rs.Arm.Trampoline.{process, is_return, reads_pc}

-- The fields of such an instruction.
fields :
    (w : ℕ)
    → loads_pc w ≡ true
    → ((bits 16 12 w ≡ 0x51F) ⊎ (bits 16 12 w ≡ 0x59F)) × (bits 12 4 w ≡ 15) × (bits 28 4 w ≢ 15)
fields w h = ground arith

-- A test of masked bits fails where it fails on the high ones.
high_differ :
    (k a m v x : ℕ)
    → bit_and (a / 2 ^ k) (m / 2 ^ k) ≡ x
    → x ≢ v / 2 ^ k
    → (bit_and a m == v) ≡ false
high_differ k a m v x e other = elim (Bool-cases (bit_and a m == v)) [
  | inr differ ↦ differ
  | inl same ↦
      let equal : bit_and a m ≡ v = ground arith in
      absurd (other (sym e ∙ sym (bit_and-div k a m) ∙ ap (λ y. y / 2 ^ k) equal))
]

literal-injective :
    (p s w : ℕ) → p < usize_mod arm → s < usize_mod arm → literal s w ≡ literal p w → s ≡ p
literal-injective p s w hp hs e = elim (Bool-cases (bits 23 1 w == 0)) [
  | inl down ↦
      let n = bits 0 12 w in
      let same : wrapping_sub (usize_mod arm) ((s + 8) % usize_mod arm) n
          ≡ wrapping_sub (usize_mod arm) ((p + 8) % usize_mod arm) n =
        rw down at e in
      omega arith
  | inr up ↦
      let n = bits 0 12 w in
      let same : wrapping_add (usize_mod arm) (s + 8) n ≡ wrapping_add (usize_mod arm) (p + 8) n =
        rw up at e in
      omega arith
]

module _ (w : ℕ) (small : w < u32_mod) (load : loads_pc w ≡ true) where
  opcode : bits 25 3 w ≡ 2
  opcode = let (o, r, cond) = fields w load in elim o [ inl e ↦ omega arith | inr e ↦ omega arith ]

  load_byte : (bits 24 4 w ≡ 5) × (bits 26 2 w ≡ 1)
  load_byte =
      let (o, r, cond) = fields w load in
      elim o [ inl e ↦ (omega arith, omega arith) | inr e ↦ (omega arith, omega arith) ]

  no_branch : (bit_and w 0x0E00_0000 == 0x0A00_0000) ≡ false
  no_branch =
      high_differ 25 w 0x0E00_0000 0x0A00_0000 2 (bit_and-mask 3 (w / 2 ^ 25) ∙ opcode)
        (λ e. omega arith)

  no_return : is_return w ≡ false
  unfolding is_return
  no_return =
      let (four, two) = load_byte in
      let n1 =
        high_differ 24 w 0x0FFF_FFF0 0x012F_FF10 5 (bit_and-mask 4 (w / 2 ^ 24) ∙ four)
          (λ e. omega arith) in
      let n2 =
        high_differ 24 w 0x0FEF_F000 0x01A0_F000 5 (bit_and-mask 4 (w / 2 ^ 24) ∙ four)
          (λ e. omega arith) in
      let n3 =
        high_differ 25 w 0x0E10_8000 0x0810_8000 2 (bit_and-mask 3 (w / 2 ^ 25) ∙ opcode)
          (λ e. omega arith) in
      rw (n1, n2, n3)

  no_reads : reads_pc w ≡ false
  unfolding reads_pc
  no_reads =
      let (o, r, cond) = fields w load in
      let (four, two) = load_byte in
      let rd : bit_and (w / 2 ^ 12) 0xF ≡ 15 = bit_and-mask 4 (w / 2 ^ 12) ∙ r in
      let n1 =
        high_differ 26 w 0x0C00_0000 0 1 (bit_and-mask 2 (w / 2 ^ 26) ∙ two) (λ e. omega arith) in
      ground arith

  conditional : (w / 2 ^ 28 == 0xF) ≡ false
  conditional = let (o, r, cond) = fields w load in ground arith

  -- A load of the program counter from a literal is copied as it is, and from any other address than its
  -- own it reads another literal.
  pub process-strays :
      (b : Builder) (p s : ℕ)
      → p < usize_mod arm
      → s < usize_mod arm
      → s ≢ p
      → (process b w p ≡ verbatim b w) × (literal s w ≢ literal p w)
  unfolding process
  process-strays b p s hp hs other = (
    rw (conditional, no_branch, no_return, no_reads) refl,
    (λ e. other (literal-injective p s w hp hs e)),
  )

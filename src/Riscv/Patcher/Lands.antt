-- ===== src/Riscv/Patcher/Lands.antt =====
-- Where the patch of src/arch/riscv/patcher.rs leads, by the manual's reading of its two instructions.
use detour_rs.Base.{
  ℕ, ◌+◌, ◌-◌, ◌*◌, ◌/◌, ◌^◌, ◌%◌, ◌≤◌, ◌<◌, ◌≡◌, refl, subst, ap, ◌∙◌, ◌⊎◌, inl, inr, some, ◌++◌,
  bit_or, bit_and, arith,
}
use detour_rs.Base.Fields.{bit_or-sum, bit_and-mask}
use detour_rs.Base.Memory.{Memory, Holds, Holds-behind, Holds-word_at}
use detour_rs.Base.Words.{
  le_bytes, u32_mod, shift_right_signed, widen_signed, wrapping_add, wrapping_sub,
}
use detour_rs.Riscv.Defs.{RvArch, rv32, rv64, word_mod}
use detour_rs.Riscv.Patcher.{branch_bytes}
use detour_rs.Riscv.Machine.{Cpu, set, run, run-step, instruction, auipc, jalr, bits}
use detour_rs.Riscv.Thunk.Runs.{cpu_eq, set_zero, wrapped-exact}

-- The two operands: the pages, and the rest.
abbrev pub pages : ℕ → ℕ
pages offset32 = wrapping_add u32_mod offset32 0x800 / 2 ^ 12

abbrev pub rest : ℕ → ℕ
rest offset32 = offset32 % 2 ^ 12

abbrev pub offset_of : RvArch → (from to : ℕ) → ℕ
offset_of a from to = wrapping_sub (word_mod a) to from

auipc_word : ℕ → ℕ
auipc_word n = n * 2 ^ 12 + 0x317

jalr_word : ℕ → ℕ
jalr_word n = n * 2 ^ 20 + 0x3_0067

shifted-pages :
    (o : ℕ)
    → o < u32_mod
    → shift_right_signed u32_mod (wrapping_add u32_mod o 0x800) 12 % 2 ^ 20 ≡ pages o
shifted-pages o h = ground arith

shifted-rest :
    (o : ℕ)
    → o < u32_mod
    → wrapping_sub u32_mod o
          (shift_right_signed u32_mod (wrapping_add u32_mod o 0x800) 12 * 2 ^ 12 % u32_mod)
        % 2 ^ 12
      ≡ rest o
shifted-rest o h = ground arith

auipc-bits : (n : ℕ) → bit_or (bit_or (n * 2 ^ 12) (6 * 2 ^ 7)) 0x17 ≡ auipc_word n
unfolding auipc_word
auipc-bits n =
    let e1 = bit_or-sum 12 (n * 2 ^ 12) (6 * 2 ^ 7) (omega arith) (omega arith) in
    let e2 = bit_or-sum 7 (n * 2 ^ 12 + 6 * 2 ^ 7) 0x17 (omega arith) (omega arith) in
    ap (λ x. bit_or x 0x17) e1 ∙ e2 ∙ omega arith

jalr-bits : (n : ℕ) → bit_or (bit_or (n * 2 ^ 20) (6 * 2 ^ 15)) 0x67 ≡ jalr_word n
unfolding jalr_word
jalr-bits n =
    let e1 = bit_or-sum 20 (n * 2 ^ 20) (6 * 2 ^ 15) (omega arith) (omega arith) in
    let e2 = bit_or-sum 7 (n * 2 ^ 20 + 6 * 2 ^ 15) 0x67 (omega arith) (omega arith) in
    ap (λ x. bit_or x 0x67) e1 ∙ e2 ∙ omega arith

branch_bytes-words :
    (a : RvArch) (from to : ℕ)
    → branch_bytes a from to
      ≡ le_bytes 4 (auipc_word (pages (offset_of a from to % u32_mod)))
        ++ le_bytes 4 (jalr_word (rest (offset_of a from to % u32_mod)))
unfolding branch_bytes
branch_bytes-words a from to =
    let o = offset_of a from to % u32_mod in
    let hi20 = shift_right_signed u32_mod (wrapping_add u32_mod o 0x800) 12 in
    let lo12 = wrapping_sub u32_mod o (hi20 * 2 ^ 12 % u32_mod) in
    let small : o < u32_mod = omega arith in
    let p : bit_and hi20 0x000F_FFFF ≡ pages o = bit_and-mask 20 hi20 ∙ shifted-pages o small in
    let q : bit_and lo12 0x0000_0FFF ≡ rest o = bit_and-mask 12 lo12 ∙ shifted-rest o small in
    rw (p, q, auipc-bits (pages o), jalr-bits (rest o))

auipc-instruction :
    (a : RvArch) (n : ℕ)
    → n < 2 ^ 20
    → instruction a (auipc_word n)
      ≡ some (auipc 6 (widen_signed 0x1_0000_0000 (word_mod a) (n * 0x1000)))
unfolding instruction auipc_word
auipc-instruction a n h =
    let w = n * 2 ^ 12 + 0x317 in
    let o : bits 0 7 w ≡ 0x17 = omega arith in
    let r : bits 7 5 w ≡ 6 = omega arith in
    let i : bits 12 20 w ≡ n = omega arith in rw (o, r, i) refl

jalr-instruction :
    (a : RvArch) (n : ℕ)
    → n < 2 ^ 12
    → instruction a (jalr_word n) ≡ some (jalr 0 6 (widen_signed 0x1000 (word_mod a) n))
unfolding instruction jalr_word
jalr-instruction a n h =
    let w = n * 2 ^ 20 + 0x3_0067 in
    let o : bits 0 7 w ≡ 0x67 = omega arith in
    let r : bits 7 5 w ≡ 0 = omega arith in
    let s : bits 15 5 w ≡ 6 = omega arith in
    let i : bits 20 12 w ≡ n = omega arith in rw (o, r, s, i) refl

-- What AUIPC leaves in t1, and where JALR goes from there.
abbrev pub above : RvArch → (from o : ℕ) → ℕ
above a from o =
    wrapping_add (word_mod a) from (widen_signed 0x1_0000_0000 (word_mod a) (pages o * 0x1000))

abbrev pub landing : RvArch → (from o : ℕ) → ℕ
landing a from o =
    wrapping_add (word_mod a) (above a from o) (widen_signed 0x1000 (word_mod a) (rest o)) / 2 * 2

pub branch_bytes-runs :
    (a : RvArch) (m : Memory) (c : Cpu) (to : ℕ)
    → c.pc + 4 < word_mod a
    → Holds m c.pc (branch_bytes a c.pc to)
    → run a m 2 c
      ≡ some (record {
        pc = landing a c.pc (offset_of a c.pc to % u32_mod);
        regs = set c.regs 6 (above a c.pc (offset_of a c.pc to % u32_mod));
      })
unfolding le_bytes
branch_bytes-runs a m c to room held =
    let o = offset_of a c.pc to % u32_mod in
    let page_bound : pages o < 2 ^ 20 = omega arith in
    let (h1, h2) =
      Holds-behind m c.pc (c.pc + 4) 4 (auipc_word (pages o)) (le_bytes 4 (jalr_word (rest o)))
        (omega arith) (subst (Holds m c.pc) (branch_bytes-words a c.pc to) held) in
    let w1 = Holds-word_at m c.pc 4 (auipc_word (pages o)) (unfold auipc_word in omega arith) h1 in
    let w2 =
      Holds-word_at m (c.pc + 4) 4 (jalr_word (rest o)) (unfold jalr_word in omega arith) h2 in
    let hi = widen_signed 0x1_0000_0000 (word_mod a) (pages o * 0x1000) in
    let lo = widen_signed 0x1000 (word_mod a) (rest o) in
    let c1 : Cpu = record { pc = c.pc + 4; regs = set c.regs 6 (above a c.pc o) } in
    run-step a m 1 (auipc_word (pages o)) (auipc 6 hi) c w1
      (auipc-instruction a (pages o) page_bound)
    ∙ ap (run a m 1) (cpu_eq (wrapped-exact a c.pc 4 room) refl)
    ∙ run-step a m 0 (jalr_word (rest o)) (jalr 0 6 lo) c1 w2
        (jalr-instruction a (rest o) (omega arith))
    ∙ ap some (cpu_eq refl (set_zero (set c.regs 6 (above a c.pc o)) _))

-- The offsets from which the sum with 0x800 is a signed number of 32 bits; on RV32 all that a wrapping
-- sum of 32 bits makes of them is the same.
abbrev pub InReach : RvArch → ℕ → Type 0
InReach rv32 offset = Unit {0}
InReach rv64 offset = (offset < 0x7FFF_F800) ⊎ (word_mod rv64 - 0x8000_0000 ≤ offset)

pub landing-to :
    (a : RvArch) (from to : ℕ)
    → from < word_mod a
    → to < word_mod a
    → to % 2 ≡ 0
    → InReach a (offset_of a from to)
    → landing a from (offset_of a from to % u32_mod) ≡ to
landing-to rv32 from to hf ht even h = ground arith
landing-to rv64 from to hf ht even (inl near) = ground arith
landing-to rv64 from to hf ht even (inr near) = ground arith

pub landing-past :
    (from to : ℕ)
    → from < word_mod rv64
    → to < word_mod rv64
    → to % 2 ≡ 0
    → 0x7FFF_F800 ≤ offset_of rv64 from to
    → offset_of rv64 from to < 0x7FFF_FFFF
    → landing rv64 from (offset_of rv64 from to % u32_mod) ≡ wrapping_sub (word_mod rv64) to u32_mod
landing-past from to hf ht even low high = ground arith

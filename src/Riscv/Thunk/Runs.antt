-- ===== src/Riscv/Thunk/Runs.antt =====
-- What the thunks of src/arch/riscv/thunk/mod.rs do where they stand, by the manual's reading of their
-- instructions.
use detour_rs.Base.{
  ℕ, ◌+◌, ◌*◌, ◌/◌, ◌^◌, ◌%◌, ◌<◌, ◌≡◌, refl, subst, ap, ◌∙◌, some, ◌++◌, bit_or, fun_ext, arith,
}
use mathlib.Core.Path.{ap₂}
use detour_rs.Base.Fields.{bit_or-sum}
use detour_rs.Base.Memory.{Memory, Holds, Holds-behind, Holds-word_at, word_at}
use detour_rs.Base.Words.{le_bytes, wrapping_add}
use detour_rs.Riscv.Defs.{RvArch, rv32, rv64, word_mod, word_bytes}
use detour_rs.Riscv.Thunk.{jmp_abs_bytes, t1}
use detour_rs.Riscv.Machine.{Cpu, set, run, run-step, step, instruction, auipc, jalr, load, bits}

pub set-set : (f : ℕ → ℕ) (r u v : ℕ) → set (set f r u) r v ≡ set f r v
set-set f r u v = fun_ext λ x. ground arith

pub set_zero : (f : ℕ → ℕ) (v : ℕ) → set f 0 v ≡ f
set_zero f v = fun_ext λ x. ground arith

word_of_literal : RvArch → ℕ
word_of_literal rv32 = 0x00C3_2303
word_of_literal rv64 = 0x00C3_3303

abbrev jalr_t1 : ℕ → ℕ
jalr_t1 rd = 0x3_0067 + rd * 2 ^ 7

jalr_t1-bits : (rd : ℕ) → rd < 32 → bit_or (bit_or (6 * 2 ^ 15) (rd * 2 ^ 7)) 0x67 ≡ jalr_t1 rd
jalr_t1-bits rd h =
    let e1 = bit_or-sum 12 (6 * 2 ^ 15) (rd * 2 ^ 7) (omega arith) (omega arith) in
    let e2 = bit_or-sum 7 (6 * 2 ^ 15 + rd * 2 ^ 7) 0x67 (omega arith) (omega arith) in
    ap (λ x. bit_or x 0x67) e1 ∙ e2 ∙ omega arith

jalr_t1-instruction :
    (a : RvArch) (rd : ℕ) → rd < 32 → instruction a (jalr_t1 rd) ≡ some (jalr rd 6 0)
unfolding instruction
jalr_t1-instruction rv32 rd h =
    let o : bits 0 7 (jalr_t1 rd) ≡ 0x67 = omega arith in
    let r : bits 7 5 (jalr_t1 rd) ≡ rd = omega arith in
    let s : bits 15 5 (jalr_t1 rd) ≡ 6 = omega arith in
    let i : bits 20 12 (jalr_t1 rd) ≡ 0 = omega arith in rw (o, r, s, i) refl
jalr_t1-instruction rv64 rd h =
    let o : bits 0 7 (jalr_t1 rd) ≡ 0x67 = omega arith in
    let r : bits 7 5 (jalr_t1 rd) ≡ rd = omega arith in
    let s : bits 15 5 (jalr_t1 rd) ≡ 6 = omega arith in
    let i : bits 20 12 (jalr_t1 rd) ≡ 0 = omega arith in rw (o, r, s, i) refl

literal-instruction : (a : RvArch) → instruction a (word_of_literal a) ≡ some (load 6 6 12)
unfolding instruction word_of_literal
literal-instruction rv32 = refl
literal-instruction rv64 = refl

auipc-instruction : (a : RvArch) → instruction a 0x317 ≡ some (auipc 6 0)
unfolding instruction
auipc-instruction rv32 = refl
auipc-instruction rv64 = refl

jmp_abs_bytes-words :
    (a : RvArch) (rd dest : ℕ)
    → rd < 32
    → jmp_abs_bytes a rd dest
      ≡ le_bytes 4 0x317
        ++ le_bytes 4 (word_of_literal a)
        ++ le_bytes 4 (jalr_t1 rd)
        ++ le_bytes (word_bytes a) dest
unfolding jmp_abs_bytes word_of_literal
jmp_abs_bytes-words rv32 rd dest h = rw (jalr_t1-bits rd h) refl
jmp_abs_bytes-words rv64 rd dest h = rw (jalr_t1-bits rd h) refl

-- What an address and a numeral of a few bytes make, where there is room for the code.
pub wrapped-exact :
    (a : RvArch) (s k : ℕ) → s + k < word_mod a → wrapping_add (word_mod a) s k ≡ s + k
wrapped-exact rv32 s k h = omega arith
wrapped-exact rv64 s k h = omega arith

pub word_bytes_enough : (a : RvArch) (d : ℕ) → d < word_mod a → d < 256 ^ word_bytes a
word_bytes_enough rv32 d h = h
word_bytes_enough rv64 d h = h

literal_small : (a : RvArch) → word_of_literal a < 256 ^ 4
unfolding word_of_literal
literal_small rv32 = omega arith
literal_small rv64 = omega arith

pub cpu_eq :
    {p q : ℕ} {f g : ℕ → ℕ}
    → p ≡ q
    → f ≡ g
    → ◌≡◌ {A = Cpu} (record { pc = p; regs = f }) (record { pc = q; regs = g })
cpu_eq e h = ap₂ (λ (p : ℕ) (f : ℕ → ℕ). record { pc = p; regs = f }) e h

-- The words of an absolute jump in memory.
abs_words :
    (a : RvArch) (m : Memory) (s rd d : ℕ)
    → rd < 32
    → d < word_mod a
    → Holds m s (jmp_abs_bytes a rd d)
    → (word_at m s 4 ≡ 0x317)
      × (word_at m (s + 4) 4 ≡ word_of_literal a)
      × (word_at m (s + 8) 4 ≡ jalr_t1 rd)
      × (word_at m (s + 12) (word_bytes a) ≡ d)
unfolding le_bytes word_of_literal
abs_words a m s rd d hr hd held =
    let literal = le_bytes (word_bytes a) d in
    let last = le_bytes 4 (jalr_t1 rd) ++ literal in
    let (h1, t1) =
      Holds-behind m s (s + 4) 4 0x317 (le_bytes 4 (word_of_literal a) ++ last) (omega arith)
        (subst (Holds m s) (jmp_abs_bytes-words a rd d hr) held) in
    let (h2, t2) = Holds-behind m (s + 4) (s + 8) 4 (word_of_literal a) last (omega arith) t1 in
    let (h3, h4) = Holds-behind m (s + 8) (s + 12) 4 (jalr_t1 rd) literal (omega arith) t2 in
    (
      Holds-word_at m s 4 0x317 (omega arith) h1,
      Holds-word_at m (s + 4) 4 (word_of_literal a) (literal_small a) h2,
      Holds-word_at m (s + 8) 4 (jalr_t1 rd) (omega arith) h3,
      Holds-word_at m (s + 12) (word_bytes a) d (word_bytes_enough a d hd) h4,
    )

halved :
    (a : RvArch) (d : ℕ) → d < word_mod a → d % 2 ≡ 0 → wrapping_add (word_mod a) d 0 / 2 * 2 ≡ d
halved rv32 d h e = omega arith
halved rv64 d h e = omega arith

-- Three instructions of an absolute jump: it enters its destination, with the destination in t1, and
-- leaves in `rd` the address of its own literal.
pub jmp_abs_bytes-runs :
    (a : RvArch) (m : Memory) (c : Cpu) (rd d : ℕ)
    → rd < 32
    → d < word_mod a
    → d % 2 ≡ 0
    → c.pc + 12 < word_mod a
    → Holds m c.pc (jmp_abs_bytes a rd d)
    → run a m 3 c ≡ some (record { pc = d; regs = set (set c.regs 6 d) rd (c.pc + 12) })
jmp_abs_bytes-runs a m c rd d hr hd even room held =
    let (w1, w2, w3, w4) = abs_words a m c.pc rd d hr hd held in
    let c1 : Cpu = record { pc = c.pc + 4; regs = set c.regs 6 c.pc } in
    let c2 : Cpu = record { pc = c.pc + 8; regs = set c.regs 6 d } in
    let s1 : step a m (auipc 6 0) c ≡ c1 =
      cpu_eq (wrapped-exact a c.pc 4 (omega arith))
        (ap (set c.regs 6) (wrapped-exact a c.pc 0 (omega arith) ∙ omega arith)) in
    let s2 : step a m (load 6 6 12) c1 ≡ c2 =
      cpu_eq (wrapped-exact a (c.pc + 4) 4 (omega arith) ∙ omega arith) (
        set-set c.regs 6 c.pc _
        ∙ ap (set c.regs 6)
            (ap (λ (x : ℕ). word_at m x (word_bytes a)) (wrapped-exact a c.pc 12 room) ∙ w4)) in
    let s3 : step a m (jalr rd 6 0) c2
        ≡ record { pc = d; regs = set (set c.regs 6 d) rd (c.pc + 12) } =
      cpu_eq (halved a d hd even)
        (ap (set (set c.regs 6 d) rd) (wrapped-exact a (c.pc + 8) 4 (omega arith) ∙ omega arith)) in
    run-step a m 2 0x317 (auipc 6 0) c w1 (auipc-instruction a)
    ∙ ap (run a m 2) s1
    ∙ run-step a m 1 (word_of_literal a) (load 6 6 12) c1 w2 (literal-instruction a)
    ∙ ap (run a m 1) s2
    ∙ run-step a m 0 (jalr_t1 rd) (jalr rd 6 0) c2 w3 (jalr_t1-instruction a rd hr)
    ∙ ap (run a m 0) s3

-- ===== src/Riscv/Trampoline/Runs.antt =====
-- What the code that src/arch/riscv/trampoline/mod.rs puts in the place of AUIPC does where it stands.
use detour_rs.Base.{
  ℕ, ◌+◌, ◌*◌, ◌/◌, ◌^◌, ◌≤◌, ◌<◌, ◌≡◌, refl, sym, subst, ap, ◌∙◌, ◌≢◌, inl, false, ◌==◌, some,
  List, ◌++◌, bit_or, arith,
}
use detour_rs.Base.Fields.{bit_or-sum}
use detour_rs.Base.Memory.{Memory, Holds, Holds-behind, Holds-word_at, word_at}
use detour_rs.Base.Words.{le_bytes, u32_mod, widen_signed, wrapping_add}
use detour_rs.Error.{ok, ok-injective}
use detour_rs.Pic.{generate}
use detour_rs.Riscv.Defs.{RvArch, rv32, rv64, word_mod, word_bytes}
use detour_rs.Riscv.Thunk.{load_funct3, encode_j_type, encode_b_type, literal_skip, li_abs}
use detour_rs.Riscv.Thunk.Runs.{set-set, cpu_eq, wrapped-exact, word_bytes_enough}
use detour_rs.Riscv.Machine.{
  Cpu, set, reg, run, run-step, step, instruction, jal, load, branch, bits, j_imm, b_imm,
}
use detour_rs.Riscv.Trampoline.Decode.{
  Fits, j_word, b_word, decode-imm, decode-encode_j_type, decode-encode_b_type,
}

-- What the processor makes of an encoded jump, and of an encoded branch.
pub jal-instruction :
    (a : RvArch) (rd imm : ℕ)
    → rd < 32
    → Fits 0x10_0000 imm
    → instruction a (encode_j_type rd imm) ≡ some (jal rd (widen_signed u32_mod (word_mod a) imm))
unfolding instruction
jal-instruction a rd imm h fits =
    let w = encode_j_type rd imm in
    let (lt, opcode, r, fields) = j_word rd imm w h refl in
    let i : j_imm a w ≡ widen_signed u32_mod (word_mod a) imm =
      sym (decode-imm a w).0
      ∙ ap (widen_signed u32_mod (word_mod a)) (decode-encode_j_type rd imm h fits) in
    rw (opcode, r, i) refl

pub branch-instruction :
    (a : RvArch) (funct3 rs1 rs2 imm : ℕ)
    → funct3 < 8
    → (funct3 / 2 == 1) ≡ false
    → rs1 < 32
    → rs2 < 32
    → Fits 0x1000 imm
    → instruction a (encode_b_type funct3 rs1 rs2 imm)
      ≡ some (branch funct3 rs1 rs2 (widen_signed u32_mod (word_mod a) imm))
unfolding instruction
branch-instruction a funct3 rs1 rs2 imm h1 known h2 h3 fits =
    let w = encode_b_type funct3 rs1 rs2 imm in
    let (lt, opcode, f, r1, r2, fields) = b_word funct3 rs1 rs2 imm w h1 h2 h3 refl in
    let i : b_imm a w ≡ widen_signed u32_mod (word_mod a) imm =
      sym (decode-imm a w).1
      ∙ ap (widen_signed u32_mod (word_mod a))
          (decode-encode_b_type funct3 rs1 rs2 imm h1 h2 h3 fits) in
    rw (opcode, f, known, r1, r2, i) refl

-- The load of `rd` from where it points.
abbrev load_word : RvArch → ℕ → ℕ
load_word a rd = rd * 2 ^ 15 + load_funct3 a * 2 ^ 12 + rd * 2 ^ 7 + 3

load_word-bits :
    (a : RvArch) (rd : ℕ)
    → rd < 32
    → bit_or (bit_or (bit_or (rd * 2 ^ 15) (load_funct3 a * 2 ^ 12)) (rd * 2 ^ 7)) 0x03
      ≡ load_word a rd
load_word-bits rv32 rd h =
    let e1 = bit_or-sum 15 (rd * 2 ^ 15) (2 * 2 ^ 12) (omega arith) (omega arith) in
    let e2 = bit_or-sum 12 (rd * 2 ^ 15 + 2 * 2 ^ 12) (rd * 2 ^ 7) (omega arith) (omega arith) in
    let e3 = bit_or-sum 7 (rd * 2 ^ 15 + 2 * 2 ^ 12 + rd * 2 ^ 7) 3 (omega arith) (omega arith) in
    rw (e1, e2, e3)
load_word-bits rv64 rd h =
    let e1 = bit_or-sum 15 (rd * 2 ^ 15) (3 * 2 ^ 12) (omega arith) (omega arith) in
    let e2 = bit_or-sum 12 (rd * 2 ^ 15 + 3 * 2 ^ 12) (rd * 2 ^ 7) (omega arith) (omega arith) in
    let e3 = bit_or-sum 7 (rd * 2 ^ 15 + 3 * 2 ^ 12 + rd * 2 ^ 7) 3 (omega arith) (omega arith) in
    rw (e1, e2, e3)

load_word-instruction :
    (a : RvArch) (rd : ℕ) → rd < 32 → instruction a (load_word a rd) ≡ some (load rd rd 0)
unfolding instruction
load_word-instruction rv32 rd h =
    let w = load_word rv32 rd in
    let o : bits 0 7 w ≡ 3 = omega arith in
    let f : bits 12 3 w ≡ 2 = omega arith in
    let r : bits 7 5 w ≡ rd = omega arith in
    let s : bits 15 5 w ≡ rd = omega arith in
    let i : bits 20 12 w ≡ 0 = omega arith in rw (o, f, r, s, i) refl
load_word-instruction rv64 rd h =
    let w = load_word rv64 rd in
    let o : bits 0 7 w ≡ 3 = omega arith in
    let f : bits 12 3 w ≡ 3 = omega arith in
    let r : bits 7 5 w ≡ rd = omega arith in
    let s : bits 15 5 w ≡ rd = omega arith in
    let i : bits 20 12 w ≡ 0 = omega arith in rw (o, f, r, s, i) refl

skip-Fits : (a : RvArch) → Fits 0x10_0000 (literal_skip a)
skip-Fits rv32 = (omega arith, omega arith, inl (omega arith))
skip-Fits rv64 = (omega arith, omega arith, inl (omega arith))

literal_behind : (a : RvArch) (s : ℕ) → s + 4 + word_bytes a ≡ s + literal_skip a
literal_behind rv32 s = omega arith
literal_behind rv64 s = omega arith

load_word-small : (a : RvArch) (rd : ℕ) → rd < 32 → load_word a rd < 256 ^ 4
load_word-small rv32 rd h = omega arith
load_word-small rv64 rd h = omega arith

-- The literal, and what stands around it.
li_abs-words :
    (a : RvArch) (m : Memory) (s rd v : ℕ) (code : List ℕ)
    → rd < 32
    → v < word_mod a
    → generate (li_abs a rd v) s ≡ ok code
    → Holds m s code
    → (word_at m s 4 ≡ encode_j_type rd (literal_skip a))
      × (word_at m (s + 4) (word_bytes a) ≡ v)
      × (word_at m (s + literal_skip a) 4 ≡ load_word a rd)
unfolding generate li_abs le_bytes
li_abs-words a m s rd v code hr hv h held =
    let w = encode_j_type rd (literal_skip a) in
    let tail = le_bytes (word_bytes a) v ++ le_bytes 4 (load_word a rd) in
    let (lt, opcode, r, fields) = j_word rd (literal_skip a) w hr refl in
    let bytes : Holds m s (le_bytes 4 w ++ tail) =
      subst (Holds m s)
        (ap (λ x. le_bytes 4 w ++ le_bytes (word_bytes a) v ++ le_bytes 4 x)
          (load_word-bits a rd hr))
        (subst (Holds m s) (sym (ok-injective h)) held) in
    let (h1, t1) = Holds-behind m s (s + 4) 4 w tail (omega arith) bytes in
    let (h2, h3) =
      Holds-behind m (s + 4) (s + literal_skip a) (word_bytes a) v (le_bytes 4 (load_word a rd))
        (literal_behind a s) t1 in
    (
      Holds-word_at m s 4 w lt h1,
      Holds-word_at m (s + 4) (word_bytes a) v (word_bytes_enough a v hv) h2,
      Holds-word_at m (s + literal_skip a) 4 (load_word a rd) (load_word-small a rd hr) h3,
    )

reg-set : (f : ℕ → ℕ) (p rd v : ℕ) → rd ≢ 0 → reg (record { pc = p; regs = set f rd v }) rd ≡ v
reg-set f p rd v h = ground arith

skipped :
    (a : RvArch) (s : ℕ)
    → s + literal_skip a < word_mod a
    → wrapping_add (word_mod a) s (widen_signed u32_mod (word_mod a) (literal_skip a))
      ≡ s + literal_skip a
skipped rv32 s h = omega arith
skipped rv64 s h = omega arith

literal_skip-le : (a : RvArch) → 4 ≤ literal_skip a
literal_skip-le rv32 = omega arith
literal_skip-le rv64 = omega arith

-- Two instructions that load an address into `rd`, which is not register 0; nothing else changes.
pub li_abs-runs :
    (a : RvArch) (m : Memory) (c : Cpu) (rd v : ℕ) (code : List ℕ)
    → rd < 32
    → rd ≢ 0
    → v < word_mod a
    → c.pc + (literal_skip a + 4) < word_mod a
    → generate (li_abs a rd v) c.pc ≡ ok code
    → Holds m c.pc code
    → run a m 2 c ≡ some (record { pc = c.pc + (literal_skip a + 4); regs = set c.regs rd v })
li_abs-runs a m c rd v code hr nonzero hv room h held =
    let (w1, w2, w3) = li_abs-words a m c.pc rd v code hr hv h held in
    let skip = widen_signed u32_mod (word_mod a) (literal_skip a) in
    let c1 : Cpu = record { pc = c.pc + literal_skip a; regs = set c.regs rd (c.pc + 4) } in
    let c2 : Cpu = record { pc = c.pc + (literal_skip a + 4); regs = set c.regs rd v } in
    let small = literal_skip-le a in
    let at_4 = wrapped-exact a c.pc 4 (omega arith) in
    let s1 : step a m (jal rd skip) c ≡ c1 =
      cpu_eq (skipped a c.pc (omega arith)) (ap (set c.regs rd) at_4) in
    let literal : word_at m (wrapping_add (word_mod a) (reg c1 rd) 0) (word_bytes a) ≡ v =
      ap (λ (x : ℕ). word_at m (wrapping_add (word_mod a) x 0) (word_bytes a))
        (reg-set c.regs (c.pc + literal_skip a) rd (c.pc + 4) nonzero)
      ∙ ap (λ (x : ℕ). word_at m x (word_bytes a))
          (wrapped-exact a (c.pc + 4) 0 (omega arith) ∙ omega arith)
      ∙ w2 in
    let s2 : step a m (load rd rd 0) c1 ≡ c2 =
      cpu_eq (wrapped-exact a (c.pc + literal_skip a) 4 (omega arith) ∙ omega arith)
        (set-set c.regs rd (c.pc + 4) _ ∙ ap (set c.regs rd) literal) in
    run-step a m 1 (encode_j_type rd (literal_skip a)) (jal rd skip) c w1
      (jal-instruction a rd (literal_skip a) hr (skip-Fits a))
    ∙ ap (run a m 1) s1
    ∙ run-step a m 0 (load_word a rd) (load rd rd 0) c1 w3 (load_word-instruction a rd hr)
    ∙ ap (run a m 0) s2

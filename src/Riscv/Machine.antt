-- ===== src/Riscv/Machine.antt =====
-- The RISC-V instructions that detours are made of, as the instruction set manual gives them: their
-- fields, their immediates and what they do. This is the description that src/arch/riscv is checked
-- against; it models no code of the repository.
use detour_rs.Base.{
  ℕ, zero, suc, ◌+◌, ◌*◌, ◌/◌, ◌^◌, ◌%◌, ◌≡◌, Bool, not, ◌&&◌, Option, none, some, ltb, ◌==◌,
  if◌then◌else◌,
}
use detour_rs.Base.Memory.{Memory, word_at}
use detour_rs.Base.Words.{wrapping_add, widen_signed, signed, ltb_ℤ}
use detour_rs.Riscv.Defs.{RvArch, rv32, rv64, word_mod, word_bytes}

-- Immediates are patterns of an address, destinations are their sums with the program counter.
pub data Instruction : Type 0 where
  auipc : (rd imm : ℕ) → Instruction
  jal : (rd imm : ℕ) → Instruction
  jalr : (rd rs1 imm : ℕ) → Instruction
  load : (rd rs1 imm : ℕ) → Instruction
  branch : (funct3 rs1 rs2 imm : ℕ) → Instruction

-- The n bits of a word from bit `lo` on.
abbrev pub bits : (lo n w : ℕ) → ℕ
bits lo n w = w / 2 ^ lo % 2 ^ n

abbrev pub i_imm : RvArch → ℕ → ℕ
i_imm a w = widen_signed 0x1000 (word_mod a) (bits 20 12 w)

abbrev pub u_imm : RvArch → ℕ → ℕ
u_imm a w = widen_signed 0x1_0000_0000 (word_mod a) (bits 12 20 w * 0x1000)

abbrev pub j_imm : RvArch → ℕ → ℕ
j_imm a w =
    widen_signed 0x20_0000 (word_mod a)
      (bits 31 1 w * 0x10_0000 + bits 12 8 w * 0x1000 + bits 20 1 w * 0x800 + bits 21 10 w * 2)

abbrev pub b_imm : RvArch → ℕ → ℕ
b_imm a w =
    widen_signed 0x2000 (word_mod a)
      (bits 31 1 w * 0x1000 + bits 7 1 w * 0x800 + bits 25 6 w * 0x20 + bits 8 4 w * 2)

-- The width of LW and of LD.
abbrev pub load_width : RvArch → ℕ
load_width rv32 = 2
load_width rv64 = 3

-- The instruction of a word, if it is one of these; a load is that of a whole register.
unfoldable pub instruction : RvArch → ℕ → Option Instruction
instruction a w =
    if bits 0 7 w == 0x17
    then some (auipc (bits 7 5 w) (u_imm a w))
    else if bits 0 7 w == 0x6F
    then some (jal (bits 7 5 w) (j_imm a w))
    else if bits 0 7 w == 0x67
    then some (jalr (bits 7 5 w) (bits 15 5 w) (i_imm a w))
    else if bits 0 7 w == 0x03 && bits 12 3 w == load_width a
    then some (load (bits 7 5 w) (bits 15 5 w) (i_imm a w))
    else if bits 0 7 w == 0x63 && not (bits 12 3 w / 2 == 1)
    then some (branch (bits 12 3 w) (bits 15 5 w) (bits 20 5 w) (b_imm a w))
    else none

pub record Cpu : Type 0 where
  pub pc : ℕ
  pub regs : ℕ → ℕ

-- Register 0 reads as zero, and is never written.
abbrev pub reg : Cpu → ℕ → ℕ
reg c r = if r == 0 then 0 else c.regs r

abbrev pub set : (ℕ → ℕ) → (rd v : ℕ) → ℕ → ℕ
set regs rd v r = if r == rd && not (r == 0) then v else regs r

-- BEQ, BLT, BLTU by their codes without the lowest bit, which negates them.
abbrev pub compares : RvArch → (code x y : ℕ) → Bool
compares a code x y =
    if code == 0
    then x == y
    else if code == 2
    then ltb_ℤ (signed (word_mod a) x) (signed (word_mod a) y)
    else ltb x y

abbrev pub taken : RvArch → (funct3 x y : ℕ) → Bool
taken a funct3 x y =
    if funct3 % 2 == 0 then compares a (funct3 / 2) x y else not (compares a (funct3 / 2) x y)

-- The lowest bit of the destination of JALR is cleared.
abbrev pub step : RvArch → Memory → Instruction → Cpu → Cpu
step a m (auipc rd imm) c = record {
  pc = wrapping_add (word_mod a) c.pc 4;
  regs = set c.regs rd (wrapping_add (word_mod a) c.pc imm);
}
step a m (jal rd imm) c = record {
  pc = wrapping_add (word_mod a) c.pc imm;
  regs = set c.regs rd (wrapping_add (word_mod a) c.pc 4);
}
step a m (jalr rd rs1 imm) c = record {
  pc = wrapping_add (word_mod a) (reg c rs1) imm / 2 * 2;
  regs = set c.regs rd (wrapping_add (word_mod a) c.pc 4);
}
step a m (load rd rs1 imm) c = record {
  pc = wrapping_add (word_mod a) c.pc 4;
  regs = set c.regs rd (word_at m (wrapping_add (word_mod a) (reg c rs1) imm) (word_bytes a));
}
step a m (branch funct3 rs1 rs2 imm) c = record {
  pc = wrapping_add (word_mod a) c.pc (if taken a funct3 (reg c rs1) (reg c rs2) then imm else 4);
  regs = c.regs;
}

-- What n of these instructions do, from the one at the program counter on.
abbrev pub run : RvArch → Memory → ℕ → Cpu → Option Cpu
run a m zero c = some c
run a m (suc n) c = elim (instruction a (word_at m c.pc 4)) [
  | none ↦ none
  | some i ↦ run a m n (step a m i c)
]

pub run-step :
    (a : RvArch) (m : Memory) (n w : ℕ) (i : Instruction) (c : Cpu)
    → word_at m c.pc 4 ≡ w
    → instruction a w ≡ some i
    → run a m (suc n) c ≡ run a m n (step a m i c)
run-step a m n w i c here h = rw (here, h, run)

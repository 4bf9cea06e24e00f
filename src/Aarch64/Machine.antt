-- ===== src/Aarch64/Machine.antt =====
-- The AArch64 instructions that detours are made of, and those that trampolines replace, as the
-- architecture's manual gives them. This is the description that src/arch/aarch64 is checked against;
-- it models no code of the repository.
use detour_rs.Base.{
  ℕ, zero, suc, ◌+◌, ◌*◌, ◌/◌, ◌^◌, ◌%◌, ◌≡◌, Bool, not, ◌&&◌, Option, none, some, ◌==◌,
  if◌then◌else◌, inl, inr, Option-cases,
}
use detour_rs.Base.Memory.{Memory, word_at}
use detour_rs.Base.Words.{wrapping_add, widen_signed}
use detour_rs.Arch.{aarch64, usize_mod}

-- Offsets are patterns of an address. `sf` and `negate` are bits of the word.
pub data Instruction : Type 0 where
  branch : (offset : ℕ) → Instruction
  br : (rn : ℕ) → Instruction
  cbz : (sf negate rt offset : ℕ) → Instruction
  tbz : (bit negate rt offset : ℕ) → Instruction
  adr : (rd offset : ℕ) → Instruction
  adrp : (rd offset : ℕ) → Instruction
  movz : (hw imm rd : ℕ) → Instruction
  movk : (hw imm rd : ℕ) → Instruction
  ldr_literal : (rt offset : ℕ) → Instruction

-- The n bits of a word from bit `lo` on.
abbrev pub bits : (lo n w : ℕ) → ℕ
bits lo n w = w / 2 ^ lo % 2 ^ n

-- A signed offset of `m` values, times `unit`.
abbrev pub offset_of : (m unit x : ℕ) → ℕ
offset_of m unit x = widen_signed (m * unit) (usize_mod aarch64) (x * unit)

abbrev pub adr_bits : ℕ → ℕ
adr_bits w = bits 5 19 w * 4 + bits 29 2 w

-- The instruction of a word, if it is one of these.
unfoldable pub instruction : ℕ → Option Instruction
instruction w =
    if bits 26 6 w == 0x05
    then some (branch (offset_of 0x400_0000 4 (bits 0 26 w)))
    else if bits 25 6 w == 0x1A
    then some (cbz (bits 31 1 w) (bits 24 1 w) (bits 0 5 w) (offset_of 0x8_0000 4 (bits 5 19 w)))
    else if bits 25 6 w == 0x1B
    then some (
        tbz (bits 31 1 w * 32 + bits 19 5 w) (bits 24 1 w) (bits 0 5 w)
          (offset_of 0x4000 4 (bits 5 14 w)))
    else if bits 24 5 w == 0x10
    then some (
        if bits 31 1 w == 0
        then adr (bits 0 5 w) (offset_of 0x20_0000 1 (adr_bits w))
        else adrp (bits 0 5 w) (offset_of 0x20_0000 0x1000 (adr_bits w)))
    else if bits 23 9 w == 0x1A5
    then some (movz (bits 21 2 w) (bits 5 16 w) (bits 0 5 w))
    else if bits 23 9 w == 0x1E5
    then some (movk (bits 21 2 w) (bits 5 16 w) (bits 0 5 w))
    else if bits 24 8 w == 0x58
    then some (ldr_literal (bits 0 5 w) (offset_of 0x8_0000 4 (bits 5 19 w)))
    else if bits 10 22 w == 0x35_87C0 && bits 0 5 w == 0
    then some (br (bits 5 5 w))
    else none

pub record Cpu : Type 0 where
  pub pc : ℕ
  pub regs : ℕ → ℕ

-- Register 31 reads as zero here, and is never written.
abbrev pub reg : Cpu → ℕ → ℕ
reg c r = if r == 31 then 0 else c.regs r

abbrev pub set : (ℕ → ℕ) → (rd v : ℕ) → ℕ → ℕ
set regs rd v r = if r == rd && not (r == 31) then v else regs r

-- The 16 bits from bit 16 * hw on.
abbrev pub inserted : (hw imm x : ℕ) → ℕ
inserted hw imm x =
    x / 2 ^ (16 * hw) / 2 ^ 16 * 2 ^ (16 * hw) * 2 ^ 16 + imm * 2 ^ (16 * hw) + x % 2 ^ (16 * hw)

-- A test that `negate` (0 or 1) turns around.
abbrev pub decided : (negate : ℕ) → Bool → Bool
decided negate t = if negate == 0 then t else not t

-- W registers are the low halves.
abbrev pub is_zero : (sf x : ℕ) → Bool
is_zero sf x = (if sf == 0 then x % 2 ^ 32 else x) == 0

abbrev pub moved : Cpu → (taken : Bool) → (offset : ℕ) → Cpu
moved c taken offset = record {
  pc = wrapping_add (usize_mod aarch64) c.pc (if taken then offset else 4);
  regs = c.regs;
}

abbrev pub loaded : Cpu → (rd v : ℕ) → Cpu
loaded c rd v = record { pc = wrapping_add (usize_mod aarch64) c.pc 4; regs = set c.regs rd v }

abbrev pub step : Memory → Instruction → Cpu → Cpu
step m (branch offset) c = record {
  pc = wrapping_add (usize_mod aarch64) c.pc offset;
  regs = c.regs;
}
step m (br rn) c = record { pc = reg c rn; regs = c.regs }
step m (cbz sf negate rt offset) c = moved c (decided negate (is_zero sf (reg c rt))) offset
step m (tbz bit negate rt offset) c = moved c (decided negate (bits bit 1 (reg c rt) == 0)) offset
step m (adr rd offset) c = loaded c rd (wrapping_add (usize_mod aarch64) c.pc offset)
step m (adrp rd offset) c =
    loaded c rd (wrapping_add (usize_mod aarch64) (c.pc / 0x1000 * 0x1000) offset)
step m (movz hw imm rd) c = loaded c rd (imm * 2 ^ (16 * hw))
step m (movk hw imm rd) c = loaded c rd (inserted hw imm (reg c rd))
step m (ldr_literal rt offset) c =
    loaded c rt (word_at m (wrapping_add (usize_mod aarch64) c.pc offset) 8)

-- What n of these instructions do, from the one at the program counter on.
abbrev pub run : Memory → ℕ → Cpu → Option Cpu
run m zero c = some c
run m (suc n) c = elim (instruction (word_at m c.pc 4)) [
  | none ↦ none
  | some i ↦ run m n (step m i c)
]

pub run-after : (m : Memory) (k : ℕ) (c d : Cpu) → run m 1 c ≡ some d → run m (suc k) c ≡ run m k d
run-after m k c d h = elim (Option-cases (instruction (word_at m c.pc 4))) [
  | inl lost ↦ let h' = rw (lost, run) at h in cc
  | inr (i, is) ↦
      let one : some (step m i c) ≡ some d = rw (is, run) at h in
      let same : step m i c ≡ d = cc in rw (is, run, same)
]

pub run-step :
    (m : Memory) (n w : ℕ) (i : Instruction) (c : Cpu)
    → word_at m c.pc 4 ≡ w
    → instruction w ≡ some i
    → run m (suc n) c ≡ run m n (step m i c)
run-step m n w i c here h = rw (here, h, run)

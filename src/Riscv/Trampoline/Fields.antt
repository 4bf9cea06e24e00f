-- ===== src/Riscv/Trampoline/Fields.antt =====
-- What the processor makes of the words that src/arch/riscv/trampoline/mod.rs replaces, and the sizes
-- and registers of what they are replaced by.
use detour_rs.Base.{
  ℕ, ◌+◌, ◌*◌, ◌/◌, ◌^◌, ◌%◌, ◌<◌, ◌≡◌, refl, ap, ◌∙◌, ◌≢◌, true, false, ◌==◌, some, none, bit_and,
  arith,
}
use detour_rs.Base.Fields.{bit_and-high, bit_and-mask}
use detour_rs.Base.Words.{le_bytes, u32_mod, widen_signed, wrapping_add}
use detour_rs.Pic.{len}
use detour_rs.Riscv.Defs.{RvArch, rv32, rv64, word_mod}
use detour_rs.Riscv.Thunk.{li_abs, branch_far, literal_skip, jmp_size, jmp_abs_bytes}
use detour_rs.Riscv.Machine.{set, reg, instruction, auipc, jal, branch, bits, j_imm, b_imm, u_imm}

-- What the processor makes of the instructions that are replaced.
pub instruction-jal :
    (a : RvArch) (w : ℕ) → bits 0 7 w ≡ 0x6F → instruction a w ≡ some (jal (bits 7 5 w) (j_imm a w))
unfolding instruction
instruction-jal a w o = rw o refl

pub instruction-auipc :
    (a : RvArch) (w : ℕ)
    → bits 0 7 w ≡ 0x17
    → instruction a w ≡ some (auipc (bits 7 5 w) (u_imm a w))
unfolding instruction
instruction-auipc a w o = rw o refl

pub instruction-branch :
    (a : RvArch) (w : ℕ)
    → bits 0 7 w ≡ 0x63
    → (bits 12 3 w / 2 == 1) ≡ false
    → instruction a w ≡ some (branch (bits 12 3 w) (bits 15 5 w) (bits 20 5 w) (b_imm a w))
unfolding instruction
instruction-branch a w o known = rw (o, known) refl

pub instruction-reserved :
    (a : RvArch) (w : ℕ)
    → bits 0 7 w ≡ 0x63
    → (bits 12 3 w / 2 == 1) ≡ true
    → instruction a w ≡ none
unfolding instruction
instruction-reserved a w o reserved = rw (o, reserved) refl

-- A destination is an even address.
unfoldable pub EvenAddress : ℕ → RvArch → ℕ → Type 0
EvenAddress pc a imm =
    (wrapping_add (word_mod a) pc imm < word_mod a) × (wrapping_add (word_mod a) pc imm % 2 ≡ 0)

pub j_imm-even : (a : RvArch) (pc w : ℕ) → pc % 2 ≡ 0 → EvenAddress pc a (j_imm a w)
unfolding EvenAddress
j_imm-even rv32 pc w h = (omega arith, ground arith)
j_imm-even rv64 pc w h = (omega arith, ground arith)

pub b_imm-even : (a : RvArch) (pc w : ℕ) → pc % 2 ≡ 0 → EvenAddress pc a (b_imm a w)
unfolding EvenAddress
b_imm-even rv32 pc w h = (omega arith, ground arith)
b_imm-even rv64 pc w h = (omega arith, ground arith)

pub wrapped-lt : (a : RvArch) (x y : ℕ) → wrapping_add (word_mod a) x y < word_mod a
wrapped-lt rv32 x y = omega arith
wrapped-lt rv64 x y = omega arith

pub u_imm-is :
    (a : RvArch) (w : ℕ)
    → w < u32_mod
    → widen_signed u32_mod (word_mod a) (bit_and w 0xFFFF_F000) ≡ u_imm a w
u_imm-is a w h =
    ap (widen_signed u32_mod (word_mod a))
      (bit_and-high 12 w 0xF_FFFF ∙ ap (λ (x : ℕ). x * 2 ^ 12) (bit_and-mask 20 (w / 2 ^ 12)))

pub len-li_abs : (a : RvArch) (rd v : ℕ) → len (li_abs a rd v) ≡ literal_skip a + 4
unfolding len li_abs le_bytes
len-li_abs rv32 rd v = refl
len-li_abs rv64 rd v = refl

pub len-branch_far : (a : RvArch) (instr d : ℕ) → len (branch_far a instr d) ≡ 4 + jmp_size a
unfolding len branch_far jmp_abs_bytes le_bytes
len-branch_far rv32 instr d = refl
len-branch_far rv64 instr d = refl

pub reg-set_other :
    (f : ℕ → ℕ) (p q v r : ℕ)
    → r ≢ 6
    → reg (record { pc = p; regs = set f 6 v }) r ≡ reg (record { pc = q; regs = f }) r
reg-set_other f p q v r h = ground arith

-- No link is left in register 0.
pub reg-linkless :
    (f : ℕ → ℕ) (p q d l k r rd : ℕ)
    → rd ≡ 0
    → r ≢ 6
    → reg (record { pc = p; regs = set (set f 6 d) 0 l }) r
      ≡ reg (record { pc = q; regs = set f rd k }) r
reg-linkless f p q d l k r rd none' h = ground arith

pub literal_room :
    (a : RvArch) (s : ℕ) → s + 24 < word_mod a → s + (literal_skip a + 4) < word_mod a
literal_room rv32 s h = omega arith
literal_room rv64 s h = omega arith

pub jump_room : (a : RvArch) (s : ℕ) → s + 24 < word_mod a → s + (4 + jmp_size a) < word_mod a
jump_room rv32 s h = omega arith
jump_room rv64 s h = omega arith

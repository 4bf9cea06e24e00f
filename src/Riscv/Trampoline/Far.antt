-- ===== src/Riscv/Trampoline/Far.antt =====
-- What the code that src/arch/riscv/trampoline/mod.rs puts in the place of a far branch does where it
-- stands.
use detour_rs.Base.{
  ℕ, suc, ◌+◌, ◌-◌, ◌*◌, ◌/◌, ◌^◌, ◌%◌, ◌≤◌, ◌<◌, ◌≡◌, refl, sym, subst, ap, ◌∙◌, ◌⊎◌, inl, inr,
  Bool, true, false, not, ◌==◌, some, List, ◌++◌, if◌then◌else◌, Bool-cases, arith,
}
use mathlib.Core.Bool.{not-not}
use detour_rs.Base.Bits.{bit_xor-1}
use detour_rs.Base.Fields.{bit_and-mask}
use detour_rs.Base.Memory.{Memory, Holds, Holds-behind, Holds-word_at, word_at}
use detour_rs.Base.Words.{le_bytes, u32_mod, widen_signed, wrapping_add}
use detour_rs.Error.{ok, ok-injective}
use detour_rs.Pic.{generate}
use detour_rs.Riscv.Defs.{RvArch, rv32, rv64, word_mod}
use detour_rs.Riscv.Thunk.{jmp_abs_bytes, encode_b_type, branch_far, jmp_size}
use detour_rs.Riscv.Thunk.Runs.{set_zero, cpu_eq, wrapped-exact, jmp_abs_bytes-runs}
use detour_rs.Riscv.Machine.{Cpu, set, reg, run, run-step, step, branch, bits, taken, compares}
use detour_rs.Riscv.Trampoline.Decode.{Fits, b_word}
use detour_rs.Riscv.Trampoline.Runs.{branch-instruction}

-- The condition of the other code of a pair.
abbrev pub inverse : ℕ → ℕ
inverse f = f + 1 - f % 2 * 2

taken-inverse : (a : RvArch) (f x y : ℕ) → taken a (inverse f) x y ≡ not (taken a f x y)
taken-inverse a f x y =
    let half : inverse f / 2 ≡ f / 2 = omega arith in
    elim (Bool-cases (f % 2 == 0)) [
      | inl even ↦ let odd : (inverse f % 2 == 0) ≡ false = ground arith in rw (even, odd, half)
      | inr odd ↦
          let even : (inverse f % 2 == 0) ≡ true = ground arith in
          rw (odd, even, half) (sym (not-not (compares a (f / 2) x y)))
    ]

-- The branch that skips the jump, and the jump behind it.
abbrev skip_word : RvArch → ℕ → ℕ
skip_word a instr =
    encode_b_type (inverse (bits 12 3 instr)) (bits 15 5 instr) (bits 20 5 instr) (4 + jmp_size a)

branch_far-words :
    (a : RvArch) (m : Memory) (s instr d : ℕ) (code : List ℕ)
    → generate (branch_far a instr d) s ≡ ok code
    → Holds m s code
    → (word_at m s 4 ≡ skip_word a instr) × Holds m (s + 4) (jmp_abs_bytes a 0 d)
unfolding generate branch_far le_bytes
branch_far-words a m s instr d code h held =
    let w = skip_word a instr in
    let (lt, opcode, f, r1, r2, fields) =
      b_word (inverse (bits 12 3 instr)) (bits 15 5 instr) (bits 20 5 instr) (4 + jmp_size a) w
        (omega arith) (omega arith) (omega arith) refl in
    let here : le_bytes 4 w ++ jmp_abs_bytes a 0 d ≡ code =
      rw
        (
          sym (bit_and-mask 5 (instr / 2 ^ 15)),
          sym (bit_and-mask 5 (instr / 2 ^ 20)),
          sym (bit_xor-1 (bits 12 3 instr) (omega arith)),
          sym (bit_and-mask 3 (instr / 2 ^ 12)),
        )
        (ok-injective h) in
    let (h1, h2) =
      Holds-behind m s (s + 4) 4 w (jmp_abs_bytes a 0 d) (omega arith)
        (subst (Holds m s) (sym here) held) in
    (Holds-word_at m s 4 w lt h1, h2)

jump-Fits : (a : RvArch) → Fits 0x1000 (4 + jmp_size a)
jump-Fits rv32 = (omega arith, omega arith, inl (omega arith))
jump-Fits rv64 = (omega arith, omega arith, inl (omega arith))

skipped_jump :
    (a : RvArch) (s : ℕ)
    → s + (4 + jmp_size a) < word_mod a
    → wrapping_add (word_mod a) s (widen_signed u32_mod (word_mod a) (4 + jmp_size a))
      ≡ s + (4 + jmp_size a)
skipped_jump rv32 s h = omega arith
skipped_jump rv64 s h = omega arith

jmp_size-le : (a : RvArch) → 16 ≤ jmp_size a
jmp_size-le rv32 = omega arith
jmp_size-le rv64 = omega arith

-- A branch that is not taken is skipped in one instruction, and one that is taken enters its
-- destination in four, with the destination in t1.
pub branch_far-runs :
    (a : RvArch) (m : Memory) (c : Cpu) (instr d : ℕ) (code : List ℕ)
    → (bits 12 3 instr / 2 == 1) ≡ false
    → d < word_mod a
    → d % 2 ≡ 0
    → c.pc + (4 + jmp_size a) < word_mod a
    → generate (branch_far a instr d) c.pc ≡ ok code
    → Holds m c.pc code
    → ((taken a (bits 12 3 instr) (reg c (bits 15 5 instr)) (reg c (bits 20 5 instr)) ≡ false)
        × (run a m 1 c ≡ some (record { pc = c.pc + (4 + jmp_size a); regs = c.regs })))
      ⊎ ((taken a (bits 12 3 instr) (reg c (bits 15 5 instr)) (reg c (bits 20 5 instr)) ≡ true)
          × (run a m 4 c ≡ some (record { pc = d; regs = set c.regs 6 d })))
branch_far-runs a m c instr d code known hd even room h held =
    let f = bits 12 3 instr in
    let x = reg c (bits 15 5 instr) in
    let y = reg c (bits 20 5 instr) in
    let (w1, behind) = branch_far-words a m c.pc instr d code h held in
    let skip = widen_signed u32_mod (word_mod a) (4 + jmp_size a) in
    let small = jmp_size-le a in
    let first : (n : ℕ)
        → run a m (suc n) c
          ≡ run a m n (step a m (branch (inverse f) (bits 15 5 instr) (bits 20 5 instr) skip) c) =
      λ n.
        run-step a m n (skip_word a instr)
          (branch (inverse f) (bits 15 5 instr) (bits 20 5 instr) skip) c w1
          (branch-instruction a (inverse f) (bits 15 5 instr) (bits 20 5 instr) (4 + jmp_size a)
            (omega arith) (ground arith) (omega arith) (omega arith) (jump-Fits a)) in
    elim (Bool-cases (taken a f x y)) [
      | inl yes_taken ↦
          let c1 : Cpu = record { pc = c.pc + 4; regs = c.regs } in
          let other : taken a (inverse f) x y ≡ false = taken-inverse a f x y ∙ ap not yes_taken in
          let s1 : step a m (branch (inverse f) (bits 15 5 instr) (bits 20 5 instr) skip) c ≡ c1 =
            cpu_eq
              (ap (λ (t : Bool). wrapping_add (word_mod a) c.pc (if t then skip else 4)) other
                ∙ wrapped-exact a c.pc 4 (omega arith))
              refl in
          inr (
            yes_taken,
            first 3
                ∙ ap (run a m 3) s1
                ∙ jmp_abs_bytes-runs a m c1 0 d (omega arith) hd even (omega arith) behind
                ∙ ap some (cpu_eq refl (set_zero (set c.regs 6 d) (c.pc + 4 + 12))),
          )
      | inr not_taken ↦
          let other : taken a (inverse f) x y ≡ true = taken-inverse a f x y ∙ ap not not_taken in
          inl (
            not_taken,
            first 0
                ∙ ap some (
                    cpu_eq
                      (ap (λ (t : Bool). wrapping_add (word_mod a) c.pc (if t then skip else 4))
                          other
                        ∙ skipped_jump a c.pc room)
                      refl),
          )
    ]

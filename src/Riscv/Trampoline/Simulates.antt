-- ===== src/Riscv/Trampoline/Simulates.antt =====
-- The code that `process` of src/arch/riscv/trampoline/mod.rs puts in the place of an instruction does
-- what the instruction does at its own address.
use detour_rs.Base.{
  ℕ, ◌+◌, ◌/◌, ◌%◌, ◌<◌, ◌≡◌, refl, sym, subst, ap, ◌∙◌, ◌≢◌, ◌⊎◌, inl, inr, Bool, false, ◌==◌,
  some, none, List, if◌then◌else◌, bit_and, Bool-cases, arith,
}
use detour_rs.Base.Memory.{Memory, Holds}
use detour_rs.Base.Words.{u32_mod, wrapping_add}
use detour_rs.Error.{ok, ok-injective}
use detour_rs.Pic.{generate}
use detour_rs.Arch.Fixed.{Builder, Processed}
use detour_rs.Riscv.Defs.{RvArch, word_mod}
use detour_rs.Riscv.Thunk.{jmp_abs, jmp_abs_rd, li_abs, branch_far, literal_skip, jmp_size}
use detour_rs.Riscv.Thunk.Runs.{jmp_abs_bytes-runs}
use detour_rs.Riscv.Machine.{
  Cpu, set, reg, run, step, instruction, Instruction, auipc, jal, branch, bits, j_imm, b_imm, u_imm,
}
use detour_rs.Riscv.Trampoline.{process, displaced, decode_j_type, decode_b_type, register}
use detour_rs.Riscv.Trampoline.Decode.{decode-imm}
use detour_rs.Riscv.Trampoline.Emitted.{
  Emitted, plain, tracks, returns, jumps_inside, jumps, calls, addresses, branches, process-Emitted,
  register_is,
}
use detour_rs.Riscv.Trampoline.Fields.{
  instruction-jal, instruction-auipc, instruction-branch, instruction-reserved, EvenAddress,
  j_imm-even, b_imm-even, wrapped-lt, u_imm-is, len-li_abs, len-branch_far, reg-set_other,
  reg-linkless, literal_room, jump_room,
}
use detour_rs.Riscv.Trampoline.Runs.{li_abs-runs}
use detour_rs.Riscv.Trampoline.Far.{branch_far-runs}

-- The code of `size` bytes at the program counter of `c` comes to what an instruction at `pc` came to:
-- the same registers, but for t1, and the same place, or the code's end for the instruction's.
abbrev pub Simulates : RvArch → Memory → (size pc : ℕ) → Cpu → Cpu → Type 0
Simulates a m size pc c o =
    (n : ℕ) × (c' : Cpu) × (run a m n c ≡ some c')
    × ((r : ℕ) → r ≢ 6 → reg c' r ≡ reg o r)
    × ((c'.pc ≡ o.pc) ⊎ ((o.pc ≡ wrapping_add (word_mod a) pc 4) × (c'.pc ≡ c.pc + size)))

module _ (a : RvArch) (m : Memory) (instr : ℕ) (c : Cpu) (s : ℕ) (code : List ℕ)
    (small : instr < u32_mod) (even : c.pc % 2 ≡ 0) (room : s + 24 < word_mod a)
    (held : Holds m s code) where
  abbrev there : Cpu
  there = record { pc = s; regs = c.regs }

  jumps-Simulates :
      bits 7 5 instr ≡ 0
      → generate (jmp_abs a (displaced a c.pc (decode_j_type instr))) s ≡ ok code
      → (size : ℕ)
      → Simulates a m size c.pc there (step a m (jal (bits 7 5 instr) (j_imm a instr)) c)
  unfolding generate jmp_abs jmp_abs_rd
  jumps-Simulates rd h size =
      let d = displaced a c.pc (decode_j_type instr) in
      let dest : d ≡ wrapping_add (word_mod a) c.pc (j_imm a instr) =
        ap (wrapping_add (word_mod a) c.pc) (decode-imm a instr).0 in
      let (lt, even_dest) =
        subst (λ x. (x < word_mod a) × (x % 2 ≡ 0)) (sym dest)
          (unfold EvenAddress in j_imm-even a c.pc instr even) in
      (
        3,
        record { pc = d; regs = set (set c.regs 6 d) 0 (s + 12) },
        jmp_abs_bytes-runs a m there 0 d (omega arith) lt even_dest (omega arith)
            (subst (Holds m s) (sym (ok-injective h)) held),
        (λ r other. reg-linkless c.regs d d d (s + 12) _ r (bits 7 5 instr) rd other),
        inl dest,
      )

  addresses-Simulates :
      bits 7 5 instr ≢ 0
      → generate (li_abs a (register instr) (displaced a c.pc (bit_and instr 0xFFFF_F000))) s
        ≡ ok code
      → Simulates a m
          (literal_skip a + 4)
          c.pc
          there
          (step a m (auipc (bits 7 5 instr) (u_imm a instr)) c)
  addresses-Simulates rd h =
      let v = displaced a c.pc (bit_and instr 0xFFFF_F000) in
      let value : v ≡ wrapping_add (word_mod a) c.pc (u_imm a instr) =
        ap (wrapping_add (word_mod a) c.pc) (u_imm-is a instr small) in
      let generated : generate (li_abs a (bits 7 5 instr) v) s ≡ ok code =
        subst (λ r. generate (li_abs a r v) s ≡ ok code) (register_is instr) h in
      (
        2,
        record { pc = s + (literal_skip a + 4); regs = set c.regs (bits 7 5 instr) v },
        li_abs-runs a m there (bits 7 5 instr) v code (omega arith) rd (wrapped-lt a c.pc _)
            (literal_room a s room) generated held,
        (λ r other.
            ap (λ x. reg (record { pc = s; regs = set c.regs (bits 7 5 instr) x }) r) value),
        inr (refl, refl),
      )

  abbrev the_branch : Instruction
  the_branch = branch (bits 12 3 instr) (bits 15 5 instr) (bits 20 5 instr) (b_imm a instr)

  branches-Simulates :
      (bits 12 3 instr / 2 == 1) ≡ false
      → generate (branch_far a instr (displaced a c.pc (decode_b_type instr))) s ≡ ok code
      → Simulates a m (4 + jmp_size a) c.pc there (step a m the_branch c)
  branches-Simulates known h =
      let d = displaced a c.pc (decode_b_type instr) in
      let dest : d ≡ wrapping_add (word_mod a) c.pc (b_imm a instr) =
        ap (wrapping_add (word_mod a) c.pc) (decode-imm a instr).1 in
      let (lt, even_dest) =
        subst (λ x. (x < word_mod a) × (x % 2 ≡ 0)) (sym dest)
          (unfold EvenAddress in b_imm-even a c.pc instr even) in
      elim (branch_far-runs a m there instr d code known lt even_dest (jump_room a s room) h held) [
        | inl (stays, ran) ↦ (
          1,
          record { pc = s + (4 + jmp_size a); regs = c.regs },
          ran,
          (λ r other. refl),
          inr (
            ap (λ (t : Bool). wrapping_add (word_mod a) c.pc (if t then b_imm a instr else 4))
                stays,
            refl,
          ),
        )
        | inr (leaves, ran) ↦ (
          4,
          record { pc = d; regs = set c.regs 6 d },
          ran,
          (λ r other. reg-set_other c.regs d d d r other),
          inl (
              dest
              ∙ ap (λ (t : Bool). wrapping_add (word_mod a) c.pc (if t then b_imm a instr else 4))
                  (sym leaves)),
        )
      ]

-- The same, of the instruction that the word is, and of the thunk's length.
same-Simulates :
    (a : RvArch) (m : Memory) (instr size size' pc : ℕ) (c there : Cpu) (i j : Instruction)
    → instruction a instr ≡ some i
    → instruction a instr ≡ some j
    → size' ≡ size
    → Simulates a m size pc there (step a m j c)
    → Simulates a m size' pc there (step a m i c)
same-Simulates a m instr size size' pc c there i j is makes e h =
    let whole : some j ≡ some i = sym makes ∙ is in
    let same : j ≡ i = cc in
    subst (λ k. Simulates a m size' pc there (step a m k c)) same
      (subst (λ n. Simulates a m n pc there (step a m j c)) (sym e) h)

-- A result of `process` that replaces the instruction simulates it.
Emitted-Simulates :
    (a : RvArch) (m : Memory) {b : Builder} (instr : ℕ) (i : Instruction) (c : Cpu) {p : Processed}
    (s : ℕ) (code : List ℕ)
    → Emitted a b instr c.pc p
    → instruction a instr ≡ some i
    → p.size ≢ 4
    → (bits 0 7 instr ≡ 0x6F → bits 7 5 instr ≡ 0)
    → (bits 0 7 instr ≡ 0x17 → bits 7 5 instr ≢ 0)
    → instr < u32_mod
    → c.pc % 2 ≡ 0
    → s + 24 < word_mod a
    → generate p.thunk s ≡ ok code
    → Holds m s code
    → Simulates a m p.size c.pc (record { pc = s; regs = c.regs }) (step a m i c)
Emitted-Simulates a m instr i c s code plain is grows no_call no_hint small even room h held =
    absurd (grows refl)
Emitted-Simulates a m instr i c s code (tracks dest) is grows no_call no_hint small even room h
      held =
    absurd (grows refl)
Emitted-Simulates a m instr i c s code (returns o r) is grows no_call no_hint small even room h
      held =
    absurd (grows refl)
Emitted-Simulates a m instr i c s code (jumps_inside dest o r) is grows no_call no_hint small even
      room h held =
    absurd (grows refl)
Emitted-Simulates a m instr i c s code (jumps o r) is grows no_call no_hint small even room h held =
    same-Simulates a m instr _ _ c.pc c _ i _ is (instruction-jal a instr o) refl
      (jumps-Simulates a m instr c s code small even room held r h _)
Emitted-Simulates a m instr i c s code (calls o r) is grows no_call no_hint small even room h held =
    absurd (r (no_call o))
Emitted-Simulates a m instr i c s code (addresses o) is grows no_call no_hint small even room h
      held =
    same-Simulates a m instr _ _ c.pc c _ i _ is (instruction-auipc a instr o)
      (len-li_abs a (register instr) (displaced a c.pc (bit_and instr 0xFFFF_F000)))
      (addresses-Simulates a m instr c s code small even room held (no_hint o) h)
Emitted-Simulates a m instr i c s code (branches o) is grows no_call no_hint small even room h
      held =
    elim (Bool-cases (bits 12 3 instr / 2 == 1)) [
      | inl reserved ↦
          let c : some i ≡ none = sym is ∙ instruction-reserved a instr o reserved in cc
      | inr known ↦
          same-Simulates a m instr _ _ c.pc c _ i _ is (instruction-branch a instr o known)
            (len-branch_far a instr (displaced a c.pc (decode_b_type instr)))
            (branches-Simulates a m instr c s code small even room held known h)
    ]

-- The code that replaces an instruction, where it stands in memory with 24 bytes of room, does what
-- the instruction does at its own, even address: it leaves the same registers but for t1, and goes
-- where the instruction goes, or to its own end where the instruction goes to the next one. The
-- instruction is replaced (not copied), it is no call, and an AUIPC is not into register 0.
pub process-Simulates :
    (a : RvArch) (m : Memory) (b : Builder) (instr : ℕ) (i : Instruction) (p : Processed) (c : Cpu)
    (s : ℕ) (code : List ℕ)
    → process a b instr c.pc ≡ ok p
    → instruction a instr ≡ some i
    → p.size ≢ 4
    → (bits 0 7 instr ≡ 0x6F → bits 7 5 instr ≡ 0)
    → (bits 0 7 instr ≡ 0x17 → bits 7 5 instr ≢ 0)
    → instr < u32_mod
    → c.pc % 2 ≡ 0
    → s + 24 < word_mod a
    → generate p.thunk s ≡ ok code
    → Holds m s code
    → Simulates a m p.size c.pc (record { pc = s; regs = c.regs }) (step a m i c)
process-Simulates a m b instr i p c s code h is grows no_call no_hint small even room gen held =
    Emitted-Simulates a m instr i c s code (process-Emitted a b instr c.pc p h) is grows no_call
      no_hint small even room gen held

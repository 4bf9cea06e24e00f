-- ===== src/Aarch64/Trampoline/Relocated.antt =====
-- The code that `process` of src/arch/aarch64/trampoline/mod.rs emits for a kind of instruction, run by
-- the description of the processor.
use detour_rs.Base.{
  ℕ, ◌+◌, ◌*◌, ◌/◌, ◌^◌, ◌%◌, ◌<◌, ◌≡◌, refl, sym, subst, ap, ◌∙◌, ◌≢◌, ◌⊎◌, inl, inr, Bool, true,
  false, not, ◌==◌, some, List, if◌then◌else◌, bit_or, bit_and, arith,
}
use detour_rs.Base.Memory.{Memory, Holds}
use detour_rs.Base.Words.{wrapping_add}
use detour_rs.Error.{ok, ok-injective}
use detour_rs.Pic.{generate}
use detour_rs.Arch.{aarch64, usize_mod}
use detour_rs.Aarch64.Thunk.{jmp_abs, mov_imm64}
use detour_rs.Aarch64.Thunk.Runs.{encode_mov_imm64-runs}
use detour_rs.Aarch64.Thunk.Jump.{jump_bytes-runs}
use detour_rs.Aarch64.Thunk.Far.{cbz_far-runs, tbz_far-runs}
use detour_rs.Aarch64.Machine.{
  Cpu, set, reg, run, step, instruction, Instruction, branch, cbz, tbz, bits, offset_of, decided,
  is_zero,
}
use detour_rs.Aarch64.Trampoline.Decode.{dest_26-is, dest_19-is, dest_14-is}
use detour_rs.Aarch64.Trampoline.Fields.{rt-is, rd-is, sf-is, negate-is, bit-is}
use detour_rs.Aarch64.Trampoline.Emitted.{dest_26, dest_19, dest_14, cbz_thunk, tbz_thunk}

-- The code of `size` bytes at the program counter of `c` comes to what an instruction at `pc` came to:
-- the same registers, but for X16, and the same place, or the code's end for the instruction's.
abbrev pub Simulates : Memory → (size pc : ℕ) → Cpu → Cpu → Type 0
Simulates m size pc c o =
    (n : ℕ) × (c' : Cpu) × (run m n c ≡ some c')
    × ((r : ℕ) → r ≢ 16 → reg c' r ≡ reg o r)
    × ((c'.pc ≡ o.pc) ⊎ ((o.pc ≡ wrapping_add (usize_mod aarch64) pc 4) × (c'.pc ≡ c.pc + size)))

reg-set_other :
    (f : ℕ → ℕ) (p q v r : ℕ)
    → r ≢ 16
    → reg (record { pc = p; regs = set f 16 v }) r ≡ reg (record { pc = q; regs = f }) r
reg-set_other f p q v r h = ground arith

-- The same, of the instruction that the word is.
pub same-Simulates :
    (m : Memory) (instr size pc : ℕ) (c there : Cpu) (i j : Instruction)
    → instruction instr ≡ some i
    → instruction instr ≡ some j
    → Simulates m size pc there (step m j c)
    → Simulates m size pc there (step m i c)
same-Simulates m instr size pc c there i j is makes h =
    let whole : some j ≡ some i = sym makes ∙ is in
    let same : j ≡ i = cc in subst (λ k. Simulates m size pc there (step m k c)) same h

-- A far branch on `t`, from what its code does on either answer.
branch-Simulates :
    (m : Memory) (c : Cpu) (s d : ℕ) (t : Bool) (offset : ℕ)
    → d ≡ wrapping_add (usize_mod aarch64) c.pc offset
    → ((t ≡ false)
        × (run m 1 (record { pc = s; regs = c.regs })
            ≡ some (record { pc = s + 20; regs = c.regs })))
      ⊎ ((t ≡ true)
          × (run m 3 (record { pc = s; regs = c.regs })
              ≡ some (record { pc = d; regs = set c.regs 16 d })))
    → Simulates m 20 c.pc
        (record { pc = s; regs = c.regs })
        (record {
          pc = wrapping_add (usize_mod aarch64) c.pc (if t then offset else 4);
          regs = c.regs;
        })
branch-Simulates m c s d t offset e (inl (stays, ran)) = (
  1,
  record { pc = s + 20; regs = c.regs },
  ran,
  (λ r other. refl),
  inr (
    ap (λ (u : Bool). wrapping_add (usize_mod aarch64) c.pc (if u then offset else 4)) stays,
    refl,
  ),
)
branch-Simulates m c s d t offset e (inr (goes, ran)) = (
  3,
  record { pc = d; regs = set c.regs 16 d },
  ran,
  (λ r other. reg-set_other c.regs d d d r other),
  inl (
      e
      ∙ ap (λ (u : Bool). wrapping_add (usize_mod aarch64) c.pc (if u then offset else 4))
          (sym goes)),
)

module _ (m : Memory) (instr : ℕ) (c : Cpu) (s : ℕ) (code : List ℕ) (small : instr < 2 ^ 32)
    (room : s + 20 < usize_mod aarch64) (held : Holds m s code) where
  abbrev there : Cpu
  there = record { pc = s; regs = c.regs }

  pub jumps-Simulates :
      generate (jmp_abs (dest_26 instr c.pc)) s ≡ ok code
      → Simulates m 16 c.pc there (step m (branch (offset_of 0x400_0000 4 (bits 0 26 instr))) c)
  unfolding generate jmp_abs
  jumps-Simulates h =
      let d = dest_26 instr c.pc in
      (
        2,
        record { pc = d; regs = set c.regs 16 d },
        jump_bytes-runs m there d (omega arith) (omega arith)
            (subst (Holds m s) (sym (ok-injective h)) held),
        (λ r other. reg-set_other c.regs d d d r other),
        inl (dest_26-is instr c.pc),
      )

  pub cbzs-Simulates :
      generate (cbz_thunk instr c.pc) s ≡ ok code
      → Simulates m 20 c.pc there (
          step m
            (cbz
              (bits 31 1 instr)
              (bits 24 1 instr)
              (bits 0 5 instr)
              (offset_of 0x8_0000 4 (bits 5 19 instr)))
            c)
  cbzs-Simulates h =
      branch-Simulates m c s (dest_19 instr c.pc)
        (decided (bits 24 1 instr) (is_zero (bits 31 1 instr) (reg c (bits 0 5 instr))))
        (offset_of 0x8_0000 4 (bits 5 19 instr)) (dest_19-is instr c.pc)
        (rw (sf-is instr small, negate-is instr, rt-is instr) at
          (cbz_far-runs m there (bit_and (instr % 256) 0x1F) (not (instr / 2 ^ 31 == 0))
            (not (bit_and instr 0x0100_0000 == 0)) (dest_19 instr c.pc) code
            (omega (arith, rt-is instr)) (omega arith) room h held))

  pub tbzs-Simulates :
      generate (tbz_thunk instr c.pc) s ≡ ok code
      → Simulates m 20 c.pc there (
          step m
            (tbz
              (bits 31 1 instr * 32 + bits 19 5 instr)
              (bits 24 1 instr)
              (bits 0 5 instr)
              (offset_of 0x4000 4 (bits 5 14 instr)))
            c)
  tbzs-Simulates h =
      let bit = bits 31 1 instr * 32 + bits 19 5 instr in
      branch-Simulates m c s (dest_14 instr c.pc)
        (decided (bits 24 1 instr) (bits bit 1 (reg c (bits 0 5 instr)) == 0))
        (offset_of 0x4000 4 (bits 5 14 instr)) (dest_14-is instr c.pc)
        (rw (negate-is instr, rt-is instr, bit-is instr) at
          (tbz_far-runs m there (bit_and (instr % 256) 0x1F)
            (bit_or (bit_and (instr / 2 ^ 31) 1 * 2 ^ 5) (bit_and (instr / 2 ^ 19) 0x1F) % 256)
            (not (bit_and instr 0x0100_0000 == 0)) (dest_14 instr c.pc) code
            (omega (arith, rt-is instr)) (omega (arith, bit-is instr)) (omega arith) room h held))

  pub value-Simulates :
      (v : ℕ)
      → v < usize_mod aarch64
      → bits 0 5 instr ≢ 31
      → generate (mov_imm64 (bit_and instr 0x1F) v) s ≡ ok code
      → Simulates m 16 c.pc there (record {
        pc = wrapping_add (usize_mod aarch64) c.pc 4;
        regs = set c.regs (bits 0 5 instr) v;
      })
  unfolding generate mov_imm64
  value-Simulates v lt other h = (
    4,
    record { pc = s + 16; regs = set c.regs (bits 0 5 instr) v },
    encode_mov_imm64-runs m there (bits 0 5 instr) v (omega arith) other lt (omega arith)
        (subst (Holds m s) (sym (rw (rd-is instr) at (ok-injective h))) held),
    (λ r h. refl),
    inr (refl, refl),
  )

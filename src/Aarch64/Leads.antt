-- ===== src/Aarch64/Leads.antt =====
-- Where a target leads once the patch of src/arch/aarch64/patcher.rs is switched on.
use detour_rs.Base.{
  ℕ, ◌+◌, ◌-◌, ◌/◌, ◌^◌, ◌%◌, ◌≤◌, ◌<◌, ◌≡◌, refl, subst, ap, ◌∙◌, ◌⊎◌, inl, inr, true, some, none,
  bit_and, arith,
}
use detour_rs.Base.Fields.{bit_or-sum, bit_and-mask}
use detour_rs.Base.Memory.{Memory, Holds, Holds-word_at}
use detour_rs.Base.Words.{le_bytes, u32_mod, wrapping_add, wrapping_sub}
use detour_rs.Error.{ok}
use detour_rs.Arch.{aarch64, usize_mod, is_within_range}
use detour_rs.Arch.Patch.{Patcher, toggle}
use detour_rs.Arch.Patch.Made.{toggle-Holds}
use detour_rs.Aarch64.Thunk.{relay_builder}
use detour_rs.Aarch64.Thunk.Runs.{cpu_eq}
use detour_rs.Aarch64.Patcher.{make, branch_bytes}
use detour_rs.Aarch64.Patch.{make-IsSized}
use detour_rs.Aarch64.Machine.{Cpu, run, run-step, instruction, branch, bits, offset_of}

abbrev pub displacement : (from to : ℕ) → ℕ
displacement from to = wrapping_sub (usize_mod aarch64) to from

abbrev imm26 : ℕ → ℕ
imm26 d = d / 4 % 2 ^ 26

branch_bytes-word :
    (from to : ℕ) → branch_bytes from to ≡ le_bytes 4 (0x1400_0000 + imm26 (displacement from to))
unfolding branch_bytes
branch_bytes-word from to =
    let d = displacement from to in
    let e = bit_or-sum 26 0x1400_0000 (imm26 d) (omega arith) (omega arith) in
    let f : bit_and (d / 4 % u32_mod) 0x03FF_FFFF ≡ imm26 d =
      bit_and-mask 26 (d / 4 % u32_mod) ∙ omega arith in
    rw (f, e)

branch-instruction :
    (n : ℕ) → n < 2 ^ 26 → instruction (0x1400_0000 + n) ≡ some (branch (offset_of 0x400_0000 4 n))
unfolding instruction
branch-instruction n h =
    let w = 0x1400_0000 + n in
    let o : bits 26 6 w ≡ 5 = omega arith in let i : bits 0 26 w ≡ n = omega arith in rw (o, i) refl

-- Displacements that need no relay.
abbrev pub Near : ℕ → Type 0
Near d = (d < 0x800_0000) ⊎ (usize_mod aarch64 - 0x800_0000 ≤ d)

relay_builder-Near :
    (target detour : ℕ) → relay_builder target detour ≡ none → Near (displacement target detour)
unfolding relay_builder is_within_range
relay_builder-Near target detour h = ground arith

landing :
    (from to : ℕ)
    → from < usize_mod aarch64
    → to < usize_mod aarch64
    → displacement from to % 4 ≡ 0
    → Near (displacement from to)
    → wrapping_add (usize_mod aarch64) from (offset_of 0x400_0000 4 (imm26 (displacement from to)))
      ≡ to
landing from to hf ht aligned (inl near) = ground arith
landing from to hf ht aligned (inr near) = ground arith

-- The patch alone leads to its destination, an aligned address in the reach of a branch.
pub patched-runs :
    (m m' hooked : Memory) (c : Cpu) (to size : ℕ) (p : Patcher)
    → make m c.pc to size ≡ ok p
    → toggle m' p true ≡ ok hooked
    → c.pc < usize_mod aarch64
    → to < usize_mod aarch64
    → displacement c.pc to % 4 ≡ 0
    → Near (displacement c.pc to)
    → run hooked 1 c ≡ some (record { pc = to; regs = c.regs })
patched-runs m m' hooked c to size p made on hp hto aligned near =
    let n = imm26 (displacement c.pc to) in
    let held = subst (Holds hooked c.pc) (branch_bytes-word c.pc to) (
      toggle-Holds m m' hooked c.pc 4 (branch_bytes c.pc to) p (make-IsSized m c.pc to size p made)
        on) in
    let here = Holds-word_at hooked c.pc 4 (0x1400_0000 + n) (omega arith) held in
    run-step hooked 0 (0x1400_0000 + n) (branch (offset_of 0x400_0000 4 n)) c here
      (branch-instruction n (omega arith))
    ∙ ap some (cpu_eq (landing c.pc to hp hto aligned near) refl)

-- A patcher that is made for a detour at a multiple of four bytes from the target, near enough to need
-- no relay, and switched on, leads from the target to the detour in one instruction, and changes no
-- register.
pub toggled-leads :
    (m m' hooked : Memory) (c : Cpu) (detour size : ℕ) (p : Patcher)
    → make m c.pc detour size ≡ ok p
    → toggle m' p true ≡ ok hooked
    → relay_builder c.pc detour ≡ none
    → c.pc < usize_mod aarch64
    → detour < usize_mod aarch64
    → displacement c.pc detour % 4 ≡ 0
    → run hooked 1 c ≡ some (record { pc = detour; regs = c.regs })
toggled-leads m m' hooked c detour size p made on near hp hd aligned =
    patched-runs m m' hooked c detour size p made on hp hd aligned
      (relay_builder-Near c.pc detour near)

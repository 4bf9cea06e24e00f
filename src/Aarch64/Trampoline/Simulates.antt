-- ===== src/Aarch64/Trampoline/Simulates.antt =====
-- The code that `process` of src/arch/aarch64/trampoline/mod.rs puts in the place of an instruction
-- does what the instruction does at its own address.
use detour_rs.Base.{
  ℕ, ◌+◌, ◌*◌, ◌/◌, ◌^◌, ◌<◌, ◌≡◌, refl, sym, subst, ◌∙◌, ◌≢◌, ◌⊎◌, inl, inr, some, none, List,
  bit_and, arith,
}
use detour_rs.Base.Fields.{bit_and-high, bit_and-mask}
use detour_rs.Base.Memory.{Memory, Holds}
use detour_rs.Base.Words.{wrapping_add}
use detour_rs.Error.{ok}
use detour_rs.Pic.{generate}
use detour_rs.Arch.{aarch64, usize_mod}
use detour_rs.Arch.Fixed.{Builder, Processed}
use detour_rs.Aarch64.Thunk.{mov_imm64}
use detour_rs.Aarch64.Machine.{Cpu, step, instruction, Instruction, bits}
use detour_rs.Aarch64.Trampoline.{process}
use detour_rs.Aarch64.Trampoline.Decode.{adr_imm21-is, adr_page-is}
use detour_rs.Aarch64.Trampoline.Fields.{
  IsB-instruction, IsBl-instruction, IsCbz-instruction, IsTbz-instruction, IsAdr-instruction,
  IsAdrp-instruction,
}
use detour_rs.Aarch64.Trampoline.Emitted.{
  Emitted, copied, jumps, calls, cbzs, tbzs, adrs, adrps, loads, process-Emitted, IsLoad, IsAdr,
  IsAdrp,
}
use detour_rs.Aarch64.Trampoline.Relocated.{
  Simulates, same-Simulates, jumps-Simulates, cbzs-Simulates, tbzs-Simulates, value-Simulates,
}

page-is :
    (pc : ℕ) → pc < usize_mod aarch64 → bit_and pc 0xFFFF_FFFF_FFFF_F000 ≡ pc / 0x1000 * 0x1000
page-is pc h =
    let e = bit_and-high 12 pc 0xF_FFFF_FFFF_FFFF in
    let f = bit_and-mask 52 (pc / 2 ^ 12) in omega arith

-- A result of `process` that replaces the instruction simulates it.
Emitted-Simulates :
    (m : Memory) (instr : ℕ) (i : Instruction) (c : Cpu) {p : Processed} (s : ℕ) (code : List ℕ)
    → Emitted instr c.pc p
    → instruction instr ≡ some i
    → p.size ≢ 4
    → ¬ IsLoad instr
    → ((IsAdr instr ⊎ IsAdrp instr) → bits 0 5 instr ≢ 31)
    → instr < 2 ^ 32
    → c.pc < usize_mod aarch64
    → s + 20 < usize_mod aarch64
    → generate p.thunk s ≡ ok code
    → Holds m s code
    → Simulates m p.size c.pc (record { pc = s; regs = c.regs }) (step m i c)
Emitted-Simulates m instr i c s code (copied b t) is grows no_load no_zero small lt room h held =
    absurd (grows refl)
Emitted-Simulates m instr i c s code (jumps b o) is grows no_load no_zero small lt room h held =
    same-Simulates m instr 16 c.pc c _ i _ is (IsB-instruction instr o)
      (jumps-Simulates m instr c s code small room held h)
Emitted-Simulates m instr i c s code (calls b o) is grows no_load no_zero small lt room h held =
    let clash : some i ≡ none = sym is ∙ IsBl-instruction instr o in cc
Emitted-Simulates m instr i c s code (cbzs b o) is grows no_load no_zero small lt room h held =
    same-Simulates m instr 20 c.pc c _ i _ is (IsCbz-instruction instr o)
      (cbzs-Simulates m instr c s code small room held h)
Emitted-Simulates m instr i c s code (tbzs b o) is grows no_load no_zero small lt room h held =
    same-Simulates m instr 20 c.pc c _ i _ is (IsTbz-instruction instr o)
      (tbzs-Simulates m instr c s code small room held h)
Emitted-Simulates m instr i c s code (adrs b o) is grows no_load no_zero small lt room h held =
    same-Simulates m instr 16 c.pc c _ i _ is (IsAdr-instruction instr small o) (
      value-Simulates m instr c s code small room held _ (omega arith) (no_zero (inl o)) (
        subst
          (λ x.
            generate (mov_imm64 (bit_and instr 0x1F) (wrapping_add (usize_mod aarch64) c.pc x)) s
            ≡ ok code)
          (adr_imm21-is instr) h))
Emitted-Simulates m instr i c s code (adrps b o) is grows no_load no_zero small lt room h held =
    same-Simulates m instr 16 c.pc c _ i _ is (IsAdrp-instruction instr small o) (
      value-Simulates m instr c s code small room held _ (omega arith) (no_zero (inr o))
        (rw (page-is c.pc lt, adr_page-is instr) at h))
Emitted-Simulates m instr i c s code (loads p load) is grows no_load no_zero small lt room h held =
    absurd (no_load load)

-- The code that replaces an instruction, where it stands in memory with 20 bytes of room, does what
-- the instruction does at its own address: it leaves the same registers but for X16, and goes where
-- the instruction goes, or to its own end where the instruction goes to the next one. The instruction
-- is replaced (not copied), one of B, CBZ, CBNZ, TBZ, TBNZ, ADR and ADRP (no call and no literal load),
-- and an address is not loaded into register 31.
pub replaced-Simulates :
    (m : Memory) (b : Builder) (instr : ℕ) (i : Instruction) (p : Processed) (c : Cpu) (s : ℕ)
    (code : List ℕ)
    → process b instr c.pc ≡ ok p
    → instruction instr ≡ some i
    → p.size ≢ 4
    → ¬ IsLoad instr
    → ((IsAdr instr ⊎ IsAdrp instr) → bits 0 5 instr ≢ 31)
    → instr < 2 ^ 32
    → c.pc < usize_mod aarch64
    → s + 20 < usize_mod aarch64
    → generate p.thunk s ≡ ok code
    → Holds m s code
    → Simulates m p.size c.pc (record { pc = s; regs = c.regs }) (step m i c)
replaced-Simulates m b instr i p c s code h is grows no_load no_zero small lt room gen held =
    Emitted-Simulates m instr i c s code (process-Emitted b instr c.pc p h) is grows no_load no_zero
      small lt room gen held

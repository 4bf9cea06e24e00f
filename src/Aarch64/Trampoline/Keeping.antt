-- ===== src/Aarch64/Trampoline/Keeping.antt =====
-- The loop of the builder can stand on `process` of src/arch/aarch64/trampoline/mod.rs.
use detour_rs.Base.{ℕ, ◌≡◌, ◌⊎◌, inl, inr, true, ◌==◌, bit_and}
use detour_rs.Base.Memory.{Memory}
use detour_rs.Arch.Fixed.{Builder}
use detour_rs.Arch.Fixed.Rounds.{Keeps}
use detour_rs.Arch.Fixed.Fair.{Fair, fair_rules, Fair-Keeps}
use detour_rs.Aarch64.Trampoline.{isa, process, process_b, process_cbz, process_tbz, process_ldr}

-- B and RET.
abbrev pub Terminator : ℕ → Type 0
Terminator instr =
    ((bit_and instr 0xFC00_0000 == 0x1400_0000) ≡ true)
    ⊎ ((bit_and instr 0xFFFF_FC1F == 0xD65F_0000) ≡ true)

process_b-Fair : {T : Type 0} (b : Builder) (instr pc : ℕ) → T → Fair T b (process_b b instr pc)
unfolding process_b
process_b-Fair b instr pc stop = search fair_rules

process_cbz-Fair : {T : Type 0} (b : Builder) (instr pc : ℕ) → Fair T b (process_cbz b instr pc)
unfolding process_cbz
process_cbz-Fair b instr pc = search fair_rules

process_tbz-Fair : {T : Type 0} (b : Builder) (instr pc : ℕ) → Fair T b (process_tbz b instr pc)
unfolding process_tbz
process_tbz-Fair b instr pc = search fair_rules

process_ldr-Fair : {T : Type 0} (b : Builder) (instr pc : ℕ) → Fair T b (process_ldr b instr pc)
unfolding process_ldr
process_ldr-Fair b instr pc = search fair_rules

process-Fair : (b : Builder) (instr pc : ℕ) → Fair (Terminator instr) b (process b instr pc)
unfolding process
process-Fair b instr pc =
    search
      (fair_rules, process_b-Fair, process_cbz-Fair, process_tbz-Fair, process_ldr-Fair, inl, inr)
      depth 12

pub isa-Keeps : (memory : Memory) → Keeps isa memory Terminator
isa-Keeps memory = Fair-Keeps isa memory Terminator process-Fair

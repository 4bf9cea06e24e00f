-- ===== src/Arm/Trampoline/Keeping.antt =====
-- The loop of the builder can stand on `process` of src/arch/arm/trampoline/mod.rs.
use detour_rs.Base.{ℕ, ◌≡◌, true}
use detour_rs.Base.Memory.{Memory}
use detour_rs.Arch.Fixed.{Builder}
use detour_rs.Arch.Fixed.Rounds.{Keeps}
use detour_rs.Arch.Fixed.Fair.{Fair, fair_rules, Fair-Keeps}
use detour_rs.Arm.Trampoline.{isa, process, process_branch, is_return}

-- What leaves the function if its condition holds.
abbrev pub Terminator : ℕ → Type 0
Terminator instr = is_return instr ≡ true

process_branch-Fair :
    (b : Builder) (instr pc : ℕ) → Fair (Terminator instr) b (process_branch b instr pc)
unfolding process_branch
process_branch-Fair b instr pc = search fair_rules

process-Fair : (b : Builder) (instr pc : ℕ) → Fair (Terminator instr) b (process b instr pc)
unfolding process
process-Fair b instr pc = search (fair_rules, process_branch-Fair) depth 7

pub isa-Keeps : (memory : Memory) → Keeps isa memory Terminator
isa-Keeps memory = Fair-Keeps isa memory Terminator process-Fair

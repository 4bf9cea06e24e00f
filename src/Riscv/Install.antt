-- ===== src/Riscv/Install.antt =====
-- src/arch/detour.rs with the architecture of src/arch/riscv: from `Detour::new` to a target that
-- leads to the detour.
use detour_rs.Base.{ℕ, ◌+◌, ◌%◌, ◌<◌, ◌≡◌, true, Option, none, some}
use detour_rs.Base.Memory.{Memory}
use detour_rs.Error.{Result, ok, panic}
use detour_rs.Arch.Fixed.{Trampoline}
use detour_rs.Arch.Patch.{Slice, Patcher, IsSized}
use detour_rs.Arch.Patch
use detour_rs.Riscv.Defs.{RvArch, target_arch, word_mod}
use detour_rs.Riscv.Machine.{run}
use detour_rs.Riscv.Thunk
use detour_rs.Riscv.Patcher
use detour_rs.Riscv.Trampoline as Prolog
use detour_rs.Detour.{Architecture, Detour, toggle}
use detour_rs.Detour
use detour_rs.Detour.Made.{Apart}

-- The loop of the builder always ends, so no result is left out.
abbrev ended : Option (Result Trampoline) → Result Trampoline
ended none = panic
ended (some r) = r

abbrev pub riscv : RvArch → Architecture
riscv a = record {
  arch = target_arch a;
  Trampoline = Trampoline;
  prolog_margin = Thunk.prolog_margin;
  new_trampoline = λ m target margin. ended (Prolog.make a m target margin);
  prolog_size = λ t. t.prolog_size;
  emitter = λ t. t.emitter;
  relay_builder = λ target detour. ok (Thunk.relay_builder a target detour);
  new_patcher = λ m target detour size. Patcher.make m a target detour size;
}

-- A relay lies at an even address with room for its code, apart from what is written after it.
abbrev pub IsPlaced : RvArch → (trampoline area : Slice) → Option Slice → Type 0
IsPlaced a trampoline area none = Unit {0}
IsPlaced a trampoline area (some s) =
    (s.as_ptr % 2 ≡ 0) × (s.as_ptr + 12 < word_mod a) × Apart trampoline s × Apart area s

abbrev Leads : RvArch → (target detour : ℕ) → Memory → Patcher → Type 0
Leads a target detour m p =
    (hooked : Memory) × (Patch.toggle m p true ≡ ok hooked)
    × ((regs : ℕ → ℕ)
        → (n : ℕ) × (f : ℕ → ℕ) × (run a hooked n (record { pc = target; regs = regs })
            ≡ some (record { pc = detour; regs = f })))

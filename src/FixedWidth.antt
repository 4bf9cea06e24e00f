-- ===== src/FixedWidth.antt =====
-- The trampolines of src/arch/aarch64, src/arch/arm and src/arch/riscv, whose builders have the loop of
-- Arch/Fixed.antt.
pub mod Tests
use detour_rs.Base.{ℕ, ◌≡◌, some, Bool-cases, inl, inr, ◌==◌, bit_and, Option}
use detour_rs.Base.Memory.{Memory}
use detour_rs.Error.{Result, ok, err, unsupported_instruction}
use detour_rs.Arch.Fixed.{Trampoline, Isa, builder, build}
use detour_rs.Arch.Fixed.Rounds.{Keeps}
use detour_rs.Arch.Fixed.Ends.{PrologEnds, build-PrologEnds}
use detour_rs.Aarch64.Trampoline as Aarch64
use detour_rs.Aarch64.Trampoline.Keeping as Aarch64Keeping
use detour_rs.Arm.Trampoline as Arm
use detour_rs.Arm.Trampoline.Keeping as ArmKeeping
use detour_rs.Riscv.Defs.{RvArch}
use detour_rs.Riscv.Trampoline as Riscv
use detour_rs.Riscv.Trampoline.Emitted as RiscvKeeping

pub data FixedWidth : Type 0 where
  arm_64 arm_32 : FixedWidth
  risc_v : (a : RvArch) → FixedWidth

abbrev pub isa_of : FixedWidth → Isa
isa_of arm_64 = Aarch64.isa
isa_of arm_32 = Arm.isa
isa_of (risc_v a) = Riscv.isa a

-- Trampoline::new
abbrev pub make_of : FixedWidth → Memory → (target margin : ℕ) → Option (Result Trampoline)
make_of arm_64 m target margin = Aarch64.make m target margin
make_of arm_32 m target margin = Arm.make m target margin
make_of (risc_v a) m target margin = Riscv.make a m target margin

-- The instructions at which a prolog may be finished: B, which need not lead out of the prolog, and
-- RET; BX, MOV PC and a load of several registers with PC among them, under any condition; JAL and JALR
-- without a link register.
abbrev pub IsLast : FixedWidth → ℕ → Type 0
IsLast arm_64 = Aarch64Keeping.Terminator
IsLast arm_32 = ArmKeeping.Terminator
IsLast (risc_v a) = RiscvKeeping.Terminator

abbrev pub keeps_of : (w : FixedWidth) (m : Memory) → Keeps (isa_of w) m (IsLast w)
keeps_of arm_64 m = Aarch64Keeping.isa-Keeps m
keeps_of arm_32 m = ArmKeeping.isa-Keeps m
keeps_of (risc_v a) m = RiscvKeeping.isa-Keeps a m

-- A trampoline that could be made is one that the builder made.
make-build :
    (w : FixedWidth) (m : Memory) (target margin : ℕ) (t : Trampoline)
    → make_of w m target margin ≡ some (ok t)
    → build (isa_of w) m (builder target margin) ≡ some (ok t)
unfolding Aarch64.make Arm.make Riscv.make
make-build arm_64 m target margin t h = h
make-build arm_32 m target margin t h = elim (Bool-cases (bit_and target 1 == 0)) [
  | inl even ↦ rw even at h
  | inr odd ↦ let c : some (err unsupported_instruction) ≡ some (ok t) = rw odd at h in cc
]
make-build (risc_v a) m target margin t h = h

-- A trampoline that could be made on AArch64, ARM or RISC-V covers whole instructions, as many as
-- reach the margin and no more. Its last thunk jumps to the first byte behind them, and they cover
-- the margin; or its last thunk is what `process` makes of the last of them, at which it finished
-- the prolog: B or RET on AArch64; BX, MOV PC or a load of several registers with PC among them on
-- ARM, under any condition; JAL or JALR without a link register on RISC-V. Such an instruction need
-- not end the function.
pub make-PrologEnds :
    (w : FixedWidth) (m : Memory) (target margin : ℕ) (t : Trampoline)
    → make_of w m target margin ≡ some (ok t)
    → PrologEnds
        (isa_of w)
        m
        (IsLast w)
        (keeps_of w m)
        (builder target margin)
        t.emitter.thunks
        t.prolog_size
make-PrologEnds w m target margin t h =
    build-PrologEnds (isa_of w) m (IsLast w) (keeps_of w m) target margin t
      (make-build w m target margin t h)

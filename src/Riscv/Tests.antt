-- ===== src/Riscv/Tests.antt =====
-- Concrete runs of the theorems about src/arch/riscv, and of those about the builder that it shares
-- with the other fixed-width architectures.
use detour_rs.Base.{ℕ, ◌≡◌, refl, some, List, [], ◌∷◌, arith}
use detour_rs.Base.Memory.{Memory, write, write-Holds}
use detour_rs.Base.Words.{le_bytes}
use detour_rs.Error.{Result, ok}
use detour_rs.Arch.Fixed.{Processed, Trampoline, builder, build}
use detour_rs.Arch.Fixed.Loop.{Yields, build-Prolog}
use detour_rs.Arch.Patch.{Patcher}
use detour_rs.Pic.{generate, len}
use detour_rs.Riscv.Defs.{rv64}
use detour_rs.Riscv.Machine.{Cpu, step, instruction, auipc}
use detour_rs.Riscv.Thunk.{encode_j_type, li_abs}
use detour_rs.Riscv.Trampoline.{process, isa}
use detour_rs.Riscv.Trampoline.Emitted.{Terminator, isa-Keeps}
use detour_rs.Riscv.Trampoline.Simulates.{Simulates, process-Simulates}

abbrev zeros : Memory
zeros p = 0

abbrev cpu : Cpu
cpu = record { pc = 0x1000; regs = λ r. 0 }

-- AUIPC a0, 1
abbrev auipc_a0 : ℕ
auipc_a0 = 0x1517

abbrev moved_auipc : Processed
moved_auipc = record { state = builder 0x1000 8; thunk = li_abs rv64 10 0x2000; size = 16 }

auipc_processed : process rv64 (builder 0x1000 8) auipc_a0 0x1000 ≡ ok moved_auipc
unfolding process builder li_abs encode_j_type len le_bytes
auipc_processed = refl

abbrev li_code : List ℕ
li_code =
    0x6F ∷ 0x05 ∷ 0xC0 ∷ 0x00 ∷ 0x00 ∷ 0x20 ∷ 0 ∷ 0 ∷ 0 ∷ 0 ∷ 0 ∷ 0 ∷ 0x03 ∷ 0x35 ∷ 0x05 ∷ 0x00 ∷ []

li_generated : generate (li_abs rv64 10 0x2000) 0x8000 ≡ ok li_code
unfolding generate li_abs encode_j_type le_bytes
li_generated = refl

auipc_instruction : instruction rv64 auipc_a0 ≡ some (auipc 10 0x1000)
unfolding instruction
auipc_instruction = refl

process-Simulates_example :
    Simulates rv64
      (write zeros 0x8000 li_code)
      16
      0x1000
      (record { pc = 0x8000; regs = λ r. 0 })
      (step rv64 (write zeros 0x8000 li_code) (auipc 10 0x1000) cpu)
process-Simulates_example =
    process-Simulates rv64 (write zeros 0x8000 li_code) (builder 0x1000 8) auipc_a0
      (auipc 10 0x1000) moved_auipc cpu 0x8000 li_code auipc_processed auipc_instruction
      (λ e. omega arith) (λ e. omega arith) (λ o e. omega arith) (omega arith) refl (omega arith)
      li_generated (write-Holds zeros 0x8000 li_code)

-- ADDI a0, a0, 1, then RET, at 0x1000.
abbrev small_function : Memory
small_function = write zeros 0x1000 (0x13 ∷ 0x05 ∷ 0x15 ∷ 0x00 ∷ 0x67 ∷ 0x80 ∷ 0x00 ∷ 0x00 ∷ [])

build-Prolog_example :
    (r : Result Trampoline) × (build (isa rv64) small_function (builder 0x1000 8) ≡ some r)
    × Yields
        (isa rv64)
        small_function
        Terminator
        (isa-Keeps rv64 small_function)
        (builder 0x1000 8)
        r
build-Prolog_example =
    build-Prolog (isa rv64) small_function Terminator (isa-Keeps rv64 small_function) 0x1000 8

-- AUIPC t1, 1; JALR x0, t1, 0
abbrev patch : List ℕ
patch = 0x17 ∷ 0x13 ∷ 0x00 ∷ 0x00 ∷ 0x67 ∷ 0x00 ∷ 0x03 ∷ 0x00 ∷ []

abbrev patcher : Patcher
patcher = record {
  area = record { as_ptr = 0x1000; len = 8 };
  original_prolog = 0 ∷ 0 ∷ 0 ∷ 0 ∷ 0 ∷ 0 ∷ 0 ∷ 0 ∷ [];
  detour_prolog = patch;
}

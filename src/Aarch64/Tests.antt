-- ===== src/Aarch64/Tests.antt =====
-- Concrete runs of the theorems about src/arch/aarch64.
use detour_rs.Base.{ℕ, ◌≡◌, refl, some, List, [], ◌∷◌, arith}
use detour_rs.Base.Memory.{Memory, write, write-Holds, word_at}
use detour_rs.Base.Words.{le_bytes}
use detour_rs.Error.{ok}
use detour_rs.Pic.{generate}
use detour_rs.Aarch64.Thunk.{call_abs}
use detour_rs.Aarch64.Reach.{Cpu, run, call_abs-returns}
use detour_rs.Base.{true, false}
use detour_rs.Arch.Fixed.{Processed, builder, in_prolog}
use detour_rs.Aarch64.Machine as Machine
use detour_rs.Aarch64.Thunk.{cbz_far}
use detour_rs.Aarch64.Trampoline.{process}
use detour_rs.Aarch64.Trampoline.Relocated.{Simulates}
use detour_rs.Aarch64.Trampoline.Simulates.{replaced-Simulates}

abbrev zeros : Memory
zeros p = 0

abbrev cpu : Cpu
cpu = record { pc = 0x1000; reg_16 = 0; link = 0x8000 }

abbrev call_code : List ℕ
call_code = 0x50 ∷ 0 ∷ 0 ∷ 0x58 ∷ 0 ∷ 0x02 ∷ 0x3F ∷ 0xD6 ∷ 0x00 ∷ 0x20 ∷ 0 ∷ 0 ∷ 0 ∷ 0 ∷ 0 ∷ 0 ∷ []

call_generated : generate (call_abs 0x2000) 0x1000 ≡ ok call_code
unfolding generate call_abs le_bytes
call_generated = refl

call_abs-returns_example :
    (run (write zeros 0x1000 call_code) 2 cpu
      ≡ some (record { pc = 0x2000; reg_16 = 0x2000; link = 0x1008 }))
    × (word_at (write zeros 0x1000 call_code) 0x1008 8 ≡ 0x2000)
call_abs-returns_example =
    call_abs-returns (write zeros 0x1000 call_code) cpu 0x2000 call_code (omega arith)
      call_generated (write-Holds zeros 0x1000 call_code)

-- B to 0x2000 from 0x1000.
abbrev whole_cpu : Machine.Cpu
whole_cpu = record { pc = 0x1000; regs = λ r. 0 }

-- CBZ X3, #0x1000
abbrev cbz_x3 : ℕ
cbz_x3 = 0xB400_8003

abbrev moved_cbz : Processed
moved_cbz = record { state = builder 0x1000 4; thunk = cbz_far 3 true false 0x2000; size = 20 }

cbz_processed : process (builder 0x1000 4) cbz_x3 0x1000 ≡ ok moved_cbz
unfolding process builder in_prolog
cbz_processed = refl

abbrev cbz_code : List ℕ
cbz_code =
    0xA3 ∷ 0 ∷ 0 ∷ 0xB5 ∷ 0x50 ∷ 0 ∷ 0 ∷ 0x58 ∷ 0 ∷ 0x02 ∷ 0x1F ∷ 0xD6 ∷ 0 ∷ 0x20 ∷ 0 ∷ 0 ∷ 0 ∷ 0
    ∷ 0 ∷ 0 ∷ []

cbz_generated : generate (cbz_far 3 true false 0x2000) 0x8000 ≡ ok cbz_code
unfolding generate cbz_far le_bytes
cbz_generated = refl

cbz_instruction : Machine.instruction cbz_x3 ≡ some (Machine.cbz 1 0 3 0x1000)
unfolding Machine.instruction
cbz_instruction = refl

replaced-Simulates_example :
    Simulates
      (write zeros 0x8000 cbz_code)
      20
      0x1000
      (record { pc = 0x8000; regs = λ r. 0 })
      (Machine.step (write zeros 0x8000 cbz_code) (Machine.cbz 1 0 3 0x1000) whole_cpu)
replaced-Simulates_example =
    replaced-Simulates (write zeros 0x8000 cbz_code) (builder 0x1000 4) cbz_x3
      (Machine.cbz 1 0 3 0x1000) moved_cbz whole_cpu 0x8000 cbz_code cbz_processed cbz_instruction
      (λ e. omega arith) (λ h. cc) (λ h e. omega arith) (omega arith) (omega arith) (omega arith)
      cbz_generated (write-Holds zeros 0x8000 cbz_code)

-- ===== src/Riscv/Runs.antt =====
-- A whole detour of src/arch/detour.rs on RV64: two instructions at 0x1000 that are detoured over a
-- relay.
use detour_rs.Base.{ℕ, ◌+◌, true, false, some, List, [], ◌∷◌}
use detour_rs.Base.Memory.{Memory, write}
use detour_rs.Error.{ok}
use detour_rs.Pic.{len}
use detour_rs.Riscv.Thunk
use detour_rs.Riscv.Patcher
use detour_rs.Riscv.Trampoline as Prolog
use detour_rs.Detour.{System, World, Detour}
use detour_rs.Detour

abbrev zeros : Memory
zeros p = 0

-- ADDI x0, x0, 0, twice
abbrev nops : List ℕ
nops = 0x13 ∷ 0 ∷ 0 ∷ 0 ∷ 0x13 ∷ 0 ∷ 0 ∷ 0 ∷ []

abbrev function : Memory
function = write zeros 0x1000 nops

-- Allocations lie behind one another, and all of them succeed.
abbrev upwards : System
upwards = record {
  Pool = ℕ;
  allocate = λ at origin size. ok (record { as_ptr = at; len = size }, at + size);
  release = λ at slice. at;
  is_executable_address = λ address. ok true;
}

abbrev far_detour : ℕ
far_detour = 0x1_8000_0000

abbrev before_detour : World ℕ
before_detour = record { memory = function; pool = 0x5000 }

abbrev relay_code : List ℕ
relay_code =
    0x17 ∷ 0x03 ∷ 0 ∷ 0 ∷ 0x03 ∷ 0x33 ∷ 0xC3 ∷ 0 ∷ 0x67 ∷ 0 ∷ 0x03 ∷ 0 ∷ 0 ∷ 0 ∷ 0 ∷ 0x80 ∷ 1 ∷ 0
    ∷ 0 ∷ 0 ∷ []

abbrev trampoline_code : List ℕ
trampoline_code =
    0x13 ∷ 0 ∷ 0 ∷ 0 ∷ 0x13 ∷ 0 ∷ 0 ∷ 0 ∷ 0x17 ∷ 0x03 ∷ 0 ∷ 0 ∷ 0x03 ∷ 0x33 ∷ 0xC3 ∷ 0 ∷ 0x67 ∷ 0
    ∷ 0x03 ∷ 0 ∷ 0x08 ∷ 0x10 ∷ 0 ∷ 0 ∷ 0 ∷ 0 ∷ 0 ∷ 0 ∷ []

abbrev after_detour : World ℕ
after_detour = record {
  memory = write (write function 0x5000 relay_code) 0x5014 trampoline_code;
  pool = 0x5030;
}

abbrev made_detour : Detour
made_detour = record {
  relay = some (record { as_ptr = 0x5000; len = 20 });
  trampoline = record { as_ptr = 0x5014; len = 28 };
  patcher = record {
    area = record { as_ptr = 0x1000; len = 8 };
    original_prolog = nops;
    detour_prolog = 0x17 ∷ 0x43 ∷ 0 ∷ 0 ∷ 0x67 ∷ 0 ∷ 0x03 ∷ 0 ∷ [];
  };
  enabled = false;
}

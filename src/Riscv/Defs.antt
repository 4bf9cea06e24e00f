-- ===== src/Riscv/Defs.antt =====
-- The two targets that src/arch/riscv is compiled for.
use detour_rs.Base.{ℕ}
use detour_rs.Arch.{TargetArch, riscv32, riscv64}

pub data RvArch : Type 0 where
  rv32 rv64 : RvArch

abbrev pub target_arch : RvArch → TargetArch
target_arch rv32 = riscv32
target_arch rv64 = riscv64

-- The number of values of a `usize`, and its bytes.
abbrev pub word_mod : RvArch → ℕ
word_mod rv32 = 0x1_0000_0000
word_mod rv64 = 0x1_0000_0000_0000_0000

abbrev pub word_bytes : RvArch → ℕ
word_bytes rv32 = 4
word_bytes rv64 = 8

-- ===== src/Riscv.antt =====
-- src/arch/riscv: detours on RV32 and RV64. `Machine` is the reading of the instructions that the
-- other modules are checked against.
pub mod Defs
pub mod Machine
pub mod Thunk
pub mod Patcher
pub mod Trampoline
pub mod Install
pub mod Tests
pub mod Runs

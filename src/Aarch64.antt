-- ===== src/Aarch64.antt =====
-- src/arch/aarch64: detours on AArch64. `Machine` is the reading of the instructions that the
-- trampoline is checked against, `Reach` has what absolute jumps and calls do, `Patch` what a patcher
-- is made of.
pub mod Machine
pub mod Thunk
pub mod Patcher
pub mod Trampoline
pub mod Reach
pub mod Patch
pub mod Leads
pub mod Install
pub mod Runs
pub mod Tests

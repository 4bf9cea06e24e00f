-- ===== src/X86.antt =====
-- src/arch/x86: detours on x86 and x86_64. The children follow the files of that folder; `Machine`
-- is the meaning of the instructions that they emit.
pub mod Defs
pub mod Machine
pub mod Thunk
pub mod Patcher
pub mod Disasm
pub mod Trampoline
pub mod Meta
pub mod Install
pub mod Tests
pub mod Runs

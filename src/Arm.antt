-- ===== src/Arm.antt =====
-- src/arch/arm: ARM state only; Thumb targets are rejected. `Machine` is the reading of the loads into
-- the program counter that the other modules are checked against.
pub mod Machine
pub mod Thunk
pub mod Patcher
pub mod Trampoline
pub mod Leads
pub mod Tests

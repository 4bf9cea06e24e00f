-- ===== src/Arch.antt =====
-- src/arch/mod.rs and the constants of src/arch/*/meta.rs: the targets that the crate is compiled
-- for, the width of `usize` on each, and the reach of their detours.
pub mod Range
pub mod Patch
pub mod Fixed
pub mod Cache
use detour_rs.Base.{ℕ, ◌^◌, Bool}
use detour_rs.Base.Words.{pos, neg, signed, in_range_ℤ}

-- The values of `target_arch` that src/arch/mod.rs has a module for.
pub data TargetArch : Type 0 where
  x86 x86_64 arm aarch64 riscv32 riscv64 : TargetArch

-- One more than the greatest `usize`.
abbrev pub usize_mod : TargetArch → ℕ
usize_mod x86 = 0x1_0000_0000
usize_mod x86_64 = 0x1_0000_0000_0000_0000
usize_mod arm = 0x1_0000_0000
usize_mod aarch64 = 0x1_0000_0000_0000_0000
usize_mod riscv32 = 0x1_0000_0000
usize_mod riscv64 = 0x1_0000_0000_0000_0000

-- meta::DETOUR_RANGE
abbrev pub detour_range : TargetArch → ℕ
detour_range x86 = 0x8000_0000
detour_range x86_64 = 0x8000_0000
detour_range arm = 0x7FFF_FFFF
detour_range aarch64 = 0x800_0000
detour_range riscv32 = 0x7FFF_FFFF
detour_range riscv64 = 0x7FFF_FFFF

-- The displacement is an `isize`, given by its bit pattern.
unfoldable pub is_within_range : TargetArch → ℕ → Bool
is_within_range a displacement =
    in_range_ℤ (neg (detour_range a)) (pos (detour_range a)) (signed (usize_mod a) displacement)

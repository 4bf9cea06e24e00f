-- ===== src/Arch/Range.antt =====
-- What the range check of src/arch/mod.rs lets through, as bounds on the bit pattern.
use detour_rs.Base.{ℕ, ◌%◌, ◌≤◌, ◌<◌, ◌≡◌, ◌⊎◌, true, false, arith}
use detour_rs.Arch.{
  TargetArch, x86, x86_64, arm, aarch64, riscv32, riscv64, usize_mod, is_within_range,
}

-- On x86_64 a displacement within range is one that a signed 32-bit operand holds.
pub is_within_range-x86_64 :
    (d : ℕ)
    → is_within_range x86_64 d ≡ true
    → d < 0x1_0000_0000_0000_0000
    → (d < 0x8000_0000) ⊎ (0xFFFF_FFFF_8000_0000 ≤ d)
unfolding is_within_range
is_within_range-x86_64 d h lt = ground arith

pub is_within_range-x86_64_intro :
    (d : ℕ)
    → d < 0x1_0000_0000_0000_0000
    → (d < 0x8000_0000) ⊎ (0xFFFF_FFFF_8000_0000 ≤ d)
    → is_within_range x86_64 d ≡ true
unfolding is_within_range
is_within_range-x86_64_intro d lt h = ground arith

pub is_within_range-x86_64_not :
    (d : ℕ) → 0x8000_0000 ≤ d → d < 0xFFFF_FFFF_8000_0000 → is_within_range x86_64 d ≡ false
unfolding is_within_range
is_within_range-x86_64_not d lo hi = ground arith

-- On x86 every displacement is within range.
pub is_within_range-x86 : (d : ℕ) → d < 0x1_0000_0000 → is_within_range x86 d ≡ true
unfolding is_within_range
is_within_range-x86 d lt = ground arith

pub usize_mod_pos : (a : TargetArch) → 0 < usize_mod a
usize_mod_pos x86 = omega arith
usize_mod_pos x86_64 = omega arith
usize_mod_pos arm = omega arith
usize_mod_pos aarch64 = omega arith
usize_mod_pos riscv32 = omega arith
usize_mod_pos riscv64 = omega arith

pub wrapped-lt : (a : TargetArch) (n : ℕ) → n % usize_mod a < usize_mod a
wrapped-lt a n = omega (arith, usize_mod_pos a)

-- ===== src/X86/Defs.antt =====
-- The two targets that src/arch/x86 is compiled for.
use detour_rs.Base.{ℕ}
use detour_rs.Arch.{TargetArch, x86, x86_64, usize_mod}

pub data X86Arch : Type 0 where
  i686 amd64 : X86Arch

abbrev pub target_arch : X86Arch → TargetArch
target_arch i686 = x86
target_arch amd64 = x86_64

abbrev pub word_mod : X86Arch → ℕ
word_mod a = usize_mod (target_arch a)

-- ===== src/Arm/Machine.antt =====
-- Loads of the program counter on ARM, from a literal that stands at an offset from the instruction,
-- as the architecture's manual gives them. They are what src/arch/arm is checked against, and model no
-- code of the repository.
use detour_rs.Base.{
  ℕ, ◌+◌, ◌/◌, ◌^◌, ◌%◌, Bool, not, ◌&&◌, ◌||◌, Option, none, some, ◌==◌, if◌then◌else◌,
}
use detour_rs.Base.Memory.{Memory, word_at}
use detour_rs.Base.Words.{wrapping_add, wrapping_sub}
use detour_rs.Arch.{arm, usize_mod}

-- The n bits of a word from bit `lo` on.
abbrev pub bits : (lo n w : ℕ) → ℕ
bits lo n w = w / 2 ^ lo % 2 ^ n

-- LDR PC, [PC, #n] and LDR PC, [PC, #-n] under a condition; 0xF is none.
abbrev pub loads_pc : ℕ → Bool
loads_pc w =
    (bits 16 12 w == 0x51F || bits 16 12 w == 0x59F) && bits 12 4 w == 15 && not (bits 28 4 w == 15)

-- Where the literal stands: the program counter reads as eight bytes ahead.
abbrev pub literal : (p w : ℕ) → ℕ
literal p w =
    if bits 23 1 w == 0
    then wrapping_sub (usize_mod arm) ((p + 8) % usize_mod arm) (bits 0 12 w)
    else wrapping_add (usize_mod arm) (p + 8) (bits 0 12 w)

-- Where the instruction at `p` goes, if it is such a load and its condition holds.
abbrev pub load_target : Memory → ℕ → Option ℕ
load_target m p =
    let w = word_at m p 4 in if loads_pc w then some (word_at m (literal p w) 4) else none

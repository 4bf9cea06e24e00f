-- ===== src/X86/Thunk.antt =====
-- src/arch/x86/thunk: the instructions that detours are made of, relative (x86.rs) and absolute
-- (x64.rs). `call`, `jcc` and `jmp` are those that mod.rs exports for the architecture.
pub mod Lands
pub mod Reach
use detour_rs.Base.{
  ℕ, ◌+◌, ◌-◌, ◌%◌, Bool, true, false, List, [], ◌∷◌, ◌++◌, bit_or, bit_xor, if◌then◌else◌,
}
use detour_rs.Base.Words.{wrapping_sub, u32_mod, u8_mod, le_bytes}
use detour_rs.Error.{Result, ok, assert, ◌>>=◌, ◌>>◌}
use detour_rs.Arch.{is_within_range}
use detour_rs.Pic.{Thunk, vec, fixed_thunk}
use detour_rs.X86.Defs.{X86Arch, i686, amd64, target_arch, word_mod}

-- mem::size_of of the packed instructions `JumpRel`, `JccRel` and `JumpShort`.
abbrev pub jump_rel_size : ℕ
jump_rel_size = 5

abbrev pub jcc_rel_size : ℕ
jcc_rel_size = 6

abbrev pub jump_short_size : ℕ
jump_short_size = 2

-- The assertion that is compiled for x86_64 only.
unfoldable pub assert_reachable : X86Arch → ℕ → Result (Unit {0})
assert_reachable i686 displacement = ok tt
assert_reachable amd64 displacement = assert (is_within_range (target_arch amd64) displacement)

unfoldable pub calculate_displacement : X86Arch → ℕ → ℕ → ℕ → Result ℕ
unfolding assert_reachable
calculate_displacement a source destination instruction_size = do
  let displacement =
      wrapping_sub (word_mod a) destination ((source + instruction_size) % word_mod a)
  assert_reachable a displacement
  ok (displacement % u32_mod)

unfoldable pub relative32 : X86Arch → ℕ → Bool → Thunk
unfolding calculate_displacement
relative32 a destination is_jump = fixed_thunk jump_rel_size λ source. do
  operand ← calculate_displacement a source destination jump_rel_size
  ok ((if is_jump then 0xE9 else 0xE8) ∷ le_bytes 4 operand)

unfoldable pub nop : Thunk
nop = vec (0x90 ∷ [])

unfoldable pub call_rel32 : X86Arch → ℕ → Thunk
unfolding relative32
call_rel32 a destination = relative32 a destination false

unfoldable pub jmp_rel32 : X86Arch → ℕ → Thunk
unfolding relative32
jmp_rel32 a destination = relative32 a destination true

unfoldable pub jcc_rel32 : X86Arch → ℕ → ℕ → Thunk
unfolding calculate_displacement
jcc_rel32 a destination condition = fixed_thunk jcc_rel_size λ source. do
  operand ← calculate_displacement a source destination jcc_rel_size
  ok (0x0F ∷ bit_or 0x80 condition ∷ le_bytes 4 operand)

-- The displacement is an `i8`, given by its bit pattern.
unfoldable pub jmp_rel8 : ℕ → Thunk
jmp_rel8 displacement =
    fixed_thunk jump_short_size
      λ source. ok (0xEB ∷ wrapping_sub u8_mod displacement jump_short_size ∷ [])

unfoldable pub call_abs : ℕ → Thunk
call_abs destination = vec (0xFF ∷ 0x15 ∷ le_bytes 4 2 ++ 0xEB ∷ 0x08 ∷ le_bytes 8 destination)

unfoldable pub jmp_abs : ℕ → Thunk
jmp_abs destination = vec (0xFF ∷ 0x25 ∷ le_bytes 4 0 ++ le_bytes 8 destination)

unfoldable pub jcc_abs : ℕ → ℕ → Thunk
jcc_abs destination condition =
    vec (bit_xor 0x71 condition ∷ 0x0E ∷ 0xFF ∷ 0x25 ∷ le_bytes 4 0 ++ le_bytes 8 destination)

unfoldable pub call : X86Arch → ℕ → Thunk
unfolding call_rel32 call_abs
call i686 destination = call_rel32 i686 destination
call amd64 destination = call_abs destination

unfoldable pub jcc : X86Arch → ℕ → ℕ → Thunk
unfolding jcc_rel32 jcc_abs
jcc i686 destination condition = jcc_rel32 i686 destination condition
jcc amd64 destination condition = jcc_abs destination condition

unfoldable pub jmp : X86Arch → ℕ → Thunk
unfolding jmp_rel32 jmp_abs
jmp i686 destination = jmp_rel32 i686 destination
jmp amd64 destination = jmp_abs destination

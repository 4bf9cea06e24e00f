-- ===== src/X86/Meta.antt =====
-- src/arch/x86/meta.rs: the margin of the prolog, and the relay to a detour that is too far away
-- for a relative jump.
pub mod Relay
use detour_rs.Base.{ℕ, Bool, true, false, not, ◌&&◌, Option, none, some, if◌then◌else◌}
use detour_rs.Base.Words.{wrapping_sub}
use detour_rs.Arch.{is_within_range}
use detour_rs.Pic.{CodeEmitter, new, add_thunk}
use detour_rs.X86.Defs.{X86Arch, i686, amd64, target_arch, word_mod}
use detour_rs.X86.Thunk.{jump_rel_size, jmp}

unfoldable pub prolog_margin : ℕ → ℕ
prolog_margin target = jump_rel_size

-- cfg!(target_arch = "x86_64")
abbrev is_x86_64 : X86Arch → Bool
is_x86_64 i686 = false
is_x86_64 amd64 = true

-- The result is never an error.
unfoldable pub relay_builder : X86Arch → (target detour : ℕ) → Option CodeEmitter
relay_builder a target detour =
    let displacement = wrapping_sub (word_mod a) target detour in
    if is_x86_64 a && not (is_within_range (target_arch a) displacement)
    then some (add_thunk new (jmp a detour))
    else none

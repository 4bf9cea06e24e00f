-- ===== src/Arm/Thunk.antt =====
-- src/arch/arm/thunk/mod.rs and meta.rs: the absolute jump, and the answers of the architecture.
use detour_rs.Base.{ℕ, Option, none, ◌++◌}
use detour_rs.Base.Words.{le_bytes}
use detour_rs.Pic.{CodeEmitter, Thunk, vec}

-- LDR PC, [PC, #-4]; .word dest
unfoldable pub jmp_abs : ℕ → Thunk
jmp_abs dest = vec (le_bytes 4 0xE51F_F004 ++ le_bytes 4 dest)

unfoldable pub nop : Thunk
nop = vec (le_bytes 4 0xE320_F000)

-- meta::prolog_margin
unfoldable pub prolog_margin : ℕ → ℕ
prolog_margin target = 8

-- meta::relay_builder; the result is never an error, and no relay is ever made.
unfoldable pub relay_builder : (target detour : ℕ) → Option CodeEmitter
relay_builder target detour = none

-- ===== src/X86/Machine.antt =====
-- The control flow of the x86 instructions that detours are made of, as the processor manuals give
-- it: where execution goes from an address. This is the description that src/arch/x86/thunk is
-- checked against; it models no code of the repository.
use detour_rs.Base.{
  ℕ, zero, suc, ◌≡◌, sym, ◌*◌, true, false, inl, inr, Bool-cases, arith, ◌+◌, ◌-◌, ◌/◌, ◌%◌, Bool,
  not, ◌&&◌, Option, none, some, ltb, leb, ◌==◌, if◌then◌else◌,
}
use mathlib.Core.Bool.{not-not}
use detour_rs.Base.Memory.{Memory, word_at}
use detour_rs.X86.Defs.{X86Arch, i686, amd64, word_mod}

pub data Flow : Type 0 where
  jump : ℕ → Flow
  -- the function that is called, and the address that it returns to
  call : ℕ → ℕ → Flow
  -- the condition code, where it leads to, and where execution goes on otherwise
  branch : ℕ → ℕ → ℕ → Flow

-- A displacement of `size` values, sign extended to the width of an address.
abbrev pub sign_extend : X86Arch → ℕ → ℕ → ℕ
sign_extend a size x = if ltb x (size / 2) then x else x + (word_mod a - size)

-- The address that a displacement leads to, from the end of its instruction.
abbrev pub relative : X86Arch → ℕ → ℕ → ℕ → ℕ
relative a next size x = (next + sign_extend a size x) % word_mod a

abbrev pub rel8 : X86Arch → Memory → ℕ → ℕ
rel8 a m p = relative a (suc p) 0x100 (m p)

abbrev pub rel32 : X86Arch → Memory → ℕ → ℕ
rel32 a m p = relative a (p + 4) 0x1_0000_0000 (word_at m p 4)

-- The address in memory that an operand [rip + disp32] points at (amd64).
abbrev pub indirect : Memory → ℕ → ℕ
indirect m p = word_at m (rel32 amd64 m p) 8

abbrev two_byte : X86Arch → Memory → ℕ → Option Flow
two_byte a m p =
    if leb 0x80 (m p) && ltb (m p) 0x90
    then some (branch (m p - 0x80) (rel32 a m (suc p)) ((p + 5) % word_mod a))
    else none

abbrev group5 : X86Arch → Memory → ℕ → Option Flow
group5 i686 m p = none
group5 amd64 m p =
    if m p == 0x25
    then some (jump (indirect m (suc p)))
    else if m p == 0x15
    then some (call (indirect m (suc p)) ((p + 5) % word_mod amd64))
    else none

-- Where the instruction at `p` leads, if it is a jump, a call or a conditional jump.
unfoldable pub transfer : X86Arch → Memory → ℕ → Option Flow
transfer a m p =
    if m p == 0xE9
    then some (jump (rel32 a m (suc p)))
    else if m p == 0xEB
    then some (jump (rel8 a m (suc p)))
    else if m p == 0xE8
    then some (call (rel32 a m (suc p)) ((p + 5) % word_mod a))
    else if leb 0x70 (m p) && ltb (m p) 0x80
    then some (branch (m p - 0x70) (rel8 a m (suc p)) ((p + 2) % word_mod a))
    else if m p == 0x0F
    then two_byte a m (suc p)
    else if m p == 0xFF
    then group5 a m (suc p)
    else none

-- Condition codes stand in pairs: an odd one is the negation of the even one below it.
abbrev pub condition : (ℕ → Bool) → ℕ → Bool
condition flags c = if c % 2 == 0 then flags (c / 2) else not (flags (c / 2))

abbrev follow : (ℕ → Bool) → Flow → Option ℕ
follow flags (jump target) = some target
follow flags (call target next) = none
follow flags (branch c taken next) = some (if condition flags c then taken else next)

abbrev pub next_pc : X86Arch → (ℕ → Bool) → Memory → ℕ → Option ℕ
next_pc a flags m p = elim (transfer a m p) [ none ↦ none | some f ↦ follow flags f ]

-- Where n jumps or conditional jumps lead from `p`, under the given processor flags.
abbrev pub steps : X86Arch → (ℕ → Bool) → Memory → ℕ → ℕ → Option ℕ
steps a flags m zero p = some p
steps a flags m (suc n) p = elim (next_pc a flags m p) [
  | none ↦ none
  | some q ↦ steps a flags m n q
]

pub steps-jump :
    (a : X86Arch) (flags : ℕ → Bool) (m : Memory) (n p t : ℕ)
    → transfer a m p ≡ some (jump t)
    → steps a flags m (suc n) p ≡ steps a flags m n t
steps-jump a flags m n p t h = rw (h, steps)

pub steps-branch :
    (a : X86Arch) (flags : ℕ → Bool) (m : Memory) (n p c t e : ℕ)
    → transfer a m p ≡ some (branch c t e)
    → steps a flags m (suc n) p ≡ steps a flags m n (if condition flags c then t else e)
steps-branch a flags m n p c t e h = rw (h, steps)

-- The condition of the other code of a pair.
abbrev pub inverse : ℕ → ℕ
inverse c = c + 1 - c % 2 * 2

pub condition-inverse :
    (flags : ℕ → Bool) (c : ℕ) → condition flags (inverse c) ≡ not (condition flags c)
condition-inverse flags c =
    let half : inverse c / 2 ≡ c / 2 = omega arith in
    elim (Bool-cases (c % 2 == 0)) [
      | inl even ↦ let odd : (inverse c % 2 == 0) ≡ false = ground arith in rw (even, odd, half)
      | inr odd ↦
          let even : (inverse c % 2 == 0) ≡ true = ground arith in
          rw (odd, even, half) (sym (not-not (flags (c / 2))))
    ]

-- ===== src/X86/Thunk/Reach.antt =====
-- The thunks lead where they were asked to: what src/arch/x86/thunk emits, run by the description of
-- the processor in X86/Machine.antt.
use detour_rs.Base.{
  ℕ, suc, [], ◌+◌, ◌%◌, ◌<◌, ◌≤◌, ◌≡◌, refl, sym, subst, ◌-◌, ap, ◌∙◌, Bool, List, some, arith,
  if◌then◌else◌, bit_xor, inl, inr, Bool-cases, ◌∷◌, ◌++◌,
}
use detour_rs.Base.Words.{le_bytes}
use native.Mathlib.Nat.{mod-eq_of_lt}
use detour_rs.Base.Bits.{bit_or-0x80, bit_xor-0x71}
use detour_rs.Base.Memory.{Memory, Holds}
use detour_rs.Error.{ok, ok-injective}
use detour_rs.Pic.{generate, len}
use detour_rs.X86.Defs.{X86Arch, i686, amd64, word_mod}
use detour_rs.X86.Machine.{
  transfer, jump, call, branch, relative, rel32, rel8, steps, condition, steps-jump, steps-branch,
  inverse, condition-inverse,
}
use detour_rs.X86.Thunk
use detour_rs.X86.Thunk.{calculate_displacement, assert_reachable, jmp_rel32}
use detour_rs.X86.Thunk.Lands.{
  jcc_rel32-code, operand_at, jmp_rel32-reaches, call_rel32-reaches, jmp_abs-reaches,
  call_abs-reaches,
}

-- A jump, on either architecture, leads to its destination, an address, from wherever 14 addresses
-- follow.
pub jmp-reaches :
    (a : X86Arch) (m : Memory) (s d : ℕ) (code : List ℕ)
    → s + 14 < word_mod a
    → d < word_mod a
    → generate (Thunk.jmp a d) s ≡ ok code
    → Holds m s code
    → transfer a m s ≡ some (jump d)
unfolding Thunk.jmp generate
jmp-reaches i686 m s d code hs hd h held = jmp_rel32-reaches i686 m s d code (omega arith) hd h held
jmp-reaches amd64 m s d code hs hd h held =
    jmp_abs-reaches m s d hs hd (subst (Holds m s) (sym (ok-injective h)) held)

-- A call, on either architecture, enters its destination, and the address that it returns to leads
-- on to the end of the thunk, for a destination that is an address, from wherever 16 follow.
pub call-reaches :
    (a : X86Arch) (flags : ℕ → Bool) (m : Memory) (s d : ℕ) (code : List ℕ)
    → s + 16 < word_mod a
    → d < word_mod a
    → generate (Thunk.call a d) s ≡ ok code
    → Holds m s code
    → (back : ℕ) × (n : ℕ) × (transfer a m s ≡ some (call d back))
      × (steps a flags m n back ≡ some (s + len (Thunk.call a d)))
unfolding Thunk.call len generate le_bytes
call-reaches i686 flags m s d code hs hd h held =
    (s + 5, 0, call_rel32-reaches i686 m s d code (omega arith) hd h held, refl)
call-reaches amd64 flags m s d code hs hd h held =
    let (there, on) =
      call_abs-reaches m s d hs hd (subst (Holds m s) (sym (ok-injective h)) held) in
    (s + 6, 1, there, steps-jump amd64 flags m 0 _ _ on)

transfer-short :
    (a : X86Arch) (m : Memory) (p k : ℕ)
    → m p ≡ 0x70 + k
    → k < 16
    → transfer a m p ≡ some (branch k (rel8 a m (suc p)) ((p + 2) % word_mod a))
unfolding transfer
transfer-short a m p k e h =
    let code : 0x70 + k - 0x70 ≡ k = omega arith in rw e (ground (arith, code))

transfer-long :
    (a : X86Arch) (m : Memory) (p k : ℕ)
    → m p ≡ 0x0F
    → m (suc p) ≡ 0x80 + k
    → k < 16
    → transfer a m p ≡ some (branch k (rel32 a m (suc (suc p))) ((suc p + 5) % word_mod a))
unfolding transfer
transfer-long a m p k e f h =
    let code : 0x80 + k - 0x80 ≡ k = omega arith in rw (e, f) (ground (arith, code))

jcc_rel32-reaches :
    (a : X86Arch) (flags : ℕ → Bool) (m : Memory) (s d c : ℕ) (code : List ℕ)
    → s + 6 < word_mod a
    → d < word_mod a
    → c < 16
    → generate (Thunk.jcc_rel32 a d c) s ≡ ok code
    → Holds m s code
    → steps a flags m 1 s ≡ some (if condition flags c then d else s + 6)
jcc_rel32-reaches a flags m s d c code hs hd hc h held =
    let (op, small, lands, e) = jcc_rel32-code a s d c code (omega arith) hd h in
    let bytes = subst (Holds m s) (sym e) held in
    let taken = operand_at a m (suc (suc s)) (s + 6) d op small lands (omega arith) bytes.1.1 in
    let next : (suc s + 5) % word_mod a ≡ s + 6 =
      ap (λ n. n % word_mod a) (omega arith) ∙ mod-eq_of_lt hs in
    let long = transfer-long a m s c bytes.0 (bytes.1.0 ∙ bit_or-0x80 c hc) hc in
    rw (taken, next) at (steps-branch a flags m 0 s c _ _ long)

jcc_abs-reaches :
    (flags : ℕ → Bool) (m : Memory) (s d c : ℕ)
    → s + 16 < word_mod amd64
    → d < word_mod amd64
    → c < 16
    → Holds m s (bit_xor 0x71 c ∷ 0x0E ∷ 0xFF ∷ 0x25 ∷ le_bytes 4 0 ++ le_bytes 8 d)
    → (n : ℕ) × (steps amd64 flags m n s ≡ some (if condition flags c then d else s + 16))
jcc_abs-reaches flags m s d c hs hd hc held =
    let next : (s + 2) % word_mod amd64 ≡ suc (suc s) = omega arith in
    let over : rel8 amd64 m (suc s) ≡ s + 16 = rw held.1.0 (omega arith) in
    let short = transfer-short amd64 m s (inverse c) (held.0 ∙ bit_xor-0x71 c hc) (omega arith) in
    let on = jmp_abs-reaches m (suc (suc s)) d (omega arith) hd held.1.1 in
    let first =
      rw (over, next, condition-inverse flags c) at
        (steps-branch amd64 flags m 0 s (inverse c) _ _ short) in
    let second =
      rw (over, next, condition-inverse flags c) at
        (steps-branch amd64 flags m 1 s (inverse c) _ _ short) in
    elim (Bool-cases (condition flags c)) [
      | inl holds ↦
          let skip = rw holds at second in (2, rw holds (skip ∙ steps-jump amd64 flags m 0 _ d on))
      | inr fails ↦ let leave = rw fails at first in (1, rw fails leave)
    ]

-- A conditional jump, on either architecture and under any flags, leads to its destination where
-- its condition, one of sixteen, holds, and else to the end of the thunk, for a destination that is
-- an address, from wherever 16 follow.
pub jcc-reaches :
    (a : X86Arch) (flags : ℕ → Bool) (m : Memory) (s d c : ℕ) (code : List ℕ)
    → s + 16 < word_mod a
    → d < word_mod a
    → c < 16
    → generate (Thunk.jcc a d c) s ≡ ok code
    → Holds m s code
    → (n : ℕ) × (steps a flags m n s
        ≡ some (if condition flags c then d else s + len (Thunk.jcc a d c)))
unfolding Thunk.jcc len generate le_bytes
jcc-reaches i686 flags m s d c code hs hd hc h held =
    (1, jcc_rel32-reaches i686 flags m s d c code (omega arith) hd hc h held)
jcc-reaches amd64 flags m s d c code hs hd hc h held =
    jcc_abs-reaches flags m s d c hs hd hc (subst (Holds m s) (sym (ok-injective h)) held)

short_lands :
    (a : X86Arch) (s disp : ℕ)
    → disp < 0x100
    → ¬ ((0x80 ≤ disp) × (disp < 0x82))
    → relative a (suc (suc s)) 0x100 ((disp + 0x100 - 2) % 0x100) ≡ relative a s 0x100 disp
short_lands i686 s disp small h = ground arith
short_lands amd64 s disp small h = ground arith

-- A short jump leads to its displacement from its own start, where the size of the instruction can
-- be taken off it within an `i8`.
pub jmp_rel8-reaches :
    (a : X86Arch) (m : Memory) (s disp : ℕ) (code : List ℕ)
    → disp < 0x100
    → ¬ ((0x80 ≤ disp) × (disp < 0x82))
    → generate (Thunk.jmp_rel8 disp) s ≡ ok code
    → Holds m s code
    → transfer a m s ≡ some (jump (relative a s 0x100 disp))
unfolding Thunk.jmp_rel8 generate transfer
jmp_rel8-reaches a m s disp code small no_overflow h held =
    let bytes : Holds m s (0xEB ∷ (disp + 0x100 - 2) % 0x100 ∷ []) =
      subst (Holds m s) (sym (ok-injective h)) held in
    rw (bytes.0, bytes.1.0) (ap (λ t. some (jump t)) (short_lands a s disp small no_overflow))

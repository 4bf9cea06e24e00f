-- ===== src/Aarch64/Thunk/Far.antt =====
-- The far conditional branches of src/arch/aarch64/thunk/mod.rs: a branch of the other condition that
-- skips an absolute jump.
use detour_rs.Base.{
  ℕ, ◌+◌, ◌*◌, ◌/◌, ◌^◌, ◌%◌, ◌<◌, ◌≡◌, refl, sym, subst, ap, ◌∙◌, ◌⊎◌, inl, inr, Bool, true, false,
  not, ◌==◌, some, List, ◌++◌, if◌then◌else◌, bit_or, bit_and, Bool-cases, arith,
}
use mathlib.Core.Bool.{not-not}
use detour_rs.Base.Fields.{bit_or-sum, bit_and-mask}
use detour_rs.Base.Memory.{Memory, Holds, Holds-behind, Holds-word_at}
use detour_rs.Base.Words.{le_bytes}
use detour_rs.Error.{ok, ok-injective}
use detour_rs.Pic.{generate}
use detour_rs.Arch.{aarch64, usize_mod}
use detour_rs.Aarch64.Thunk.{jump_bytes, cbz_base, cbz_far, tbz_far}
use detour_rs.Aarch64.Thunk.Runs.{cpu_eq, wrapped-exact}
use detour_rs.Aarch64.Thunk.Jump.{jump_bytes-runs}
use detour_rs.Aarch64.Machine.{
  Cpu, set, reg, run, run-step, step, instruction, Instruction, cbz, tbz, bits, decided, is_zero,
  moved,
}

-- A bit of an instruction that the code tests for.
abbrev pub bit_of : Bool → ℕ
bit_of true = 1
bit_of false = 0

pub bit_of-lt : (t : Bool) → bit_of t < 2
bit_of-lt true = omega arith
bit_of-lt false = omega arith

decided-other :
    (negate t : Bool) → decided (bit_of (not negate)) t ≡ not (decided (bit_of negate) t)
decided-other true t = sym (not-not t)
decided-other false t = refl

-- A word that branches over the jump behind it, and the jump: where the branch is on the condition
-- that is the other of `t`, the two come to a branch on `t`.
skips-jump :
    (m : Memory) (c : Cpu) (w d : ℕ) (i : Instruction) (t : Bool)
    → w < 2 ^ 32
    → instruction w ≡ some i
    → step m i c ≡ moved c (not t) 20
    → d < usize_mod aarch64
    → c.pc + 20 < usize_mod aarch64
    → Holds m c.pc (le_bytes 4 w ++ jump_bytes d)
    → ((t ≡ false) × (run m 1 c ≡ some (record { pc = c.pc + 20; regs = c.regs })))
      ⊎ ((t ≡ true) × (run m 3 c ≡ some (record { pc = d; regs = set c.regs 16 d })))
unfolding le_bytes
skips-jump m c w d i t small is does hd room held =
    let (h1, h2) = Holds-behind m c.pc (c.pc + 4) 4 w (jump_bytes d) (omega arith) held in
    let here = Holds-word_at m c.pc 4 w small h1 in
    let first = λ (n : ℕ). run-step m n w i c here is ∙ ap (run m n) does in
    elim (Bool-cases t) [
      | inl goes ↦
          let c1 : Cpu = record { pc = c.pc + 4; regs = c.regs } in
          let next : moved c (not t) 20 ≡ c1 =
            ap (λ (u : Bool). moved c (not u) 20) goes
            ∙ cpu_eq (wrapped-exact c.pc 4 (omega arith)) refl in
          inr (goes, first 2 ∙ ap (run m 2) next ∙ jump_bytes-runs m c1 d hd (omega arith) h2)
      | inr stays ↦ inl (
        stays,
        first 0
            ∙ ap some (
                ap (λ (u : Bool). moved c (not u) 20) stays
                ∙ cpu_eq (wrapped-exact c.pc 20 room) refl),
      )
    ]

cbz_word : (negate sf : Bool) (r : ℕ) → ℕ
cbz_word negate sf r = bit_of sf * 2 ^ 31 + 0x3400_0000 + bit_of negate * 2 ^ 24 + 160 + r

cbz-bits :
    (negate sf : Bool) (r : ℕ)
    → r < 32
    → bit_or (bit_or (cbz_base negate sf) (5 * 32)) r ≡ cbz_word (not negate) sf r
unfolding cbz_word
cbz-bits true true r h = bit_or-sum 5 _ r refl h
cbz-bits true false r h = bit_or-sum 5 _ r refl h
cbz-bits false true r h = bit_or-sum 5 _ r refl h
cbz-bits false false r h = bit_or-sum 5 _ r refl h

cbz-instruction :
    (negate sf : Bool) (r : ℕ)
    → r < 32
    → instruction (cbz_word negate sf r) ≡ some (cbz (bit_of sf) (bit_of negate) r 20)
unfolding instruction cbz_word
cbz-instruction negate sf r h =
    let w = bit_of sf * 2 ^ 31 + 0x3400_0000 + bit_of negate * 2 ^ 24 + 160 + r in
    let small = bit_of-lt sf in
    let small' = bit_of-lt negate in
    let a : (bits 26 6 w == 5) ≡ false = ground arith in
    let o : bits 25 6 w ≡ 0x1A = omega arith in
    let s : bits 31 1 w ≡ bit_of sf = omega arith in
    let n : bits 24 1 w ≡ bit_of negate = omega arith in
    let i : bits 5 19 w ≡ 5 = omega arith in
    let t : bits 0 5 w ≡ r = omega arith in rw (a, o, s, n, i, t) refl

cbz_word-lt : (negate sf : Bool) (r : ℕ) → r < 32 → cbz_word negate sf r < 2 ^ 32
unfolding cbz_word
cbz_word-lt negate sf r h = omega (arith, bit_of-lt negate, bit_of-lt sf)

-- A far CBZ or CBNZ: three instructions to its destination where its register passes the test, else
-- one to its own end.
pub cbz_far-runs :
    (m : Memory) (c : Cpu) (r : ℕ) (sf negate : Bool) (d : ℕ) (code : List ℕ)
    → r < 32
    → d < usize_mod aarch64
    → c.pc + 20 < usize_mod aarch64
    → generate (cbz_far r sf negate d) c.pc ≡ ok code
    → Holds m c.pc code
    → ((decided (bit_of negate) (is_zero (bit_of sf) (reg c r)) ≡ false)
        × (run m 1 c ≡ some (record { pc = c.pc + 20; regs = c.regs })))
      ⊎ ((decided (bit_of negate) (is_zero (bit_of sf) (reg c r)) ≡ true)
          × (run m 3 c ≡ some (record { pc = d; regs = set c.regs 16 d })))
unfolding generate cbz_far
cbz_far-runs m c r sf negate d code hr hd room h held =
    let bytes =
      subst (Holds m c.pc)
        (sym (ok-injective h) ∙ ap (λ x. le_bytes 4 x ++ jump_bytes d) (cbz-bits negate sf r hr))
        held in
    skips-jump m c (cbz_word (not negate) sf r) d (cbz (bit_of sf) (bit_of (not negate)) r 20)
      (decided (bit_of negate) (is_zero (bit_of sf) (reg c r))) (cbz_word-lt (not negate) sf r hr)
      (cbz-instruction (not negate) sf r hr)
      (ap (λ t. moved c t 20) (decided-other negate (is_zero (bit_of sf) (reg c r)))) hd room bytes

tbz_word : (bit : ℕ) (negate : Bool) (r : ℕ) → ℕ
tbz_word bit negate r =
    bit / 32 % 2 * 2 ^ 31 + (0x3600_0000 + bit_of negate * 2 ^ 24) + bit % 32 * 2 ^ 19 + 160 + r

tbz-bits :
    (bit : ℕ) (negate : Bool) (r : ℕ)
    → r < 32
    → bit_or
        (bit_or
          (bit_or
            (bit_or (bit_and (bit / 32) 1 * 2 ^ 31) (if negate then 0x3600_0000 else 0x3700_0000))
            (bit_and bit 31 * 2 ^ 19))
          (5 * 32))
        r
      ≡ tbz_word bit (not negate) r
unfolding tbz_word
tbz-bits bit negate r h =
    let opcode : (if negate then 0x3600_0000 else 0x3700_0000)
        ≡ 0x3600_0000 + bit_of (not negate) * 2 ^ 24 =
      elim negate
        as (λ n. (if n then 0x3600_0000 else 0x3700_0000) ≡ 0x3600_0000 + bit_of (not n) * 2 ^ 24) [
          | true ↦ refl
          | false ↦ refl
        ] in
    let small = bit_of-lt (not negate) in
    let s0 = bit / 32 % 2 * 2 ^ 31 in
    let s1 = s0 + (0x3600_0000 + bit_of (not negate) * 2 ^ 24) in
    let s2 = s1 + bit % 32 * 2 ^ 19 in
    let e0 =
      bit_or-sum 31 s0 (0x3600_0000 + bit_of (not negate) * 2 ^ 24) (omega arith) (omega arith) in
    let e1 = bit_or-sum 24 s1 (bit % 32 * 2 ^ 19) (omega arith) (omega arith) in
    let e2 = bit_or-sum 19 s2 160 (omega arith) (omega arith) in
    let e3 = bit_or-sum 5 (s2 + 160) r (omega arith) h in
    rw (bit_and-mask 1 (bit / 32), bit_and-mask 5 bit, opcode, e0, e1, e2, e3)

tbz-instruction :
    (bit : ℕ) (negate : Bool) (r : ℕ)
    → bit < 64
    → r < 32
    → instruction (tbz_word bit negate r) ≡ some (tbz bit (bit_of negate) r 20)
unfolding instruction tbz_word
tbz-instruction bit negate r hb h =
    let w =
      bit / 32 % 2 * 2 ^ 31
      + (0x3600_0000 + bit_of negate * 2 ^ 24)
      + bit % 32 * 2 ^ 19
      + 160
      + r in
    let small = bit_of-lt negate in
    let a : (bits 26 6 w == 5) ≡ false = ground arith in
    let o : bits 25 6 w ≡ 0x1B = omega arith in
    let s : bits 31 1 w * 32 + bits 19 5 w ≡ bit = omega arith in
    let n : bits 24 1 w ≡ bit_of negate = omega arith in
    let i : bits 5 14 w ≡ 5 = omega arith in
    let t : bits 0 5 w ≡ r = omega arith in rw (a, o, s, n, i, t) refl

tbz_word-lt : (bit : ℕ) (negate : Bool) (r : ℕ) → r < 32 → tbz_word bit negate r < 2 ^ 32
unfolding tbz_word
tbz_word-lt bit negate r h = omega (arith, bit_of-lt negate)

-- A far TBZ or TBNZ, in the same way.
pub tbz_far-runs :
    (m : Memory) (c : Cpu) (r bit : ℕ) (negate : Bool) (d : ℕ) (code : List ℕ)
    → r < 32
    → bit < 64
    → d < usize_mod aarch64
    → c.pc + 20 < usize_mod aarch64
    → generate (tbz_far r bit negate d) c.pc ≡ ok code
    → Holds m c.pc code
    → ((decided (bit_of negate) (bits bit 1 (reg c r) == 0) ≡ false)
        × (run m 1 c ≡ some (record { pc = c.pc + 20; regs = c.regs })))
      ⊎ ((decided (bit_of negate) (bits bit 1 (reg c r) == 0) ≡ true)
          × (run m 3 c ≡ some (record { pc = d; regs = set c.regs 16 d })))
unfolding generate tbz_far
tbz_far-runs m c r bit negate d code hr hb hd room h held =
    let bytes =
      subst (Holds m c.pc)
        (sym (ok-injective h) ∙ ap (λ x. le_bytes 4 x ++ jump_bytes d) (tbz-bits bit negate r hr))
        held in
    skips-jump m c (tbz_word bit (not negate) r) d (tbz bit (bit_of (not negate)) r 20)
      (decided (bit_of negate) (bits bit 1 (reg c r) == 0)) (tbz_word-lt bit (not negate) r hr)
      (tbz-instruction bit (not negate) r hb hr)
      (ap (λ t. moved c t 20) (decided-other negate (bits bit 1 (reg c r) == 0))) hd room bytes

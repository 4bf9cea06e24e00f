-- ===== src/Aarch64/Thunk/Runs.antt =====
-- What the moves of an immediate of src/arch/aarch64/thunk/mod.rs do where they stand, by the manual's
-- reading of their instructions.
use detour_rs.Base.{
  ℕ, suc, ◌+◌, ◌*◌, ◌/◌, ◌^◌, ◌%◌, ◌<◌, ◌≡◌, refl, subst, ap, ◌∙◌, ◌≢◌, some, ◌++◌, bit_or, fun_ext,
  arith,
}
use mathlib.Core.Path.{ap₂}
use detour_rs.Base.Fields.{bit_or-sum, bit_and-mask}
use detour_rs.Base.Memory.{Memory, Holds, Holds-behind, Holds-word_at, word_at}
use detour_rs.Base.Words.{le_bytes, wrapping_add}
use detour_rs.Arch.{aarch64, usize_mod}
use detour_rs.Aarch64.Thunk.{encode_mov_imm64}
use detour_rs.Aarch64.Machine.{
  Cpu, set, reg, run, run-step, instruction, movz, movk, bits, inserted,
}

pub cpu_eq :
    {p q : ℕ} {f g : ℕ → ℕ}
    → p ≡ q
    → f ≡ g
    → ◌≡◌ {A = Cpu} (record { pc = p; regs = f }) (record { pc = q; regs = g })
cpu_eq e h = ap₂ (λ (p : ℕ) (f : ℕ → ℕ). record { pc = p; regs = f }) e h

set-set : (f : ℕ → ℕ) (r u v : ℕ) → set (set f r u) r v ≡ set f r v
set-set f r u v = fun_ext λ x. ground arith

-- MOVZ and MOVK, as sums of their fields.
abbrev mov_word : (base part reg : ℕ) → ℕ
mov_word base part reg = base + part * 32 + reg

mov_word-bits :
    (base k part reg : ℕ)
    → base ≡ k * 2 ^ 21
    → part < 2 ^ 16
    → reg < 32
    → bit_or (bit_or base (part * 32)) reg ≡ mov_word base part reg
mov_word-bits base k part reg e hp hr =
    let e1 = bit_or-sum 21 base (part * 32) (omega arith) (omega arith) in
    let e2 = bit_or-sum 5 (base + part * 32) reg (omega arith) hr in ap (λ x. bit_or x reg) e1 ∙ e2

-- The four parts of a value.
abbrev part_of : (n value : ℕ) → ℕ
part_of n value = value / 2 ^ n % 2 ^ 16

encode_mov_imm64-words :
    (r value : ℕ)
    → r < 32
    → encode_mov_imm64 r value
      ≡ le_bytes 4 (mov_word 0xD280_0000 (part_of 0 value) r)
        ++ le_bytes 4 (mov_word 0xF2A0_0000 (part_of 16 value) r)
        ++ le_bytes 4 (mov_word 0xF2C0_0000 (part_of 32 value) r)
        ++ le_bytes 4 (mov_word 0xF2E0_0000 (part_of 48 value) r)
unfolding encode_mov_imm64
encode_mov_imm64-words r value h = rw (
  bit_and-mask 16 (value / 2 ^ 0),
  bit_and-mask 16 (value / 2 ^ 16),
  bit_and-mask 16 (value / 2 ^ 32),
  bit_and-mask 16 (value / 2 ^ 48),
  mov_word-bits 0xD280_0000 0x694 (part_of 0 value) r (omega arith) (omega arith) h,
  mov_word-bits 0xF2A0_0000 0x795 (part_of 16 value) r (omega arith) (omega arith) h,
  mov_word-bits 0xF2C0_0000 0x796 (part_of 32 value) r (omega arith) (omega arith) h,
  mov_word-bits 0xF2E0_0000 0x797 (part_of 48 value) r (omega arith) (omega arith) h,
)

movz-instruction :
    (part r : ℕ)
    → part < 2 ^ 16
    → r < 32
    → instruction (mov_word 0xD280_0000 part r) ≡ some (movz 0 part r)
unfolding instruction
movz-instruction part r hp hr =
    let w = mov_word 0xD280_0000 part r in
    let a : bits 26 6 w ≡ 0x34 = omega arith in
    let b : bits 25 6 w ≡ 0x29 = omega arith in
    let c : bits 24 5 w ≡ 0x12 = omega arith in
    let o : bits 23 9 w ≡ 0x1A5 = omega arith in
    let h : bits 21 2 w ≡ 0 = omega arith in
    let i : bits 5 16 w ≡ part = omega arith in
    let d : bits 0 5 w ≡ r = omega arith in rw (a, b, c, o, h, i, d) refl

movk-instruction :
    (hw base part r : ℕ)
    → hw < 4
    → base ≡ 0xF280_0000 + hw * 2 ^ 21
    → part < 2 ^ 16
    → r < 32
    → instruction (mov_word base part r) ≡ some (movk hw part r)
unfolding instruction
movk-instruction hw base part r hh e hp hr =
    let w = mov_word base part r in
    let a : bits 26 6 w ≡ 0x3C = omega arith in
    let b : bits 25 6 w ≡ 0x39 = omega arith in
    let c : bits 24 5 w ≡ 0x12 = omega arith in
    let o : bits 23 9 w ≡ 0x1E5 = omega arith in
    let h : bits 21 2 w ≡ hw = omega arith in
    let i : bits 5 16 w ≡ part = omega arith in
    let d : bits 0 5 w ≡ r = omega arith in rw (a, b, c, o, h, i, d) refl

reg-set : (f : ℕ → ℕ) (p rd v : ℕ) → rd ≢ 31 → reg (record { pc = p; regs = set f rd v }) rd ≡ v
reg-set f p rd v h = ground arith

pub wrapped-exact :
    (s k : ℕ) → s + k < usize_mod aarch64 → wrapping_add (usize_mod aarch64) s k ≡ s + k
wrapped-exact s k h = omega arith

-- A MOVK on a register that was set.
movk-runs :
    (m : Memory) (n s hw base part r x : ℕ) (f : ℕ → ℕ)
    → hw < 4
    → base ≡ 0xF280_0000 + hw * 2 ^ 21
    → part < 2 ^ 16
    → r < 32
    → r ≢ 31
    → s + 4 < usize_mod aarch64
    → word_at m s 4 ≡ mov_word base part r
    → run m (suc n) (record { pc = s; regs = set f r x })
      ≡ run m n (record { pc = s + 4; regs = set f r (inserted hw part x) })
movk-runs m n s hw base part r x f hh e hp hr other room here =
    let c : Cpu = record { pc = s; regs = set f r x } in
    run-step m n (mov_word base part r) (movk hw part r) c here
      (movk-instruction hw base part r hh e hp hr)
    ∙ ap (run m n) (
        cpu_eq (wrapped-exact s 4 room)
          (set-set f r x _ ∙ ap (λ y. set f r (inserted hw part y)) (reg-set f s r x other)))

inserted_all :
    (v : ℕ)
    → v < usize_mod aarch64
    → inserted 3
        (part_of 48 v)
        (inserted 2 (part_of 32 v) (inserted 1 (part_of 16 v) (part_of 0 v)))
      ≡ v
inserted_all v h =
    let e1 : inserted 1 (part_of 16 v) (part_of 0 v) ≡ v % 2 ^ 32 = omega arith in
    let e2 : inserted 2 (part_of 32 v) (v % 2 ^ 32) ≡ v % 2 ^ 48 = omega arith in
    let e3 : inserted 3 (part_of 48 v) (v % 2 ^ 48) ≡ v = omega arith in
    ap (λ x. inserted 3 (part_of 48 v) (inserted 2 (part_of 32 v) x)) e1
    ∙ ap (inserted 3 (part_of 48 v)) e2
    ∙ e3

-- The four words of a value.
mov_words :
    (m : Memory) (s r v : ℕ)
    → r < 32
    → Holds m s (encode_mov_imm64 r v)
    → (word_at m s 4 ≡ mov_word 0xD280_0000 (part_of 0 v) r)
      × (word_at m (s + 4) 4 ≡ mov_word 0xF2A0_0000 (part_of 16 v) r)
      × (word_at m (s + 8) 4 ≡ mov_word 0xF2C0_0000 (part_of 32 v) r)
      × (word_at m (s + 12) 4 ≡ mov_word 0xF2E0_0000 (part_of 48 v) r)
unfolding le_bytes
mov_words m s r v hr held =
    let w0 = mov_word 0xD280_0000 (part_of 0 v) r in
    let w1 = mov_word 0xF2A0_0000 (part_of 16 v) r in
    let w2 = mov_word 0xF2C0_0000 (part_of 32 v) r in
    let w3 = mov_word 0xF2E0_0000 (part_of 48 v) r in
    let (h0, t0) =
      Holds-behind m s (s + 4) 4 w0 (le_bytes 4 w1 ++ le_bytes 4 w2 ++ le_bytes 4 w3) (omega arith)
        (subst (Holds m s) (encode_mov_imm64-words r v hr) held) in
    let (h1, t1) =
      Holds-behind m (s + 4) (s + 8) 4 w1 (le_bytes 4 w2 ++ le_bytes 4 w3) (omega arith) t0 in
    let (h2, h3) = Holds-behind m (s + 8) (s + 12) 4 w2 (le_bytes 4 w3) (omega arith) t1 in
    (
      Holds-word_at m s 4 w0 (omega arith) h0,
      Holds-word_at m (s + 4) 4 w1 (omega arith) h1,
      Holds-word_at m (s + 8) 4 w2 (omega arith) h2,
      Holds-word_at m (s + 12) 4 w3 (omega arith) h3,
    )

-- Four instructions that load a value into a register, which is not register 31.
pub encode_mov_imm64-runs :
    (m : Memory) (c : Cpu) (r v : ℕ)
    → r < 32
    → r ≢ 31
    → v < usize_mod aarch64
    → c.pc + 16 < usize_mod aarch64
    → Holds m c.pc (encode_mov_imm64 r v)
    → run m 4 c ≡ some (record { pc = c.pc + 16; regs = set c.regs r v })
encode_mov_imm64-runs m c r v hr other hv room held =
    let (w0, w1, w2, w3) = mov_words m c.pc r v hr held in
    let p0 = part_of 0 v in
    let s1 = inserted 1 (part_of 16 v) p0 in
    let s2 = inserted 2 (part_of 32 v) s1 in
    run-step m 3 (mov_word 0xD280_0000 p0 r) (movz 0 p0 r) c w0
      (movz-instruction p0 r (omega arith) hr)
    ∙ ap (run m 3) (cpu_eq (wrapped-exact c.pc 4 (omega arith)) (ap (set c.regs r) (omega arith)))
    ∙ movk-runs m 2 (c.pc + 4) 1 0xF2A0_0000 (part_of 16 v) r p0 c.regs (omega arith) refl
        (omega arith) hr other (omega arith) w1
    ∙ ap (λ q. run m 2 (record { pc = q; regs = set c.regs r s1 })) (omega arith)
    ∙ movk-runs m 1 (c.pc + 8) 2 0xF2C0_0000 (part_of 32 v) r s1 c.regs (omega arith) refl
        (omega arith) hr other (omega arith) w2
    ∙ ap (λ q. run m 1 (record { pc = q; regs = set c.regs r s2 })) (omega arith)
    ∙ movk-runs m 0 (c.pc + 12) 3 0xF2E0_0000 (part_of 48 v) r s2 c.regs (omega arith) refl
        (omega arith) hr other (omega arith) w3
    ∙ ap some (cpu_eq (omega arith) (ap (set c.regs r) (inserted_all v hv)))

-- ===== src/Aarch64/Reach.antt =====
-- Where the absolute jumps and calls of src/arch/aarch64/thunk/mod.rs lead, by the processor's
-- reading of the instructions that they are made of.
use detour_rs.Base.{
  ℕ, zero, suc, ◌+◌, ◌<◌, ◌≡◌, sym, subst, ap, Option, none, some, List, ◌++◌, ◌==◌, if◌then◌else◌,
  arith,
}
use detour_rs.Base.Words.{le_bytes}
use detour_rs.Base.Memory.{Memory, Holds, word_at, Holds-word_at, Holds-behind}
use detour_rs.Error.{ok, ok-injective}
use detour_rs.Arch.{aarch64, usize_mod}
use detour_rs.Pic.{CodeEmitter, generate, emit, add_thunk, new}
use detour_rs.Pic.Emit.{emit-single}
use detour_rs.Aarch64.Thunk.{jmp_abs, call_abs, relay_builder}

-- The program counter, X16 and the link register X30.
pub record Cpu : Type 0 where
  pub pc : ℕ
  pub reg_16 : ℕ
  pub link : ℕ

-- LDR X16, #8, then BR X16 and BLR X16; other instructions are not followed.
abbrev run_word : Memory → ℕ → Cpu → Option Cpu
run_word m w c =
    if w == 0x5800_0050
    then some (record { pc = c.pc + 4; reg_16 = word_at m (c.pc + 8) 8; link = c.link })
    else if w == 0xD61F_0200
    then some (record { pc = c.reg_16; reg_16 = c.reg_16; link = c.link })
    else if w == 0xD63F_0200
    then some (record { pc = c.reg_16; reg_16 = c.reg_16; link = c.pc + 4 })
    else none

abbrev pub run : Memory → ℕ → Cpu → Option Cpu
run m zero c = some c
run m (suc n) c = elim (run_word m (word_at m c.pc 4) c) [ none ↦ none | some d ↦ run m n d ]

literal_words :
    (m : Memory) (s op d : ℕ)
    → op < 0x1_0000_0000
    → d < usize_mod aarch64
    → Holds m s (le_bytes 4 0x5800_0050 ++ le_bytes 4 op ++ le_bytes 8 d)
    → (word_at m s 4 ≡ 0x5800_0050) × (word_at m (s + 4) 4 ≡ op) × (word_at m (s + 8) 8 ≡ d)
unfolding le_bytes
literal_words m s op d ho hd held =
    let (first, rest) =
      Holds-behind m s (s + 4) 4 0x5800_0050 (le_bytes 4 op ++ le_bytes 8 d) (omega arith) held in
    let (second, third) = Holds-behind m (s + 4) (s + 8) 4 op (le_bytes 8 d) (omega arith) rest in
    (
      Holds-word_at m s 4 0x5800_0050 (omega arith) first,
      Holds-word_at m (s + 4) 4 op ho second,
      Holds-word_at m (s + 8) 8 d hd third,
    )

-- An absolute jump, wherever it stands, leads to its destination, an address, in two instructions,
-- and leaves the link register alone.
pub jmp_abs-reaches :
    (m : Memory) (c : Cpu) (d : ℕ) (code : List ℕ)
    → d < usize_mod aarch64
    → generate (jmp_abs d) c.pc ≡ ok code
    → Holds m c.pc code
    → run m 2 c ≡ some (record { pc = d; reg_16 = d; link = c.link })
unfolding generate jmp_abs
jmp_abs-reaches m c d code hd h held =
    let (first, second, third) =
      literal_words m c.pc 0xD61F_0200 d (omega arith) hd
        (subst (Holds m c.pc) (sym (ok-injective h)) held) in
    rw (first, run, second, third)

-- An absolute call enters its destination, an address, in two instructions, and the address that it
-- leaves in the link register is that of its own literal: what stands there is the destination.
pub call_abs-returns :
    (m : Memory) (c : Cpu) (d : ℕ) (code : List ℕ)
    → d < usize_mod aarch64
    → generate (call_abs d) c.pc ≡ ok code
    → Holds m c.pc code
    → (run m 2 c ≡ some (record { pc = d; reg_16 = d; link = c.pc + 8 }))
      × (word_at m (c.pc + 8) 8 ≡ d)
unfolding generate call_abs
call_abs-returns m c d code hd h held =
    let (first, second, third) =
      literal_words m c.pc 0xD63F_0200 d (omega arith) hd
        (subst (Holds m c.pc) (sym (ok-injective h)) held) in
    (
      rw (first, run, second, third)
          (ap (λ n. some (record { pc = d; reg_16 = d; link = n })) (omega arith)),
      third,
    )

-- The code of a relay, wherever it stands, leads to the detour, an address, in two instructions.
pub relay_builder-reaches :
    (m : Memory) (target : ℕ) (c : Cpu) (detour : ℕ) (relay : CodeEmitter) (code : List ℕ)
    → detour < usize_mod aarch64
    → relay_builder target detour ≡ some relay
    → emit aarch64 relay c.pc ≡ ok code
    → Holds m c.pc code
    → run m 2 c ≡ some (record { pc = detour; reg_16 = detour; link = c.link })
unfolding relay_builder
relay_builder-reaches m target c detour relay code hd r e held =
    let made : relay ≡ add_thunk new (jmp_abs detour) = ground arith in
    jmp_abs-reaches m c detour code hd
      (emit-single aarch64 (jmp_abs detour) c.pc code (rw made at e)) held

-- ===== src/Aarch64/Thunk/Jump.antt =====
-- What the absolute jump of src/arch/aarch64/thunk/mod.rs does, by the manual's reading of its two
-- instructions.
use detour_rs.Base.{ℕ, ◌+◌, ◌<◌, ◌≡◌, refl, ap, ◌∙◌, some, ◌++◌, arith}
use detour_rs.Base.Memory.{Memory, Holds, Holds-behind, Holds-word_at, word_at}
use detour_rs.Base.Words.{le_bytes}
use detour_rs.Arch.{aarch64, usize_mod}
use detour_rs.Aarch64.Thunk.{jump_bytes}
use detour_rs.Aarch64.Machine.{Cpu, set, run, run-step, instruction, br, ldr_literal}
use detour_rs.Aarch64.Thunk.Runs.{cpu_eq, wrapped-exact}

-- The literal of an absolute jump.
jump_words :
    (m : Memory) (s d : ℕ)
    → d < usize_mod aarch64
    → Holds m s (jump_bytes d)
    → (word_at m s 4 ≡ 0x5800_0050)
      × (word_at m (s + 4) 4 ≡ 0xD61F_0200)
      × (word_at m (s + 8) 8 ≡ d)
unfolding le_bytes
jump_words m s d hd held =
    let (h1, t1) =
      Holds-behind m s (s + 4) 4 0x5800_0050 (le_bytes 4 0xD61F_0200 ++ le_bytes 8 d) (omega arith)
        held in
    let (h2, h3) = Holds-behind m (s + 4) (s + 8) 4 0xD61F_0200 (le_bytes 8 d) (omega arith) t1 in
    (
      Holds-word_at m s 4 0x5800_0050 (omega arith) h1,
      Holds-word_at m (s + 4) 4 0xD61F_0200 (omega arith) h2,
      Holds-word_at m (s + 8) 8 d hd h3,
    )

literal-instruction : instruction 0x5800_0050 ≡ some (ldr_literal 16 8)
unfolding instruction
literal-instruction = refl

br-instruction : instruction 0xD61F_0200 ≡ some (br 16)
unfolding instruction
br-instruction = refl

-- Two instructions that enter a destination, with it in X16.
pub jump_bytes-runs :
    (m : Memory) (c : Cpu) (d : ℕ)
    → d < usize_mod aarch64
    → c.pc + 8 < usize_mod aarch64
    → Holds m c.pc (jump_bytes d)
    → run m 2 c ≡ some (record { pc = d; regs = set c.regs 16 d })
jump_bytes-runs m c d hd room held =
    let (w1, w2, w3) = jump_words m c.pc d hd held in
    let c1 : Cpu = record { pc = c.pc + 4; regs = set c.regs 16 d } in
    let literal = ap (λ x. word_at m x 8) (wrapped-exact c.pc 8 room) ∙ w3 in
    run-step m 1 0x5800_0050 (ldr_literal 16 8) c w1 literal-instruction
    ∙ ap (run m 1) (cpu_eq (wrapped-exact c.pc 4 (omega arith)) (ap (set c.regs 16) literal))
    ∙ run-step m 0 0xD61F_0200 (br 16) c1 w2 br-instruction

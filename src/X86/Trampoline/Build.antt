-- ===== src/X86/Trampoline/Build.antt =====
-- How the loop of src/arch/x86/trampoline/mod.rs ends: how much of the function is copied and what
-- stands at the end of the trampoline.
use detour_rs.Base.{ℕ, ◌+◌, ◌%◌, ◌≤◌, ◌<◌, ◌≡◌, ◌⊎◌, false, List, [], ◌∷◌, ◌++◌, if◌then◌else◌}
use detour_rs.Base.Memory.{Memory}
use detour_rs.Pic.{Thunk, CodeEmitter}
use detour_rs.X86.Defs.{X86Arch, word_mod}
use detour_rs.X86.Thunk.{jmp}
use detour_rs.X86.Disasm.{Instruction}
use detour_rs.X86.Trampoline.{Trampoline, Builder}
use detour_rs.X86.Trampoline.Rounds.{Terminator}

-- What the disassembler promises of the instructions that it yields: they stand one behind the
-- other, from the address that it was given on.
abbrev pub Consecutive : ℕ → List Instruction → Type 0
Consecutive ip [] = Unit {0}
Consecutive ip (i ∷ is) = (i.ip ≡ ip) × (i.next_ip ≡ ip + i.len) × Consecutive (ip + i.len) is

abbrev pub Any : (Instruction → Type 0) → List Instruction → Type 0
Any P [] = ⊥
Any P (i ∷ is) = P i ⊎ Any P is

-- How many bytes the instructions have that stand before the first invalid one.
abbrev pub valid_len : List Instruction → ℕ
valid_len [] = 0
valid_len (i ∷ is) = if i.is_invalid then 0 else i.len + valid_len is

-- How a prolog ends: with the jump to the instruction behind it, when the margin is reached; with
-- a return or an unconditional jump, up to which it was copied; or open, where the `whole` of
-- the instructions was copied.
abbrev pub Ends : X86Arch → List Instruction → (whole : ℕ) → Builder → CodeEmitter → Type 0
Ends a is whole b e =
    ((b.margin ≤ b.total_bytes_disassembled)
      × (pre : List Thunk) × (e.thunks
          ≡ pre ++ jmp a ((b.target + b.total_bytes_disassembled) % word_mod a) ∷ []))
    ⊎ Any (λ i. Terminator i × (i.next_ip ≡ b.target + b.total_bytes_disassembled)) is
    ⊎ ((b.finished ≡ false)
        × (b.total_bytes_disassembled ≡ whole)
        × (b.total_bytes_disassembled < b.margin))

abbrev Goal : X86Arch → List Instruction → Builder → Builder × CodeEmitter → Type 0
Goal a is b (b', e') =
    (b'.target ≡ b.target)
    × (b'.margin ≡ b.margin)
    × Ends a is (b.total_bytes_disassembled + valid_len is) b' e'

-- How a trampoline ends, for the instructions that the disassembler yielded.
abbrev pub TrampolineEnds : X86Arch → List Instruction → (target margin : ℕ) → Trampoline → Type 0
TrampolineEnds a is target margin t =
    ((margin ≤ t.prolog_size)
      × (pre : List Thunk) × (t.emitter.thunks
          ≡ pre ++ jmp a ((target + t.prolog_size) % word_mod a) ∷ []))
    ⊎ Any (λ i. Terminator i × (i.next_ip ≡ target + t.prolog_size)) is
    ⊎ ((t.prolog_size ≡ valid_len is) × (t.prolog_size < margin))

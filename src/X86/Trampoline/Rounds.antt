-- ===== src/X86/Trampoline/Rounds.antt =====
-- What a round of the loop of src/arch/x86/trampoline/mod.rs does to the builder and the emitter.
use detour_rs.Base.{
  ℕ, ◌+◌, ◌%◌, ◌≤◌, ◌<◌, ◌≡◌, ◌∙◌, ◌⊎◌, inl, inr, true, false, not, List, arith, if◌then◌else◌,
  Option-cases,
}
use detour_rs.Error.{ok, >>=-eq-ok}
use detour_rs.Pic.{Thunk, vec, CodeEmitter, add_thunk}
use detour_rs.X86.Defs.{X86Arch, word_mod}
use detour_rs.X86.Thunk.{jmp}
use detour_rs.X86.Disasm.{
  Instruction, is_unconditional_jump, is_return, rip_operand_target, relative_branch_target,
}
use detour_rs.X86.Trampoline.{
  Builder, is_instruction_in_branch, handle_rip_relative_instruction, handle_relative_branch,
  process_instruction, place_thunk, round, slice_index,
}

-- An instruction after which the function may end.
abbrev pub Terminator : Instruction → Type 0
Terminator i = (is_unconditional_jump i ≡ true) ⊎ (is_return i ≡ true)

-- What analysing an instruction leaves alone; it ends the prolog at a terminator only.
abbrev Kept : Builder → Instruction → Builder → Type 0
Kept b i b' =
    (b'.total_bytes_disassembled ≡ b.total_bytes_disassembled)
    × (b'.margin ≡ b.margin)
    × (b'.target ≡ b.target)
    × (b'.finished ≡ true → b.finished ≡ false → Terminator i)

module _ (a : X86Arch) (b b' : Builder) (i : Instruction) (bytes : List ℕ) (t : Thunk) where
  rip_relative-Kept :
      (target : ℕ) → handle_rip_relative_instruction a b i bytes target ≡ ok (b', t) → Kept b i b'
  unfolding handle_rip_relative_instruction
  rip_relative-Kept target h = ground arith

  relative_branch-Kept :
      (target : ℕ) → handle_relative_branch a b i bytes target ≡ ok (b', t) → Kept b i b'
  unfolding handle_relative_branch
  relative_branch-Kept target h = ground arith

  process-Kept : process_instruction a b i bytes ≡ ok (b', t) → Kept b i b'
  unfolding process_instruction
  process-Kept h = elim (Option-cases (rip_operand_target i)) [
    | inr (x, e) ↦ rip_relative-Kept (x % word_mod a) (rw (e, process_instruction) at h)
    | inl e ↦ elim (Option-cases (relative_branch_target i)) [
      | inr (x, f) ↦ relative_branch-Kept (x % word_mod a) (rw (e, f, process_instruction) at h)
      | inl f ↦
          let g : ok (
            (if is_return i then record b { finished = not (is_instruction_in_branch b i) } else b),
            vec bytes,
          )
              ≡ ok (b', t) =
            rw (e, f, process_instruction) at h in
          ground arith
    ]
  ]

-- What a round does to the builder and to the emitter.
abbrev pub Rounded : X86Arch → Instruction → Builder → CodeEmitter → Builder → CodeEmitter → Type 0
Rounded a i b e b' e' =
    (b'.total_bytes_disassembled ≡ b.total_bytes_disassembled + i.len)
    × (b'.margin ≡ b.margin)
    × (b'.target ≡ b.target)
    × (t : Thunk) × (((b'.finished ≡ false)
          × (b'.total_bytes_disassembled < b'.margin)
          × (e' ≡ add_thunk e t))
        ⊎ ((b'.finished ≡ true) × Terminator i × (e' ≡ add_thunk e t))
        ⊎ ((b'.finished ≡ true)
            × (b'.margin ≤ b'.total_bytes_disassembled)
            × (e' ≡ add_thunk (add_thunk e t) (jmp a (i.next_ip % word_mod a)))))

place_thunk-cases :
    (a : X86Arch) (b b' : Builder) (e e' : CodeEmitter) (i : Instruction) (t : Thunk)
    → place_thunk a b e i t ≡ ok (b', e')
    → (b'.total_bytes_disassembled ≡ b.total_bytes_disassembled)
      × (b'.margin ≡ b.margin)
      × (b'.target ≡ b.target)
      × (((b'.finished ≡ false) × (b'.total_bytes_disassembled < b'.margin) × (e' ≡ add_thunk e t))
          ⊎ ((b'.finished ≡ true) × (b.finished ≡ true) × (e' ≡ add_thunk e t))
          ⊎ ((b'.finished ≡ true)
              × (b'.margin ≤ b'.total_bytes_disassembled)
              × (e' ≡ add_thunk (add_thunk e t) (jmp a (i.next_ip % word_mod a)))))
unfolding place_thunk
place_thunk-cases a b b' e e' i t h = ground arith

pub round-Rounded :
    (a : X86Arch) (slice : List ℕ) (i : Instruction) (b b' : Builder) (e e' : CodeEmitter)
    → b.finished ≡ false
    → round a slice i b e ≡ ok (b', e')
    → Rounded a i b e b' e'
unfolding round
round-Rounded a slice i b b' e e' f h =
    let b1 : Builder = record b { total_bytes_disassembled = b.total_bytes_disassembled + i.len } in
    let (bytes, g, rest) = >>=-eq-ok (slice_index slice _ i.len) _ h in
    let ((b2, t), processed, placed) = >>=-eq-ok (process_instruction a b1 i bytes) _ rest in
    let kept = process-Kept a b1 b2 i bytes t processed in
    let (total, margin, target, cases) = place_thunk-cases a b2 b' e e' i t placed in
    (
      total ∙ kept.0,
      margin ∙ kept.1,
      target ∙ kept.2,
      t,
      elim cases [
        | inl open' ↦ inl open'
        | inr (inl (done, before, code)) ↦ inr (inl (done, kept.3 before f, code))
        | inr (inr jumped) ↦ inr (inr jumped)
      ],
    )

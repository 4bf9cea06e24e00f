-- ===== src/Arch/Fixed/Rounds.antt =====
-- The rounds of the builder of Arch/Fixed.antt: its prolog as a relation, what a round does, and what
-- the loop wants of an architecture's `process`.
use detour_rs.Base.{
  ℕ, suc, ◌+◌, ◌≤◌, ◌<◌, ◌≡◌, refl, subst, ◌⊎◌, inl, inr, true, false, not, ◌&&◌, some, List, [],
  ◌∷◌, leb, ◌==◌, Bool-cases, leb→le, leb→lt,
}
use detour_rs.Base.Memory.{Memory, word_at}
use detour_rs.Error.{
  Result, ok, err, panic, Error, unsupported_instruction, >>=-eq-ok, ok-injective,
}
use detour_rs.Arch.Fixed.{
  Builder, Processed, Isa, is_in_branch, address, close_prolog, round, build_loop, build,
  trampoline_of,
}
use detour_rs.Pic.{Thunk, CodeEmitter, new, add_thunk}

module _ (isa : Isa) (memory : Memory) where
  open isa use {arch, process, jmp_abs, checks_size}

  -- What a round's instruction is processed to.
  abbrev pub Reads : Builder → Processed → Type 0
  Reads b p = process b (word_at memory (address isa memory b) 4) (address isa memory b) ≡ ok p

  -- The builder behind an instruction.
  abbrev pub behind : Processed → Builder
  behind p = record p.state { total_bytes = p.state.total_bytes + 4 }

  -- A prolog, from a builder on: the thunks of its instructions in their order, and its size. It ends
  -- with an instruction at which `process` finishes it, or with a jump to the first byte behind the margin.
  pub data Prolog : Builder → List Thunk → ℕ → Type 0 where
    ended :
        {b : Builder} (p : Processed)
        → Reads b p
        → p.state.finished ≡ true
        → Prolog b (p.thunk ∷ []) ((behind p).total_bytes)
    closed :
        {b : Builder} (p : Processed)
        → Reads b p
        → p.state.finished ≡ false
        → p.state.margin ≤ (behind p).total_bytes
        → Prolog b (p.thunk ∷ jmp_abs (address isa memory (behind p)) ∷ []) ((behind p).total_bytes)
    next :
        {b : Builder} (p : Processed) {ts : List Thunk} {size : ℕ}
        → Reads b p
        → p.state.finished ≡ false
        → (behind p).total_bytes < p.state.margin
        → Prolog (behind p) ts size
        → Prolog b (p.thunk ∷ ts) size

  -- The builder and the emitter behind a round.
  abbrev pub Closed : Processed → CodeEmitter → Builder × CodeEmitter → Type 0
  Closed p e (b', e') =
      ((p.state.finished ≡ true) × (b' ≡ behind p) × (e' ≡ add_thunk e p.thunk))
      ⊎ ((p.state.finished ≡ false)
          × (p.state.margin ≤ (behind p).total_bytes)
          × (b' ≡ record (behind p) { finished = true })
          × (e' ≡ add_thunk (add_thunk e p.thunk) (jmp_abs (address isa memory (behind p)))))
      ⊎ ((p.state.finished ≡ false)
          × ((behind p).total_bytes < p.state.margin)
          × (b' ≡ behind p)
          × (e' ≡ add_thunk e p.thunk))

  close_prolog-Closed :
      (p : Processed) (e : CodeEmitter)
      → Closed p e (close_prolog isa memory (behind p) (add_thunk e p.thunk))
  close_prolog-Closed p e = elim (Bool-cases p.state.finished) [
    | inl over ↦ elim (Bool-cases (leb p.state.margin (behind p).total_bytes)) [
      | inl reached ↦ inl (over, simp (over, reached), simp (over, reached))
      | inr short ↦ inl (over, simp (over, short), simp (over, short))
    ]
    | inr on ↦ elim (Bool-cases (leb p.state.margin (behind p).total_bytes)) [
      | inl reached ↦ inr (inl (on, leb→le _ _ reached, simp (on, reached), simp (on, reached)))
      | inr short ↦ inr (inr (on, leb→lt _ _ short, simp short, simp short))
    ]
  ]

  -- What a round that succeeds does.
  pub round-Closed :
      (b : Builder) (e : CodeEmitter) (r : Builder × CodeEmitter)
      → round isa memory b e ≡ ok r
      → (p : Processed) × Reads b p × Closed p e r
  unfolding round
  round-Closed b e r h =
      let (p, read, rest) =
        >>=-eq-ok (process b (word_at memory (address isa memory b) 4) (address isa memory b)) _
          h in
      let grows =
        checks_size && (is_in_branch p.state (address isa memory b) && not (p.size == 4)) in
      elim (Bool-cases grows) [
        | inl grown ↦ let c : err unsupported_instruction ≡ ok r = rw grown at rest in cc
        | inr fits ↦
            (p, read, subst (Closed p e) (ok-injective (rw fits at rest)) (close_prolog-Closed p e))
      ]

  -- The isa's `process` keeps the place of the builder, and ends a prolog at a terminator only.
  pub record Keeps (Terminator : ℕ → Type 0) : Type 0 where
    pub keeps :
        (b : Builder) (instr pc : ℕ) (p : Processed)
        → process b instr pc ≡ ok p
        → (p.state.target ≡ b.target)
          × (p.state.margin ≡ b.margin)
          × (p.state.total_bytes ≡ b.total_bytes)
    pub ends :
        (b : Builder) (instr pc : ℕ) (p : Processed)
        → process b instr pc ≡ ok p
        → b.finished ≡ false
        → p.state.finished ≡ true
        → Terminator instr

  -- A round of the loop, for each of its results.
  pub build_loop-ok :
      (fuel : ℕ) (b : Builder) (e : CodeEmitter) (r : Builder × CodeEmitter)
      → b.finished ≡ false
      → round isa memory b e ≡ ok r
      → build_loop isa memory (suc fuel) b e ≡ build_loop isa memory fuel r.0 r.1
  unfolding build_loop
  build_loop-ok fuel b e r on h = simp (on, h)

  pub build_loop-err :
      (fuel : ℕ) (b : Builder) (e : CodeEmitter) (x : Error)
      → b.finished ≡ false
      → round isa memory b e ≡ err x
      → build_loop isa memory (suc fuel) b e ≡ some (err x)
  unfolding build_loop
  build_loop-err fuel b e x on h = simp (on, h)

  pub build_loop-panic :
      (fuel : ℕ) (b : Builder) (e : CodeEmitter)
      → b.finished ≡ false
      → round isa memory b e ≡ panic
      → build_loop isa memory (suc fuel) b e ≡ some panic
  unfolding build_loop
  build_loop-panic fuel b e on h = simp (on, h)

  pub build_loop-finished :
      (fuel : ℕ) (b : Builder) (e : CodeEmitter)
      → b.finished ≡ true
      → build_loop isa memory (suc fuel) b e ≡ some (ok (b, e))
  unfolding build_loop
  build_loop-finished fuel b e over = simp over

  pub build-some :
      (b : Builder) (r : Result (Builder × CodeEmitter))
      → build_loop isa memory (suc (suc b.margin)) b new ≡ some r
      → build isa memory b ≡ some (trampoline_of isa memory r)
  unfolding build
  build-some b r h = rw (h, build) refl

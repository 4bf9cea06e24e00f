-- ===== src/Arch/Fixed/Loop.antt =====
-- What the builder of Arch/Fixed.antt makes of a target: that the loop ends, and that its trampolines
-- are those of the relation in Arch/Fixed/Rounds.antt.
use detour_rs.Base.{
  ℕ, zero, suc, ◌+◌, ◌≤◌, ◌<◌, ◌≡◌, refl, sym, subst, ap, ◌∙◌, ◌≢◌, ◌⊎◌, inl, inr, true, false,
  none, some, List, [], ◌∷◌, ◌++◌, arith, Bool-cases, Option-cases,
}
use detour_rs.Base.Memory.{Memory}
use detour_rs.Error.{Result, ok, err, panic, Result-cases, ok-injective}
use detour_rs.Arch.Fixed.{
  Trampoline, Builder, builder, Processed, Isa, address, round, build_loop, build, trampoline_of,
}
use detour_rs.Pic.{Thunk, CodeEmitter, new, add_thunk}
use mathlib.Core.List.{append_assoc}
use detour_rs.Arch.Fixed.Rounds.{
  Reads, behind, Prolog, ended, closed, next, Closed, round-Closed, Keeps, build_loop-ok,
  build_loop-err, build_loop-panic, build_loop-finished, build-some,
}

module _ (isa : Isa) (memory : Memory) (Terminator : ℕ → Type 0)
    (k : Keeps isa memory Terminator) where
  open isa use {process, jmp_abs}

  abbrev Enough : ℕ → Builder → Type 0
  Enough fuel b =
      ((b.finished ≡ true) × (0 < fuel))
      ⊎ ((b.total_bytes ≤ b.margin) × (b.margin + 1 < fuel + b.total_bytes))

  Enough-behind :
      (fuel : ℕ) (b : Builder) (e : CodeEmitter) (p : Processed) (r : Builder × CodeEmitter)
      → b.finished ≡ false
      → Enough (suc fuel) b
      → Reads isa memory b p
      → Closed isa memory p e r
      → Enough fuel r.0
  Enough-behind fuel b e p r on (inl (over, some_fuel)) read after_round = cc
  Enough-behind fuel b e p r on (inr (inside, enough)) read after_round =
      let (target, margin, total) = k.keeps b _ _ p read in
      elim after_round [
        | inl (over, same, _) ↦ inl (ap (λ c. c.finished) same ∙ over, omega arith)
        | inr (inl (_, _, same, _)) ↦ inl (ap (λ c. c.finished) same, omega arith)
        | inr (inr (_, short, same, _)) ↦
            let m = ap (λ c. c.margin) same in
            let t = ap (λ c. c.total_bytes) same in inr (omega arith, omega arith)
      ]

  -- As many rounds as the margin has bytes left, and two more, are enough.
  build_loop_ends :
      (fuel : ℕ) (b : Builder) (e : CodeEmitter)
      → Enough fuel b
      → build_loop isa memory fuel b e ≢ none
  unfolding build_loop
  build_loop_ends zero b e (inl (over, some_fuel)) = absurd (omega arith)
  build_loop_ends zero b e (inr (inside, enough)) = absurd (omega arith)
  build_loop_ends (suc fuel) b e enough = elim (Bool-cases b.finished) [
    | inl over ↦ rw (build_loop-finished isa memory fuel b e over) (λ c. cc)
    | inr on ↦ elim (Result-cases (round isa memory b e)) [
      | inr (inl (x, failed)) ↦ rw (build_loop-err isa memory fuel b e x on failed) (λ c. cc)
      | inr (inr panics) ↦ rw (build_loop-panic isa memory fuel b e on panics) (λ c. cc)
      | inl (r, h) ↦
          let (p, read, after_round) = round-Closed isa memory b e r h in
          rw (build_loop-ok isa memory fuel b e r on h)
            (build_loop_ends fuel r.0 r.1 (Enough-behind fuel b e p r on enough read after_round))
    ]
  ]

  -- A builder that is finished is what the loop gives back.
  build_loop_stops :
      (fuel : ℕ) (b : Builder) (e : CodeEmitter) (r : Builder × CodeEmitter)
      → b.finished ≡ true
      → build_loop isa memory fuel b e ≡ some (ok r)
      → r ≡ (b, e)
  unfolding build_loop
  build_loop_stops zero b e r over h = cc
  build_loop_stops (suc fuel) b e r over h =
      let c : some (ok (b, e)) ≡ some (ok r) =
        sym (build_loop-finished isa memory fuel b e over) ∙ h in
      cc

  -- A prolog that the loop makes is one of the relation, behind the thunks that were there.
  abbrev Made : Builder → CodeEmitter → Builder → CodeEmitter → Type 0
  Made b e b' e' =
      (ts : List Thunk) × (e'.thunks ≡ e.thunks ++ ts) × Prolog isa memory b ts b'.total_bytes

  prolog_behind :
      (fuel : ℕ) (b b' : Builder) (e e' : CodeEmitter) (p : Processed) (r : Builder × CodeEmitter)
      → ((c : Builder) (f : CodeEmitter)
          → c.finished ≡ false
          → build_loop isa memory fuel c f ≡ some (ok (b', e'))
          → Made c f b' e')
      → Reads isa memory b p
      → Closed isa memory p e r
      → build_loop isa memory fuel r.0 r.1 ≡ some (ok (b', e'))
      → Made b e b' e'
  unfolding add_thunk
  prolog_behind fuel b b' e e' p r ih read (inl (over, sb, se)) h =
      let stops = build_loop_stops fuel r.0 r.1 (b', e') (ap (λ c. c.finished) sb ∙ over) h in
      let total = ap (λ c. c.0.total_bytes) stops ∙ ap (λ c. c.total_bytes) sb in
      (
        p.thunk ∷ [],
        ap (λ c. c.1.thunks) stops ∙ ap (λ f. f.thunks) se,
        subst (Prolog isa memory b (p.thunk ∷ [])) (sym total) (ended p read over),
      )
  prolog_behind fuel b b' e e' p r ih read (inr (inl (on, reached, sb, se))) h =
      let stops = build_loop_stops fuel r.0 r.1 (b', e') (ap (λ c. c.finished) sb) h in
      let total = ap (λ c. c.0.total_bytes) stops ∙ ap (λ c. c.total_bytes) sb in
      let jump = jmp_abs (address isa memory (behind isa memory p)) in
      (
        p.thunk ∷ jump ∷ [],
        ap (λ c. c.1.thunks) stops
            ∙ ap (λ f. f.thunks) se
            ∙ append_assoc e.thunks (p.thunk ∷ []) (jump ∷ []),
        subst (Prolog isa memory b (p.thunk ∷ jump ∷ [])) (sym total) (closed p read on reached),
      )
  prolog_behind fuel b b' e e' p r ih read (inr (inr (on, short, sb, se))) h =
      let (ts, thunks, rest) = ih r.0 r.1 (ap (λ c. c.finished) sb ∙ on) h in
      (
        p.thunk ∷ ts,
        thunks ∙ ap (λ f. f.thunks ++ ts) se ∙ append_assoc e.thunks (p.thunk ∷ []) ts,
        next p read on short (subst (λ c. Prolog isa memory c ts b'.total_bytes) sb rest),
      )

  build_loop-Prolog :
      (fuel : ℕ) (b b' : Builder) (e e' : CodeEmitter)
      → b.finished ≡ false
      → build_loop isa memory fuel b e ≡ some (ok (b', e'))
      → Made b e b' e'
  unfolding build_loop
  build_loop-Prolog zero b b' e e' on h = cc
  build_loop-Prolog (suc fuel) b b' e e' on h = elim (Result-cases (round isa memory b e)) [
    | inr (inl (x, failed)) ↦
        let c : some (err x) ≡ some (ok (b', e')) =
          sym (build_loop-err isa memory fuel b e x on failed) ∙ h in
        cc
    | inr (inr panics) ↦
        let c : some panic ≡ some (ok (b', e')) =
          sym (build_loop-panic isa memory fuel b e on panics) ∙ h in
        cc
    | inl (r, step) ↦
        let (p, read, after_round) = round-Closed isa memory b e r step in
        prolog_behind fuel b b' e e' p r (λ c f. build_loop-Prolog fuel c b' f e') read after_round
          (sym (build_loop-ok isa memory fuel b e r on step) ∙ h)
  ]

  trampoline-Prolog :
      (target margin fuel : ℕ) (r : Result (Builder × CodeEmitter)) (t : Trampoline)
      → build_loop isa memory fuel (builder target margin) new ≡ some r
      → trampoline_of isa memory r ≡ ok t
      → Prolog isa memory (builder target margin) t.emitter.thunks t.prolog_size
  unfolding builder new
  trampoline-Prolog target margin fuel (ok (b', e')) t h made =
      let (ts, thunks, prolog) = build_loop-Prolog fuel (builder target margin) b' new e' refl h in
      let whole : Prolog isa memory (builder target margin) e'.thunks b'.total_bytes =
        subst (λ us. Prolog isa memory (builder target margin) us b'.total_bytes) (sym thunks)
          prolog in
      subst (λ u. Prolog isa memory (builder target margin) u.emitter.thunks u.prolog_size)
        (ok-injective made) whole
  trampoline-Prolog target margin fuel (err x) t h made = cc
  trampoline-Prolog target margin fuel panic t h made = cc

  Enough-start :
      (target margin : ℕ)
      → Enough (suc (suc ((builder target margin).margin))) (builder target margin)
  unfolding builder
  Enough-start target margin = inr (omega arith, omega arith)

  -- What a trampoline is, where one is made.
  abbrev pub Yields : Builder → Result Trampoline → Type 0
  Yields b (ok t) = Prolog isa memory b t.emitter.thunks t.prolog_size
  Yields b (err e) = Unit {0}
  Yields b panic = Unit {0}

  made-Yields :
      (target margin fuel : ℕ) (r : Result (Builder × CodeEmitter)) (u : Result Trampoline)
      → build_loop isa memory fuel (builder target margin) new ≡ some r
      → trampoline_of isa memory r ≡ u
      → Yields (builder target margin) u
  made-Yields target margin fuel r (ok t) h made = trampoline-Prolog target margin fuel r t h made
  made-Yields target margin fuel r (err e) h made = tt
  made-Yields target margin fuel r panic h made = tt

  -- The builder of a target always ends, with a result or an error, and a trampoline that it makes is
  -- a prolog of the relation: its thunks are those of the instructions from the target on, in their
  -- order. The architecture's `process` keeps the builder's place, and ends a prolog at a terminator.
  pub build-Prolog :
      (target margin : ℕ)
      → (r : Result Trampoline) × (build isa memory (builder target margin) ≡ some r)
        × Yields (builder target margin) r
  build-Prolog target margin =
      let b = builder target margin in
      let fuel = suc (suc b.margin) in
      elim (Option-cases (build_loop isa memory fuel b new)) [
        | inl out ↦ absurd (build_loop_ends fuel b new (Enough-start target margin) out)
        | inr (r, h) ↦ (
          trampoline_of isa memory r,
          build-some isa memory b r h,
          made-Yields target margin fuel r (trampoline_of isa memory r) h refl,
        )
      ]

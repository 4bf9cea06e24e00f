-- ===== src/Arch/Fixed/Ends.antt =====
-- How the trampolines of Arch/Fixed.antt end, and how long their prologs are.
use detour_rs.Base.{
  ℕ, suc, ◌+◌, ◌-◌, ◌*◌, ◌%◌, ◌≤◌, ◌<◌, ◌≡◌, refl, subst, ap, ◌∙◌, ◌⊎◌, inl, inr, true, false, some,
  List, [], ◌∷◌, ◌++◌, arith,
}
use detour_rs.Base.Memory.{Memory, word_at}
use detour_rs.Error.{ok}
use detour_rs.Arch.{usize_mod}
use detour_rs.Arch.Fixed.{Trampoline, Processed, Builder, builder, Isa, build}
use detour_rs.Pic.{Thunk}
use detour_rs.Arch.Fixed.Rounds.{Prolog, ended, closed, next, Keeps}
use detour_rs.Arch.Fixed.Loop.{Yields, build-Prolog}

module _ (isa : Isa) (memory : Memory) (Terminator : ℕ → Type 0)
    (k : Keeps isa memory Terminator) where
  open isa use {arch, process, jmp_abs}

  -- The instruction at an address is one at which `process` finishes a prolog, and what it makes of it
  -- is the last of the thunks.
  abbrev pub Stops : List Thunk → (at : ℕ) → Type 0
  Stops ts at =
      Terminator (word_at memory at 4)
      × (c : Builder) × (p : Processed) × (process c (word_at memory at 4) at ≡ ok p)
      × (c.finished ≡ false)
      × (p.state.finished ≡ true)
      × (pre : List Thunk) × (ts ≡ pre ++ p.thunk ∷ [])

  -- How a prolog ends, and how long it is.
  abbrev pub PrologEnds : Builder → List Thunk → ℕ → Type 0
  PrologEnds b ts size =
      (n : ℕ) × (size ≡ b.total_bytes + 4 + 4 * n)
      × ((n ≡ 0) ⊎ (size < b.margin + 4))
      × (((b.margin ≤ size)
            × (pre : List Thunk) × (ts ≡ pre ++ jmp_abs ((b.target + size) % usize_mod arch) ∷ []))
          ⊎ Stops ts ((b.target + (size - 4)) % usize_mod arch))

  Prolog-PrologEnds :
      {b : Builder} {ts : List Thunk} {size : ℕ}
      → b.finished ≡ false
      → Prolog isa memory b ts size
      → PrologEnds b ts size
  Prolog-PrologEnds {b = b} on (ended p read over) =
      let (target, margin, total) = k.keeps b _ _ p read in
      (
        0,
        omega arith,
        inl refl,
        inr (
            subst (λ n. Stops (p.thunk ∷ []) ((b.target + n) % usize_mod arch)) (omega arith)
              (k.ends b _ _ p read on over, b, p, read, on, over, [], refl)),
      )
  Prolog-PrologEnds {b = b} on (closed p read more reached) =
      let (target, margin, total) = k.keeps b _ _ p read in
      let here : p.state.target + (p.state.total_bytes + 4) ≡ b.target + (p.state.total_bytes + 4) =
        omega arith in
      (
        0,
        omega arith,
        inl refl,
        inl (omega arith, p.thunk ∷ [], ap (λ n. p.thunk ∷ jmp_abs (n % usize_mod arch) ∷ []) here),
      )
  Prolog-PrologEnds {b = b} on (next p {ts = ts} {size = size} read more short rest) =
      let (target, margin, total) = k.keeps b _ _ p read in
      let (n, long, bound, finish) = Prolog-PrologEnds more rest in
      (
        suc n,
        omega arith,
        inr (elim bound [ inl e ↦ omega arith | inr e ↦ omega arith ]),
        elim finish [
          | inl (reached, pre, e) ↦ inl (
            omega arith,
            p.thunk ∷ pre,
            ap (λ us. p.thunk ∷ us) e
                ∙ ap (λ t. p.thunk ∷ pre ++ jmp_abs ((t + size) % usize_mod arch) ∷ []) target,
          )
          | inr (stop, c, q, last, before, over, pre, e) ↦ inr (
              subst (λ t. Stops (p.thunk ∷ ts) ((t + (size - 4)) % usize_mod arch)) target
                (stop, c, q, last, before, over, p.thunk ∷ pre, ap (λ us. p.thunk ∷ us) e))
        ],
      )

  -- A trampoline of a builder covers whole instructions, as many as reach the margin and no more. It
  -- ends with a jump to the first byte behind them, or the last of them is a terminator, at which
  -- the architecture's `process` finished the prolog, and nothing stands behind it.
  pub build-PrologEnds :
      (target margin : ℕ) (t : Trampoline)
      → build isa memory (builder target margin) ≡ some (ok t)
      → PrologEnds (builder target margin) t.emitter.thunks t.prolog_size
  build-PrologEnds target margin t h =
      let (r, e, made) = build-Prolog isa memory Terminator k target margin in
      let same : r ≡ ok t = cc in
      let on : (builder target margin).finished ≡ false = unfold builder in refl in
      Prolog-PrologEnds {b = builder target margin} on
        (subst (λ u. Yields isa memory Terminator k (builder target margin) u) same made)

-- ===== src/Arch/Fixed/Fair.antt =====
-- Results of `process` that the loop of Arch/Fixed.antt can go on from, put together the way the
-- architectures' `process` is.
use detour_rs.Base.{ℕ, ◌≡◌, refl, subst, Bool, true, false, if◌then◌else◌}
use detour_rs.Base.Memory.{Memory}
use detour_rs.Error.{Result, Error, ok, err, ok-injective}
use detour_rs.Pic.{Thunk}
use detour_rs.Arch.Fixed.{Builder, Processed, Isa, track_branch, finish}
use detour_rs.Arch.Fixed.Rounds.{Keeps}

abbrev SamePlace : Builder → Builder → Type 0
SamePlace c b = (c.target ≡ b.target) × (c.margin ≡ b.margin) × (c.total_bytes ≡ b.total_bytes)

-- The builder keeps its place, and is not finished unless the instruction is a terminator.
pub record Fair (Terminator : Type 0) (b : Builder) (r : Result Processed) : Type 0 where
  pub keeps : (p : Processed) → r ≡ ok p → SamePlace p.state b
  pub ends : (p : Processed) → r ≡ ok p → b.finished ≡ false → p.state.finished ≡ true → Terminator

abbrev result : Builder → Thunk → ℕ → Result Processed
result b thunk size = ok (record { state = b; thunk = thunk; size = size })

-- The builder itself, with or without a branch that is tracked.
pub Fair-same : {T : Type 0} (b : Builder) (t : Thunk) (n : ℕ) → Fair T b (result b t n)
Fair-same b t n = record {
  keeps = λ p h. subst (λ q. SamePlace q.state b) (ok-injective h) (refl, refl, refl);
  ends = λ p h on over.
      let same : p.state.finished ≡ b.finished =
        subst (λ q. q.state.finished ≡ b.finished) (ok-injective h) refl in
      cc;
}

pub Fair-track :
    {T : Type 0} (b : Builder) (dest : ℕ) (t : Thunk) (n : ℕ)
    → Fair T b (result (track_branch b dest) t n)
unfolding track_branch
Fair-track b dest t n = record {
  keeps = λ p h. subst (λ q. SamePlace q.state b) (ok-injective h) (refl, refl, refl);
  ends = λ p h on over.
      let same : p.state.finished ≡ b.finished =
        subst (λ q. q.state.finished ≡ b.finished) (ok-injective h) refl in
      cc;
}

pub Fair-finish :
    {T : Type 0} (b : Builder) (pc : ℕ) (t : Thunk) (n : ℕ)
    → T
    → Fair T b (result (finish b pc) t n)
Fair-finish b pc t n stop = record {
  keeps = λ p h. subst (λ q. SamePlace q.state b) (ok-injective h) (refl, refl, refl);
  ends = λ p h on over. stop;
}

pub Fair-finish_track :
    {T : Type 0} (b : Builder) (pc dest : ℕ) (t : Thunk) (n : ℕ)
    → T
    → Fair T b (result (track_branch (finish b pc) dest) t n)
unfolding track_branch
Fair-finish_track b pc dest t n stop = record {
  keeps = λ p h. subst (λ q. SamePlace q.state b) (ok-injective h) (refl, refl, refl);
  ends = λ p h on over. stop;
}

pub Fair-err : {T : Type 0} (b : Builder) (e : Error) → Fair T b (err e)
Fair-err b e = record { keeps = λ p h. cc; ends = λ p h on over. cc }

pub Fair-if :
    {T : Type 0} (b : Builder) (test : Bool) (x y : Result Processed)
    → (test ≡ true → Fair T b x)
    → (test ≡ false → Fair T b y)
    → Fair T b (if test then x else y)
Fair-if b true x y h k = h refl
Fair-if b false x y h k = k refl

pub ruleset fair_rules = (Fair-if, Fair-same, Fair-track, Fair-finish, Fair-finish_track, Fair-err)

-- An architecture whose `process` is fair keeps what the loop wants.
pub Fair-Keeps :
    (isa : Isa) (memory : Memory) (Terminator : ℕ → Type 0)
    → ((b : Builder) (instr pc : ℕ) → Fair (Terminator instr) b (isa.process b instr pc))
    → Keeps isa memory Terminator
Fair-Keeps isa memory Terminator fair = record {
  keeps = λ b instr pc p h. (fair b instr pc).keeps p h;
  ends = λ b instr pc p h on over. (fair b instr pc).ends p h on over;
}

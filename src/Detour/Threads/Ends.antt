-- ===== src/Detour/Threads/Ends.antt =====
-- How a thread alone goes on from each phase of `Detour::toggle` of src/arch/detour.rs.
use detour_rs.Base.{
  ℕ, suc, ◌+◌, ◌≤◌, ◌≡◌, ◌≢◌, refl, sym, subst, ◌∙◌, Bool, true, false, Option, none, List, [], ◌∷◌,
  arith, length, Bool-cases, inl, inr,
}
use detour_rs.Error.{Result, RegionError, ok}
use detour_rs.Arch.Patch.{IsSized, prolog, prolog-IsSized}
use detour_rs.Detour.{same}
use detour_rs.Detour.Threads.{
  Target, Shared, Phase, idle, waiting, locked, differing, protected, copying, copied, stored,
  flushed, leaving, panicked, Call, Move, lock, load_same, load_differs, protect, copy, copy_byte,
  copy_ends, store, flush, unprotect, unlock, System, Step, pick, update,
}
use detour_rs.Detour.Threads.Stands.{inside}
use detour_rs.Detour.Threads.Serial.{update_self, update_ne}

-- A number of steps.
pub data Steps (target : Target) : ℕ → System → System → Type 0 where
  here : {t : System} → Steps target 0 t t
  next :
      {n : ℕ} {c : Option Call} {t u v : System}
      → Step target t c u
      → Steps target n u v
      → Steps target (suc n) t v

pub Steps-append :
    {target : Target} {n k : ℕ} {t u v : System}
    → Steps target n t u
    → Steps target k u v
    → Steps target (n + k) t v
Steps-append {target} {k} {t} {v} here r =
    let e : k ≡ 0 + k = omega arith in subst (λ n. Steps target n t v) e r
Steps-append {target} {k} {t} {v} (next {n} s q) r =
    let e : suc (n + k) ≡ suc n + k = omega arith in
    subst (λ n. Steps target n t v) e (next s (Steps-append q r))

-- Thread `i` can go on from `t` alone, until it has returned and the mutex is free.
pub record Ends (target : Target) (i : ℕ) (t : System) (bound : ℕ) : Type 0 where
  pub count : ℕ
  pub last : System
  pub steps : Steps target count t last
  pub bounded : count ≤ bound
  pub free : last.shared.owner ≡ none
  pub safe : last.shared.poisoned ≡ t.shared.poisoned
  pub returned : last.phase i ≡ idle
  pub others : (j : ℕ) → j ≢ i → last.phase j ≡ t.phase j
  pub patches : last.shared.detour.patcher ≡ t.shared.detour.patcher

abbrev moved : System → ℕ → Shared → Phase → System
moved t i u p = record { shared = u; phase = update t.phase i p }

module _ {target : Target} {i : ℕ} where
  step_on :
      (t : System) {p p' : Phase} {c : Option Call} {u : Shared} {bound : ℕ}
      → t.phase i ≡ p
      → Move target i t.shared p c u p'
      → u.poisoned ≡ t.shared.poisoned
      → u.detour.patcher ≡ t.shared.detour.patcher
      → Ends target i (moved t i u p') bound
      → Ends target i t (suc bound)
  step_on t {p} {p'} {c} {u} stood mv sound same_patcher e = record {
    count = suc e.count;
    last = e.last;
    steps = next (pick i (subst (λ q. Move target i t.shared q c u p') (sym stood) mv)) e.steps;
    bounded = omega (arith, e.bounded);
    free = e.free;
    safe = e.safe ∙ sound;
    returned = e.returned;
    others = λ j h. e.others j h ∙ update_ne t.phase i j p' h;
    patches = e.patches ∙ same_patcher;
  }

  at_most : {t : System} {n k : ℕ} → n ≤ k → Ends target i t n → Ends target i t k
  at_most h e = record {
    count = e.count;
    last = e.last;
    steps = e.steps;
    bounded = omega (arith, e.bounded);
    free = e.free;
    safe = e.safe;
    returned = e.returned;
    others = e.others;
    patches = e.patches;
  }

  Ends-idle : (t : System) → t.phase i ≡ idle → t.shared.owner ≡ none → Ends target i t 0
  Ends-idle t stood free = record {
    count = 0;
    last = t;
    steps = here;
    bounded = omega arith;
    free = free;
    safe = refl;
    returned = stood;
    others = λ j h. refl;
    patches = refl;
  }

  Ends-leaving :
      (t : System) {w : Bool} {answer : Option RegionError} {r : Result (Unit {0})}
      → t.phase i ≡ leaving w answer r
      → Ends target i t 1
  Ends-leaving t stood =
      step_on t stood unlock refl refl (Ends-idle _ (update_self t.phase i idle) refl)

  Ends-flushed : (t : System) {w : Bool} → t.phase i ≡ flushed w → Ends target i t 2
  Ends-flushed t {w} stood =
      step_on t stood unprotect refl refl (Ends-leaving _ (update_self t.phase i _))

  Ends-stored : (t : System) {w : Bool} → t.phase i ≡ stored w → Ends target i t 3
  Ends-stored t {w} stood =
      step_on t stood flush refl refl (Ends-flushed _ (update_self t.phase i (flushed w)))

  Ends-copied : (t : System) {w : Bool} → t.phase i ≡ copied w → Ends target i t 4
  Ends-copied t {w} stood =
      step_on t stood store refl refl (Ends-stored _ (update_self t.phase i (stored w)))

  Ends-copying :
      (rest : List ℕ) (t : System) (w : Bool) (at : ℕ)
      → t.phase i ≡ copying w at rest
      → Ends target i t (length rest + 5)
  Ends-copying [] t w at stood =
      step_on t stood copy_ends refl refl (Ends-copied _ (update_self t.phase i (copied w)))
  Ends-copying (x ∷ rest) t w at stood = at_most (omega arith) (
      step_on t stood copy_byte refl refl
        (Ends-copying rest _ w (suc at) (update_self t.phase i (copying w (suc at) rest))))

  Ends-protected :
      (t : System) {w : Bool}
      → IsSized t.shared.detour.patcher
      → t.phase i ≡ protected w
      → Ends target i t (t.shared.detour.patcher.area.len + 6)
  Ends-protected t {w} v stood =
      let area = t.shared.detour.patcher.area in
      let bytes = prolog t.shared.detour.patcher w in
      let fits = prolog-IsSized t.shared.detour.patcher w v in
      at_most (omega (arith, fits)) (
        step_on t stood (copy fits) refl refl (
          Ends-copying bytes _ w area.as_ptr (update_self t.phase i (copying w area.as_ptr bytes))))

  Ends-differing :
      (t : System) {w : Bool}
      → IsSized t.shared.detour.patcher
      → t.phase i ≡ differing w
      → Ends target i t (t.shared.detour.patcher.area.len + 7)
  Ends-differing t {w} v stood =
      at_most (omega arith) (
        step_on t stood protect refl refl
          (Ends-protected _ v (update_self t.phase i (protected w))))

  Ends-locked :
      (t : System) {w : Bool}
      → IsSized t.shared.detour.patcher
      → t.phase i ≡ locked w
      → Ends target i t (t.shared.detour.patcher.area.len + 8)
  Ends-locked t {w} v stood = elim (Bool-cases (same t.shared.detour.enabled w)) [
    | inl agree ↦ at_most (omega arith) (
        step_on t stood (load_same agree) refl refl
          (Ends-leaving _ (update_self t.phase i (leaving w none (ok tt)))))
    | inr differ ↦ at_most (omega arith) (
        step_on t stood (load_differs differ) refl refl
          (Ends-differing _ v (update_self t.phase i (differing w))))
  ]

  pub Ends-waiting :
      (t : System) {w : Bool}
      → IsSized t.shared.detour.patcher
      → t.phase i ≡ waiting w
      → t.shared.owner ≡ none
      → t.shared.poisoned ≡ false
      → Ends target i t (t.shared.detour.patcher.area.len + 9)
  Ends-waiting t {w} v stood free sound = at_most (omega arith) (
      step_on t stood (lock free sound) refl refl
        (Ends-locked _ v (update_self t.phase i (locked w))))

  -- From each phase inside the mutex.
  pub Ends-inside :
      (t : System) (p : Phase)
      → IsSized t.shared.detour.patcher
      → t.phase i ≡ p
      → inside p ≡ true
      → ((w : Bool) (at : ℕ) (rest : List ℕ)
          → p ≡ copying w at rest
          → length rest ≤ t.shared.detour.patcher.area.len)
      → Ends target i t (t.shared.detour.patcher.area.len + 8)
  Ends-inside t idle v stood h short = cc
  Ends-inside t (waiting w) v stood h short = cc
  Ends-inside t panicked v stood h short = cc
  Ends-inside t (locked w) v stood h short = Ends-locked t v stood
  Ends-inside t (differing w) v stood h short = at_most (omega arith) (Ends-differing t v stood)
  Ends-inside t (protected w) v stood h short = at_most (omega arith) (Ends-protected t v stood)
  Ends-inside t (copying w at rest) v stood h short =
      at_most (omega (arith, short w at rest refl)) (Ends-copying rest t w at stood)
  Ends-inside t (copied w) v stood h short = at_most (omega arith) (Ends-copied t stood)
  Ends-inside t (stored w) v stood h short = at_most (omega arith) (Ends-stored t stood)
  Ends-inside t (flushed w) v stood h short = at_most (omega arith) (Ends-flushed t stood)
  Ends-inside t (leaving w a r) v stood h short = at_most (omega arith) (Ends-leaving t stood)

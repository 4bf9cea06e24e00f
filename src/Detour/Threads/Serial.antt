-- ===== src/Detour/Threads/Serial.antt =====
-- Any interleaving of calls of `Detour::toggle` of src/arch/detour.rs, in any number of threads, has
-- the effect of the same calls one after another.
use detour_rs.Base.{
  ℕ, ◌≡◌, ◌≢◌, refl, sym, subst, ap, ◌∙◌, true, false, Option, none, some, List, [], ◌∷◌, arith,
}
use detour_rs.Base.Memory.{Memory}
use detour_rs.Arch.Cache.{Invalidates}
use detour_rs.Arch.Patch.{IsSized}
use detour_rs.Detour.{Detour, toggle}
use native.Mathlib.Decide.{ℕ_discrete}
use detour_rs.Detour.Threads.{
  Target, Shared, Phase, idle, panicked, Call, Move, System, pick, Run, start, later, update,
  completed, at_rest,
}
use detour_rs.Detour.Threads.Mutex.{Effect, apart, takes, keeps, gives, Move-Effect}
use detour_rs.Detour.Threads.Stands.{inside, InSync, Stands, after}
use detour_rs.Detour.Threads.Invariant.{
  Move-Stands, Move-safe, Move-calm, Move-Answers, Answers, after-IsSized, Stands-outside,
  Settled-outside,
}

-- The memory and the detour after the calls, made one after another; the last one stands first.
unfoldable pub replay : Memory × Detour → List Call → Memory × Detour
replay s [] = s
replay s (c ∷ calls) = (toggle c.protect c.wanted (replay s calls)).1

-- Each call has the result that it has after the calls before it.
abbrev pub Answered : Memory × Detour → List Call → Type 0
Answered s [] = Unit
Answered s (c ∷ calls) =
    (c.result ≡ (toggle c.protect c.wanted (replay s calls)).0) × Answered s calls

-- Where the holder of the mutex stands.
abbrev pub held : Option ℕ → (ℕ → Phase) → Phase
held none f = idle
held (some i) f = f i

pub record Inv (target : Target) (first : Memory × Detour) (calls : List Call) (t : System)
    : Type 0 where
  pub safe : t.shared.poisoned ≡ false
  pub owned : (i : ℕ) → inside (t.phase i) ≡ true → t.shared.owner ≡ some i
  pub owns : (i : ℕ) → t.shared.owner ≡ some i → inside (t.phase i) ≡ true
  pub sized : IsSized (replay first calls).1.patcher
  pub stands : Stands target (replay first calls) t.shared (held t.shared.owner t.phase)
  pub answered : Answered first calls
  pub calm : (i : ℕ) → t.phase i ≢ panicked

replay-completed :
    (first : Memory × Detour) (c : Option Call) (calls : List Call)
    → replay first (completed c calls) ≡ after c (replay first calls)
unfolding replay
replay-completed first none calls = refl
replay-completed first (some c) calls = refl

Answered-completed :
    (first : Memory × Detour) (c : Option Call) (calls : List Call)
    → Answers (replay first calls) c
    → Answered first calls
    → Answered first (completed c calls)
Answered-completed first none calls x h = h
Answered-completed first (some c) calls x h = (x, h)

pub update_self : (f : ℕ → Phase) (i : ℕ) (p : Phase) → update f i p i ≡ p
update_self f i p = ground arith

pub update_ne : (f : ℕ → Phase) (i j : ℕ) (p : Phase) → j ≢ i → update f i p j ≡ f j
update_ne f i j p h = ground arith

held-some :
    (f : ℕ → Phase) (i : ℕ) (p : Phase) (owner : Option ℕ)
    → owner ≡ some i
    → held owner (update f i p) ≡ p
held-some f i p owner e = rw e (ground arith)

pub held-none : (f : ℕ → Phase) (owner : Option ℕ) → owner ≡ none → held owner f ≡ idle
held-none f owner e = rw e refl

-- A thread that does not hold the mutex does not change where the holder stands.
held-update :
    (f : ℕ → Phase) (i : ℕ) (p : Phase) (owner : Option ℕ)
    → owner ≢ some i
    → held owner (update f i p) ≡ held owner f
held-update f i p none e = refl
held-update f i p (some j) e = ground arith

module _ (target : Target) (first : Memory × Detour) (clears : Invalidates target.calls)
    {calls : List Call} {t : System} (inv : Inv target first calls t) (i : ℕ) where
  abbrev before : Memory × Detour
  before = replay first calls

  -- A step from where what is known stands.
  moved :
      {p p' : Phase} {c : Option Call} {u : Shared} (q : Phase)
      → Move target i t.shared p c u p'
      → Stands target before t.shared p
      → (Stands target (after c before) u p' → Stands target (after c before) u q)
      → (u.poisoned ≡ false) × Stands target (after c before) u q × Answers before c
  moved q mv h settle = (
    Move-safe target i before.0 before.1 t.shared inv.sized clears mv inv.safe h,
    settle (Move-Stands target i before.0 before.1 t.shared inv.sized clears mv inv.safe h),
    Move-Answers target i before.0 before.1 t.shared inv.sized clears mv h,
  )

  pub holder_stands :
      {p : Phase} → t.phase i ≡ p → inside p ≡ true → Stands target before t.shared p
  holder_stands here within =
      subst (Stands target before t.shared) (rw (inv.owned i (ap inside here ∙ within)) here)
        inv.stands

  free_stands :
      (p : Phase) → inside p ≡ false → t.shared.owner ≡ none → Stands target before t.shared p
  free_stands p out free =
      Stands-outside target before t.shared p out
        (subst (Stands target before t.shared) (held-none t.phase t.shared.owner free) inv.stands)

  -- The thread that moves is the holder of the mutex, or nobody is, or it does not touch anything.
  Effect-Stands :
      {p p' : Phase} {c : Option Call} {u : Shared}
      → Move target i t.shared p c u p'
      → t.phase i ≡ p
      → Effect i t.shared u p p' c
      → (u.poisoned ≡ false)
        × Stands target (after c before) u (held u.owner (update t.phase i p'))
        × Answers before c
  Effect-Stands {p} {p'} {c} {u} mv here (apart out out' e silent) =
      let stranger : t.shared.owner ≢ some i = λ h. cc (inv.owns i h, ap inside here) in
      rw (e, silent, held-update t.phase i p' t.shared.owner stranger) (inv.safe, inv.stands, tt)
  Effect-Stands {p} {p'} {c} {u} mv here (takes out in' free taken) =
      moved (held u.owner (update t.phase i p')) mv (free_stands p out free)
        (subst (Stands target (after c before) u) (sym (held-some t.phase i p' u.owner taken)))
  Effect-Stands {p} {p'} {c} {u} mv here (keeps within in' e) =
      let taken = e ∙ inv.owned i (ap inside here ∙ within) in
      moved (held u.owner (update t.phase i p')) mv (holder_stands here within)
        (subst (Stands target (after c before) u) (sym (held-some t.phase i p' u.owner taken)))
  Effect-Stands {p} {p'} {c} {u} mv here (gives within out' free) =
      moved (held u.owner (update t.phase i p')) mv (holder_stands here within) λ h.
        subst (Stands target (after c before) u)
          (sym (held-none (update t.phase i p') u.owner free))
          (Settled-outside target (after c before) u p' out' h)

  Effect-owned :
      {p p' : Phase} {c : Option Call} {u : Shared}
      → t.phase i ≡ p
      → Effect i t.shared u p p' c
      → (j : ℕ) → inside (update t.phase i p' j) ≡ true
      → u.owner ≡ some j
  Effect-owned here (apart out out' e silent) j h = ground (arith, inv.owned j)
  Effect-owned here (takes out in' free taken) j h = ground (arith, inv.owned j)
  Effect-owned here (keeps within in' e) j h = ground (arith, inv.owned j, inv.owned i)
  Effect-owned here (gives within out' free) j h = ground (arith, inv.owned j, inv.owned i)

  Effect-owns :
      {p p' : Phase} {c : Option Call} {u : Shared}
      → t.phase i ≡ p
      → Effect i t.shared u p p' c
      → (j : ℕ) → u.owner ≡ some j
      → inside (update t.phase i p' j) ≡ true
  Effect-owns here (apart out out' e silent) j h = ground (arith, inv.owns j)
  Effect-owns here (takes out in' free taken) j h = ground (arith, inv.owns j)
  Effect-owns here (keeps within in' e) j h = ground (arith, inv.owns j, inv.owned i)
  Effect-owns here (gives within out' free) j h = ground (arith, inv.owns j)

  still_calm :
      {p' : Phase} {c : Option Call} {u : Shared}
      → Move target i t.shared (t.phase i) c u p'
      → (j : ℕ) → update t.phase i p' j ≢ panicked
  still_calm {p'} mv j =
      let mine : p' ≢ panicked =
        Move-calm target i before.0 before.1 t.shared inv.sized clears mv inv.safe
          (holder_stands refl) in
      elim (ℕ_discrete i j) [
        | yes e ↦ rw (e, update_self t.phase j p') mine
        | no e ↦ rw (update_ne t.phase i j p' (λ h. e (sym h))) (inv.calm j)
      ]

  pub Move-Inv :
      {p' : Phase} {c : Option Call} {u : Shared}
      → Move target i t.shared (t.phase i) c u p'
      → Inv target first (completed c calls) (record { shared = u; phase = update t.phase i p' })
  Move-Inv {p'} {c} {u} mv =
      let effect = Move-Effect mv in
      let (safe, stands, answers) = Effect-Stands mv refl effect in
      let e = sym (replay-completed first c calls) in
      record {
        safe = safe;
        owned = Effect-owned refl effect;
        owns = Effect-owns refl effect;
        sized = subst (λ s. IsSized s.1.patcher) e (after-IsSized c before inv.sized);
        stands = subst (λ s. Stands target s u (held u.owner (update t.phase i p'))) e stands;
        answered = Answered-completed first c calls answers inv.answered;
        calm = still_calm mv;
      }

pub Run-Inv :
    {target : Target} {m cache : Memory} {d : Detour} {calls : List Call} {t : System}
    → Invalidates target.calls
    → IsSized d.patcher
    → InSync target (at_rest m cache d).shared
    → Run target (at_rest m cache d) calls t
    → Inv target (m, d) calls t
unfolding replay
Run-Inv clears v sync start = record {
  safe = refl;
  owned = λ i h. absurd (cc);
  owns = λ i h. absurd (cc);
  sized = v;
  stands = record { settled_memory = refl; settled_detour = refl; in_sync = sync; sealed = refl };
  answered = tt;
  calm = λ i h. cc;
}
Run-Inv {target} {m} {d} clears v sync (later r (pick i mv)) =
    Move-Inv target (m, d) clears (Run-Inv clears v sync r) i mv

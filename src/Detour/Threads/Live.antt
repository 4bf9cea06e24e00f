-- ===== src/Detour/Threads/Live.antt =====
-- Calls of `Detour::toggle` of src/arch/detour.rs return: whoever holds the mutex can always go on, and
-- leaves it within a number of its own steps.
use detour_rs.Base.{
  ℕ, ◌+◌, ◌*◌, ◌≤◌, ◌≡◌, ◌≢◌, refl, sym, subst, ap, ◌∙◌, Bool, true, Option, List, arith, length,
  Option-cases, inl, inr,
}
use detour_rs.Base.Memory.{Memory}
use detour_rs.Arch.Cache.{Invalidates}
use detour_rs.Arch.Patch.{IsSized}
use detour_rs.Detour.{Detour}
use detour_rs.Detour.Threads.{
  Target, Shared, Phase, idle, waiting, copying, panicked, Call, Move, call, System, pick, Run,
  start, later, at_rest,
}
use detour_rs.Detour.Threads.Stands.{inside, InSync, Stands}
use detour_rs.Detour.Threads.Serial.{Inv, Run-Inv, replay, holder_stands}
use detour_rs.Detour.Threads.Ends.{Steps, Steps-append, Ends, Ends-waiting, Ends-inside}

Move-patcher :
    {target : Target} {i : ℕ} {s u : Shared} {p p' : Phase} {c : Option Call}
    → Move target i s p c u p'
    → u.detour.patcher ≡ s.detour.patcher
Move-patcher call = refl
Move-patcher mv = refl

Run-patcher :
    {target : Target} {s t : System} {calls : List Call}
    → Run target s calls t
    → t.shared.detour.patcher ≡ s.shared.detour.patcher
Run-patcher start = refl
Run-patcher (later r (pick i mv)) = Move-patcher mv ∙ Run-patcher r

short_copy :
    (target : Target) (before : Memory × Detour) (s : Shared) (p : Phase)
    → Stands target before s p
    → (w : Bool) (at : ℕ) (rest : List ℕ) → p ≡ copying w at rest
    → length rest ≤ s.detour.patcher.area.len
short_copy target before s p h w at rest e =
    let (patching, short) =
      let h' : Stands target before s (copying w at rest) = subst (Stands target before s) e h in
      h' in
    rw patching.flagged short

module _ {target : Target} {m cache : Memory} {d : Detour} {calls : List Call} {t : System}
    (clears : Invalidates target.calls) (v : IsSized d.patcher)
    (sync : InSync target (at_rest m cache d).shared)
    (r : Run target (at_rest m cache d) calls t) where
  sized : IsSized t.shared.detour.patcher
  sized = subst IsSized (sym (Run-patcher r)) v

  abbrev invariant : Inv target (m, d) calls t
  invariant = Run-Inv clears v sync r

  holder-Ends : (j : ℕ) → inside (t.phase j) ≡ true → Ends target j t (d.patcher.area.len + 8)
  holder-Ends j within =
      let known = holder_stands target (m, d) clears invariant j refl within in
      subst (λ p. Ends target j t (p.area.len + 8)) (Run-patcher r)
        (Ends-inside t (t.phase j) sized refl within
          (short_copy target (replay (m, d) calls) t.shared (t.phase j) known))

  -- A thread that waits comes in once the holder, if there is one, has left.
  waiting_returns :
      (i : ℕ) (w : Bool)
      → t.phase i ≡ waiting w
      → (n : ℕ) × (u : System) × Steps target n t u
        × (n ≤ 2 * d.patcher.area.len + 17)
        × (u.phase i ≡ idle)
  waiting_returns i w stood = elim (Option-cases t.shared.owner) [
    | inl free ↦
        let e = Ends-waiting t sized stood free invariant.safe in
        (
          e.count,
          e.last,
          e.steps,
          omega (arith, e.bounded, ap (λ p. p.area.len) (Run-patcher r)),
          e.returned,
        )
    | inr (j, taken) ↦
        let e = holder-Ends j (invariant.owns j taken) in
        let other : i ≢ j = λ same_thread.
          cc (invariant.owns j taken, ap (λ k. inside (t.phase k)) same_thread, ap inside stood) in
        let e' =
          Ends-waiting e.last (subst IsSized (sym e.patches) sized) (e.others i other ∙ stood)
            e.free (e.safe ∙ invariant.safe) in
        (
          e.count + e'.count,
          e'.last,
          Steps-append e.steps e'.steps,
          omega (arith, e.bounded, e'.bounded, ap (λ p. p.area.len) (e.patches ∙ Run-patcher r)),
          e'.returned,
        )
  ]

  inside_returns :
      (i : ℕ)
      → inside (t.phase i) ≡ true
      → (n : ℕ) × (u : System) × Steps target n t u
        × (n ≤ 2 * d.patcher.area.len + 17)
        × (u.phase i ≡ idle)
  inside_returns i within =
      let e = holder-Ends i within in
      (e.count, e.last, e.steps, omega (arith, e.bounded), e.returned)

  call_returns :
      (i : ℕ) (p : Phase)
      → t.phase i ≡ p
      → p ≢ idle
      → (n : ℕ) × (u : System) × Steps target n t u
        × (n ≤ 2 * d.patcher.area.len + 17)
        × (u.phase i ≡ idle)
  call_returns i idle stood busy = absurd (busy refl)
  call_returns i (waiting w) stood busy = waiting_returns i w stood
  call_returns i panicked stood busy = absurd (invariant.calm i stood)
  call_returns i _ stood busy = inside_returns i (ap inside stood)

-- In any interleaving, from any state that is reached, no call is stuck: there are further steps, at
-- most 17 of them and two for each byte of the area, after which the call of thread `i` has returned.
-- Both prologs fill the area, and the cache was in step with the memory at first.
pub toggle-returns :
    {target : Target} {m cache : Memory} {d : Detour} {calls : List Call} {t : System}
    → Invalidates target.calls
    → IsSized d.patcher
    → InSync target (at_rest m cache d).shared
    → Run target (at_rest m cache d) calls t
    → (i : ℕ) → t.phase i ≢ idle
    → (n : ℕ) × (u : System) × Steps target n t u
      × (n ≤ 2 * d.patcher.area.len + 17)
      × (u.phase i ≡ idle)
toggle-returns {t} clears v sync r i busy = call_returns clears v sync r i (t.phase i) refl busy

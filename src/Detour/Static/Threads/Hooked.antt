-- ===== src/Detour/Static/Threads/Hooked.antt =====
-- Calls of a function that a static detour of src/detours/statik.rs hooks, while other threads
-- initialise it or change its closure.
use detour_rs.Base.{
  ℕ, ◌≡◌, ◌≢◌, inl, inr, refl, sym, subst, ap, ◌∙◌, Bool, true, false, Option, none, some, List, [],
  arith, Option-cases,
}
use detour_rs.Error.{Result}
use detour_rs.Detour.Threads.{update}
use detour_rs.Detour.Static.Threads.{
  Shared, Phase, idle, swapping, dropping, entered, using, panicked, undefined, Move, set_detour,
  swap, drop_some, toggle, enter, load_null, load, call_dropped, System, pick, completed, at_rest,
  Run, start, later,
}
use detour_rs.Detour.Static.Threads.Once.{Run-Inv, wins, is_some, is_first}

update_self : (f : ℕ → Phase) (i : ℕ) (p : Phase) → update f i p i ≡ p
update_self f i p = ground arith

update_ne : (f : ℕ → Phase) (i j : ℕ) (p : Phase) → i ≢ j → update f j p i ≡ f i
update_ne f i j p h = ground arith

update_live : (live : ℕ → Bool) (new q : ℕ) → update (update live new true) q false q ≡ false
update_live live new q = ground arith

abbrev moved : System → ℕ → Shared → Phase → System
moved t i u p = record { shared = u; phase = update t.phase i p }

-- One more step of a run.
extend :
    {start_of : System} {results : List (Result (Unit {0}))} {t : System}
    {r : Option (Result (Unit {0}))} {u : Shared} {p p' : Phase} (i : ℕ)
    → Run start_of results t
    → t.phase i ≡ p
    → Move t.shared p r u p'
    → Run start_of (completed r results) (moved t i u p')
extend {t} {r} {u} {p'} i run stood mv =
    later run (pick i (subst (λ q. Move t.shared q r u p') (sym stood) mv))

null_load :
    {s u : Shared} {p p' : Phase} {r : Option (Result (Unit {0}))}
    → Move s p r u p'
    → p ≡ entered
    → is_some s.closure ≡ true
    → p' ≢ panicked
null_load (load_null e) stood h = cc
null_load (load q e) stood h = λ x. cc
null_load mv stood h = cc

-- Once a call of `initialize` has succeeded, no interleaving makes a call of the hooked function panic in
-- `__detour`.
pub load-ne-panicked :
    {results : List (Result (Unit {0}))} {t : System} {r : Option (Result (Unit {0}))} {u : Shared}
    {p : Phase}
    → Run at_rest results t
    → wins results ≡ 1
    → (i : ℕ) → t.phase i ≡ entered
    → Move t.shared (t.phase i) r u p
    → p ≢ panicked
load-ne-panicked run won i stood mv = null_load mv stood ((Run-Inv run).published won)

-- While a call of `initialize` has put the detour in its place and not yet the closure, any thread that
-- is in no call can go on from there to enable the detour and call the hooked function, and that call
-- panics.
pub enable-panics :
    {results : List (Result (Unit {0}))} {t : System}
    → Run at_rest results t
    → (i j : ℕ) → t.phase i ≡ swapping true
    → t.shared.closure ≡ none
    → t.phase j ≡ idle
    → (u : System) × Run t [] u × (u.phase j ≡ panicked)
enable-panics {results} {t} run i j first missing stood = elim (Option-cases t.shared.detour) [
  | inl absent ↦ cc ((Run-Inv run).made i (ap is_first first), ap is_some absent)
  | inr (d, present) ↦
      let r1 = extend j start stood (toggle true d present) in
      let r2 =
        extend j r1 (update_self t.phase j idle) (enter (record d { enabled = true }) refl refl) in
      let r3 = extend j r2 (update_self (update t.phase j idle) j entered) (load_null missing) in
      (_, r3, update_self (update (update t.phase j idle) j entered) j panicked)
]

-- While a thread is about to call the closure that the pointer holds, any thread that is in no call can
-- go on from there to set another closure, and the one that is called then has been dropped.
pub set_detour-dangles :
    {t : System} (i j q : ℕ)
    → t.phase i ≡ using q
    → t.shared.closure ≡ some q
    → t.phase j ≡ idle
    → (u : System) × Run t [] u × (u.phase i ≡ undefined)
set_detour-dangles {t} i j q reading current stood =
    let other : i ≢ j = λ same_thread. cc (ap t.phase same_thread) in
    let f1 = update t.phase j (swapping false) in
    let f2 = update f1 j (dropping false t.shared.closure) in
    let r1 = extend j start stood set_detour in
    let r2 = extend j r1 (update_self t.phase j (swapping false)) swap in
    let r3 =
      extend j r2 (update_self f1 j (dropping false t.shared.closure) ∙ ap (dropping false) current)
        drop_some in
    let still : update f2 j idle i ≡ using q =
      update_ne f2 i j idle other
      ∙ update_ne f1 i j (dropping false t.shared.closure) other
      ∙ update_ne t.phase i j (swapping false) other
      ∙ reading in
    let r4 = extend i r3 still (call_dropped (update_live t.shared.live t.shared.unused q)) in
    (_, r4, update_self (update f2 j idle) i undefined)

-- ===== src/Detour/Threads/Safety.antt =====
-- What any interleaving of calls of `Detour::toggle` of src/arch/detour.rs comes to.
use detour_rs.Base.{
  ℕ, ◌≡◌, ◌≢◌, ◌⊎◌, refl, subst, true, false, Option, none, some, List, inl, inr, Bool-cases,
}
use detour_rs.Base.Memory.{Memory}
use detour_rs.Arch.Cache.{Invalidates}
use detour_rs.Arch.Patch.{IsSized}
use detour_rs.Detour.{Detour}
use detour_rs.Detour.Threads.{
  Target, Shared, Phase, panicked, Call, Move, call, copy_byte, System, Step, pick, Run, at_rest,
}
use detour_rs.Detour.Threads.Stands.{inside, InSync, Stands, Settled}
use detour_rs.Detour.Threads.Serial.{Run-Inv, replay, holder_stands, Answered, held-none}

module _ {target : Target} {m cache : Memory} {d : Detour} {calls : List Call} {t : System}
    (clears : Invalidates target.calls) (v : IsSized d.patcher)
    (sync : InSync target (at_rest m cache d).shared)
    (r : Run target (at_rest m cache d) calls t) where
  -- Whenever the mutex is free, however the steps of the threads were interleaved, the memory and the
  -- detour are what the completed calls lead to one after another, in the order in which they left
  -- the mutex, each call having the result that it has there; and what is executed in the area is
  -- what the memory holds, and the pages are not writable. Both prologs fill the area, and the cache was
  -- in step with the memory at first.
  pub interleaved-replay :
      t.shared.owner ≡ none
      → (t.shared.memory ≡ (replay (m, d) calls).0)
        × (t.shared.detour ≡ (replay (m, d) calls).1)
        × Answered (m, d) calls
        × InSync target t.shared
        × (t.shared.writable ≡ false)
  interleaved-replay free =
      let inv = Run-Inv clears v sync r in
      let settled : Settled target (replay (m, d) calls) t.shared =
        subst (Stands target (replay (m, d) calls) t.shared) (held-none t.phase t.shared.owner free)
          inv.stands in
      (
        settled.settled_memory, settled.settled_detour, inv.answered, settled.in_sync,
        settled.sealed,
      )

  -- Of two different threads one is never between the lock and the unlock while the other one is, no
  -- thread has panicked, and the mutex is not poisoned, in every state that calls on one detour lead
  -- to from rest. Both prologs fill the area, and the cache was in step with the memory at first.
  pub toggle-exclusive :
      (i j k : ℕ)
      → ((i ≡ j) ⊎ (inside (t.phase i) ≡ false) ⊎ (inside (t.phase j) ≡ false))
        × (t.phase k ≢ panicked)
        × (t.shared.poisoned ≡ false)
  toggle-exclusive i j k =
      let inv = Run-Inv clears v sync r in
      (
        elim (Bool-cases (inside (t.phase i))) [
          | inr out ↦ inr (inl out)
          | inl in_i ↦ elim (Bool-cases (inside (t.phase j))) [
            | inr out ↦ inr (inr out)
            | inl in_j ↦ inl (cc (inv.owned i in_i, inv.owned j in_j))
          ]
        ],
        inv.calm k,
        inv.safe,
      )

  Move-opened :
      {i : ℕ} {p p' : Phase} {c : Option Call} {u : Shared} (before : Memory × Detour)
      → Move target i t.shared p c u p'
      → (inside p ≡ true → Stands target before t.shared p)
      → (u.memory ≡ t.shared.memory) ⊎ ((t.shared.writable ≡ true) × (inside p ≡ true))
  Move-opened before copy_byte h = inr ((h refl).0.opened, refl)
  Move-opened before call h = inl refl
  Move-opened before mv h = inl refl

  -- A step that changes the memory is one of the thread that holds the mutex, between the call that
  -- makes the pages writable and the one that takes it back. Both prologs fill the area, and the cache
  -- was in step with the memory at first.
  pub write-opened :
      {c : Option Call} {u : System}
      → Step target t c u
      → u.shared.memory ≢ t.shared.memory
      → (t.shared.writable ≡ true)
        × ((i : ℕ) × (t.shared.owner ≡ some i) × (inside (t.phase i) ≡ true))
  write-opened (pick i mv) changes =
      let inv = Run-Inv clears v sync r in
      elim (Move-opened (replay (m, d) calls) mv (holder_stands target (m, d) clears inv i refl)) [
        | inl same_memory ↦ absurd (changes same_memory)
        | inr (opened, within) ↦ (opened, (i, inv.owned i within, within))
      ]

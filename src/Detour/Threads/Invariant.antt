-- ===== src/Detour/Threads/Invariant.antt =====
-- The steps of `Detour::toggle` of src/arch/detour.rs keep what holds of the shared state.
use detour_rs.Base.{
  ℕ, suc, ◌-◌, ◌≡◌, ◌≢◌, refl, sym, subst, ap, ◌∙◌, fun_ext, Bool, true, false, Option, none, some,
  List, [], ◌∷◌, arith, get_or, zero, ◌==◌, if◌then◌else◌, Bool-cases, Option-cases, inl, inr,
}
use detour_rs.Base.Memory.{Memory, write}
use detour_rs.Error.{ok, err, RegionError, region_failure}
use detour_rs.Arch.Cache.{Invalidates, fetched-flush}
use detour_rs.Arch.Patch.{IsSized, prolog-IsSized, toggle_lem}
use detour_rs.Detour.{Detour, toggle, same}
use detour_rs.Detour.Threads.{
  Target, Shared, Phase, idle, waiting, panicked, Call, Move, call, lock, lock_poisoned, load_same,
  load_differs, protect, protect_fails, copy, copy_panics, copy_byte, copy_ends, store, flush,
  unprotect, unlock,
}
use detour_rs.Detour.Threads.Stands.{inside, Settled, patched, Stands, after}

get_or-cons :
    (x : ℕ) (rest : List ℕ) (i d : ℕ)
    → get_or (x ∷ rest) i d ≡ (if i == 0 then x else get_or rest (i - 1) d)
get_or-cons x rest zero d = refl
get_or-cons x rest (suc i) d = ground arith

write-nil : (m : Memory) (at : ℕ) → write m at [] ≡ m
unfolding write
write-nil m at = fun_ext λ p. ground arith

-- A call that is completed has the result of the whole call at once.
abbrev pub Answers : Memory × Detour → Option Call → Type 0
Answers before none = Unit
Answers before (some c) = c.result ≡ (toggle c.protect c.wanted before).0

-- One byte is copied before the others.
write-cons :
    (m : Memory) (at x : ℕ) (rest : List ℕ)
    → write (write m at (x ∷ [])) (suc at) rest ≡ write m at (x ∷ rest)
unfolding write
write-cons m at x rest = fun_ext λ p. ground (arith, get_or-cons x rest (p - at) (m p))

toggle-same :
    (m : Memory) (d : Detour) (answer : Option RegionError) (w : Bool)
    → same d.enabled w ≡ true
    → toggle answer w (m, d) ≡ (ok tt, (m, d))
unfolding toggle
toggle-same m d answer w h = rw h refl

toggle_refused :
    (m : Memory) (d : Detour) (e : RegionError) (w : Bool)
    → same d.enabled w ≡ false
    → toggle (some e) w (m, d) ≡ (err (region_failure e), (m, d))
unfolding toggle
toggle_refused m d e w h = rw h refl

toggle_patched :
    (m : Memory) (d : Detour) (w : Bool)
    → IsSized d.patcher
    → same d.enabled w ≡ false
    → toggle none w (m, d) ≡ (ok tt, (patched (m, d) w, record d { enabled = w }))
unfolding toggle
toggle_patched m d w v h = rw (h, toggle_lem m d.patcher w v) refl

module _ (target : Target) (i : ℕ) (m : Memory) (d : Detour) (s : Shared) (v : IsSized d.patcher)
    (clears : Invalidates target.calls) where
  abbrev before : Memory × Detour
  before = (m, d)

  reowned :
      (o : Option ℕ) → Settled target before s → Settled target before (record s { owner = o })
  reowned o h = record {
    settled_memory = h.settled_memory;
    settled_detour = h.settled_detour;
    in_sync = h.in_sync;
    sealed = h.sealed;
  }

  -- A step of the holder of the mutex, or of a thread that takes it, keeps what is known.
  pub Move-Stands :
      {p p' : Phase} {c : Option Call} {s' : Shared}
      → Move target i s p c s' p'
      → s.poisoned ≡ false
      → Stands target before s p
      → Stands target (after c before) s' p'
  Move-Stands call safe h = h
  Move-Stands (lock free e) safe h = reowned (some i) h
  Move-Stands (lock_poisoned free e) safe h = h
  Move-Stands (load_same {w} e) safe h = record {
    outcome = cc (toggle-same m d none w (ground arith), h.settled_memory, h.settled_detour);
    synced = h.in_sync;
    closed = h.sealed;
  }
  Move-Stands (load_differs e) safe h = (h, ground arith)
  Move-Stands protect safe h = (h.0.settled_memory, h.0.settled_detour, h.1, refl)
  Move-Stands (protect_fails {w} e) safe h = record {
    outcome = cc (toggle_refused m d e w h.1, h.0.settled_memory, h.0.settled_detour);
    synced = h.0.in_sync;
    closed = h.0.sealed;
  }
  Move-Stands (copy {w} e) safe h = (
    record { leads = rw (h.0, h.1) refl; flagged = h.1; differs = h.2; opened = h.3 },
    rw h.1 (omega (arith, prolog-IsSized d.patcher w v)),
  )
  Move-Stands (copy_panics {w} e) safe h = absurd (e (rw h.1 (prolog-IsSized d.patcher w v)))
  Move-Stands (copy_byte {w} {at} {x} {rest}) safe h = (
    record {
      leads = write-cons s.memory at x rest ∙ h.0.leads;
      flagged = h.0.flagged;
      differs = h.0.differs;
      opened = h.0.opened;
    },
    omega arith,
  )
  Move-Stands (copy_ends {w} {at}) safe h = record {
    leads = sym (write-nil s.memory at) ∙ h.0.leads;
    flagged = h.0.flagged;
    differs = h.0.differs;
    opened = h.0.opened;
  }
  Move-Stands (store {w}) safe h = record {
    leads = h.leads;
    flagged = ap {A = Detour} (λ d. record d { enabled = w }) h.flagged;
    differs = h.differs;
    opened = h.opened;
  }
  Move-Stands flush safe h = (
    record { leads = h.leads; flagged = h.flagged; differs = h.differs; opened = h.opened },
    λ a below above.
        fetched-flush target.calls target.arch target.macos s.memory s.cache
          s.detour.patcher.area.as_ptr s.detour.patcher.area.len a clears below above,
  )
  Move-Stands (unprotect {w}) safe h = record {
    outcome = cc (toggle_patched m d w v h.0.differs, h.0.leads, h.0.flagged);
    synced = h.1;
    closed = refl;
  }
  Move-Stands (unlock {w} {answer} {r}) safe h = record {
    settled_memory = sym (ap (λ t. t.1.0) h.outcome);
    settled_detour = sym (ap (λ t. t.1.1) h.outcome);
    in_sync = h.synced;
    sealed = h.closed;
  }

  -- No call panics.
  pub Move-calm :
      {p p' : Phase} {c : Option Call} {s' : Shared}
      → Move target i s p c s' p'
      → s.poisoned ≡ false
      → (inside p ≡ true → Stands target before s p)
      → p' ≢ panicked
  Move-calm (copy_panics {w} e) safe h = absurd (e (rw (h refl).1 (prolog-IsSized d.patcher w v)))
  Move-calm (lock_poisoned free e) safe h = cc
  Move-calm call safe h = λ x. cc
  Move-calm mv safe h = λ x. cc

  -- The mutex is not poisoned: the copy does not panic.
  pub Move-safe :
      {p p' : Phase} {c : Option Call} {s' : Shared}
      → Move target i s p c s' p'
      → s.poisoned ≡ false
      → Stands target before s p
      → s'.poisoned ≡ false
  Move-safe (copy_panics {w} e) safe h = absurd (e (rw h.1 (prolog-IsSized d.patcher w v)))
  Move-safe call safe h = safe
  Move-safe mv safe h = safe

  pub Move-Answers :
      {p p' : Phase} {c : Option Call} {s' : Shared}
      → Move target i s p c s' p'
      → Stands target before s p
      → Answers before c
  Move-Answers unlock h = sym (ap (λ t. t.0) h.outcome)
  Move-Answers call h = tt
  Move-Answers mv h = tt

pub Stands-outside :
    (target : Target) (before : Memory × Detour) (s : Shared) (p : Phase)
    → inside p ≡ false
    → Settled target before s
    → Stands target before s p
Stands-outside target before s idle out h = h
Stands-outside target before s (waiting w) out h = h
Stands-outside target before s panicked out h = h
Stands-outside target before s _ out h = absurd (cc)

pub Settled-outside :
    (target : Target) (before : Memory × Detour) (s : Shared) (p : Phase)
    → inside p ≡ false
    → Stands target before s p
    → Settled target before s
Settled-outside target before s idle out h = h
Settled-outside target before s (waiting w) out h = h
Settled-outside target before s panicked out h = h
Settled-outside target before s _ out h = absurd (cc)

toggle-patcher :
    (m : Memory) (d : Detour) (answer : Option RegionError) (w : Bool)
    → IsSized d.patcher
    → (toggle answer w (m, d)).1.1.patcher ≡ d.patcher
toggle-patcher m d answer w v = elim (Bool-cases (same d.enabled w)) [
  | inl agree ↦ rw (toggle-same m d answer w agree) refl
  | inr differ ↦ elim (Option-cases answer) [
    | inl granted ↦ rw (granted, toggle_patched m d w v differ) refl
    | inr (e, refused) ↦ rw (refused, toggle_refused m d e w differ) refl
  ]
]

pub after-IsSized :
    (c : Option Call) (b : Memory × Detour) → IsSized b.1.patcher → IsSized (after c b).1.patcher
after-IsSized none _ v = v
after-IsSized (some c) (m, d) v = subst IsSized (sym (toggle-patcher m d c.protect c.wanted v)) v

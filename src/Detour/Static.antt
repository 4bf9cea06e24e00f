-- ===== src/Detour/Static.antt =====
-- src/detours/statik.rs: the static detour, which is made at compile time and initialised later, at
-- most once. Its two pointers are options; `C` is the type of the closures.
pub mod Threads
use detour_rs.Base.{
  ℕ, ◌≡◌, refl, ◌≢◌, ◌⊎◌, inl, inr, Bool, true, false, Option-cases, Option, none, some,
}
use detour_rs.Base.Memory.{Memory, write}
use detour_rs.Arch.Patch.{IsSized, IsOriginal}
use detour_rs.Error.{
  Error, Result, ok, err, panic, RegionError, not_initialized, already_initialized,
}
use detour_rs.Detour.{
  Detour, toggle, enable, disable, is_enabled, System, World, Architecture, drop_memory, drop_relay,
  ◌>>+◌, or_drop,
}
use detour_rs.Detour
use detour_rs.Detour.Switch.{drop-eq}

pub record StaticDetour (C : Type 0) : Type 0 where
  pub closure : Option C
  pub detour : Option Detour

-- StaticDetour::__new
unfoldable pub new : {C : Type 0} → StaticDetour C
new = record { closure = none; detour = none }

-- The previous closure is dropped.
unfoldable pub set_detour : {C : Type 0} → StaticDetour C → C → StaticDetour C
set_detour s closure = record s { closure = some closure }

-- A detour that is not kept gives its memory back; it is not switched on.
abbrev drop_detour : (system : System) → Detour → World (system.Pool) → World (system.Pool)
drop_detour system d w = drop_memory system d.trampoline (drop_relay system d.relay w)

module _ (system : System) (a : Architecture) {C : Type 0} where
  open system use {Pool}

  abbrev installed :
      C → StaticDetour C → Detour → World Pool → Result (Unit {0}) × (StaticDetour C × World Pool)
  installed closure s d w = elim s.detour [
    | some e ↦ (err already_initialized, (s, drop_detour system d w))
    | none ↦ (ok tt, (set_detour (record s { detour = some d }) closure, w))
  ]

  abbrev initialized :
      C
      → StaticDetour C
      → Result Detour × World Pool
      → Result (Unit {0}) × (StaticDetour C × World Pool)
  initialized closure s (ok d, w) = installed closure s d w
  initialized closure s (err e, w) = (err e, (s, w))
  initialized closure s (panic, w) = (panic, (s, w))

  -- The hook is made first, and only then the detour is put in the place of a null pointer.
  unfoldable pub initialize :
      (ffi target : ℕ)
      → C
      → StaticDetour C × World Pool
      → Result (Unit {0}) × (StaticDetour C × World Pool)
  initialize ffi target closure (s, w) = initialized closure s (Detour.new system a target ffi w)

  once :
      (made : Result Detour × World Pool) (s : StaticDetour C) (d : Detour) (closure : C)
      → s.detour ≡ some d
      → let (r, (s', w')) = initialized closure s made in (r ≢ ok tt) × (s' ≡ s)
  once (ok e, w) s d closure h = rw h ((λ x. cc), refl)
  once (err e, w) s d closure h = ((λ x. cc), refl)
  once (panic, w) s d closure h = ((λ x. cc), refl)

  -- Only one call can succeed: a detour that is there is kept, with its closure, whatever the call
  -- ends with, and the result is an error or a panic.
  pub initialize-once :
      (ffi target : ℕ) (closure : C) (s : StaticDetour C) (d : Detour) (w : World Pool)
      → s.detour ≡ some d
      → let (r, (s', w')) = initialize ffi target closure (s, w) in (r ≢ ok tt) × (s' ≡ s)
  unfolding initialize
  initialize-once ffi target closure s d w h = once (Detour.new system a target ffi w) s d closure h

  first :
      (made : Result Detour × World Pool) (closure : C)
      → let (r, (s', w')) = initialized closure new made in
        ((d : Detour) × (made ≡ (ok d, w'))
          × (r ≡ ok tt)
          × (s'.detour ≡ some d)
          × (s'.closure ≡ some closure))
        ⊎ ((e : Error) × (made ≡ (err e, w')) × (r ≡ err e) × (s' ≡ new))
        ⊎ ((made ≡ (panic, w')) × (r ≡ panic) × (s' ≡ new))
  unfolding new set_detour
  first (ok d, w) closure = inl (d, refl, refl, refl, refl)
  first (err e, w) closure = inr (inl (e, refl, refl, refl))
  first (panic, w) closure = inr (inr (refl, refl, refl))

  -- A call on a fresh static detour either installs the detour that `Detour::new` made, switched to
  -- the closure, or it ends with the error of `Detour::new`, or in its panic, and leaves the static
  -- detour fresh. The world is as `Detour::new` left it.
  pub initialize-first :
      (ffi target : ℕ) (closure : C) (w : World Pool)
      → let (r, (s', w')) = initialize ffi target closure (new, w) in
        ((d : Detour) × (Detour.new system a target ffi w ≡ (ok d, w'))
          × (r ≡ ok tt)
          × (s'.detour ≡ some d)
          × (s'.closure ≡ some closure))
        ⊎ ((e : Error) × (Detour.new system a target ffi w ≡ (err e, w'))
            × (r ≡ err e)
            × (s' ≡ new))
        ⊎ ((Detour.new system a target ffi w ≡ (panic, w')) × (r ≡ panic) × (s' ≡ new))
  unfolding initialize new set_detour
  initialize-first ffi target closure w = first (Detour.new system a target ffi w) closure

-- StaticDetour::enable and ::disable, on the detour behind the pointer.
module _ {C : Type 0} where
  abbrev stored :
      StaticDetour C
      → Result (Unit {0}) × (Memory × Detour)
      → Result (Unit {0}) × (Memory × StaticDetour C)
  stored s (r, (m, d)) = (r, (m, record s { detour = some d }))

  unfoldable pub enable_static :
      Option RegionError → Memory × StaticDetour C → Result (Unit {0}) × (Memory × StaticDetour C)
  enable_static protect (m, s) = elim s.detour [
    | none ↦ (err not_initialized, (m, s))
    | some d ↦ stored s (enable protect (m, d))
  ]

  unfoldable pub disable_static :
      Option RegionError → Memory × StaticDetour C → Result (Unit {0}) × (Memory × StaticDetour C)
  disable_static protect (m, s) = elim s.detour [
    | none ↦ (err not_initialized, (m, s))
    | some d ↦ stored s (disable protect (m, d))
  ]

  unfoldable pub is_enabled_static : StaticDetour C → Bool
  is_enabled_static s = elim s.detour [ none ↦ false | some d ↦ is_enabled d ]

  -- StaticDetour::trampoline
  unfoldable pub trampoline : StaticDetour C → Result ℕ
  trampoline s = elim s.detour [ none ↦ err not_initialized | some d ↦ ok (d.trampoline.as_ptr) ]

  -- StaticDetour::__detour
  unfoldable pub closure_of : StaticDetour C → Result C
  closure_of s = elim s.closure [ none ↦ panic | some c ↦ ok c ]

-- <StaticDetour as Drop>::drop: the closure goes, and the detour with its memory.
unfoldable pub drop_static :
    {C : Type 0}
    → (system : System) → (debug_assertions : Bool) → Option RegionError
    → StaticDetour C × World (system.Pool)
    → Result (Unit {0}) × (StaticDetour C × World (system.Pool))
drop_static system debug_assertions protect (s, w) = elim s.detour [
  | none ↦ (ok tt, (record { closure = none; detour = none }, w))
  | some d ↦
      let (r, (m, d')) = Detour.drop debug_assertions protect (w.memory, d) in
      (
        r,
        (record { closure = none; detour = none }, drop_detour system d' (record w { memory = m })),
      )
]

drop_memories :
    (system : System) (d : Detour) (w : World (system.Pool))
    → (drop_detour system d w).memory ≡ w.memory
drop_memories system d w = elim (Option-cases d.relay) [
  | inl alone ↦ rw alone refl
  | inr (s, e) ↦ rw e refl
]

-- In a build with debug assertions, a static detour that is dropped while it is switched on, with
-- the access granted, its two prologs as long as its area, which held the first of them: the memory
-- is as it was before the hook, and neither the closure nor the detour is left.
pub drop_static-restores :
    {C : Type 0}
    → (system : System) (s : StaticDetour C) (d : Detour) (m : Memory) (pool : system.Pool)
    → s.detour ≡ some d
    → d.enabled ≡ true
    → IsSized d.patcher
    → IsOriginal m d.patcher
    → let hooked = write m d.patcher.area.as_ptr d.patcher.detour_prolog in
      let (r, (s', w')) =
        drop_static system true none (s, record { memory = hooked; pool = pool }) in
      (r ≡ ok tt) × (s' ≡ new) × (w'.memory ≡ m)
unfolding drop_static new
drop_static-restores system s d m pool h on v original =
    rw (h, drop-eq m d on v original)
      (
        refl,
        refl,
        drop_memories system (record d { enabled = false }) (record { memory = m; pool = pool }),
      )

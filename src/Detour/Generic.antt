-- ===== src/Detour/Generic.antt =====
-- src/detours/generic.rs: the detour of two functions of the types `T` and `D`, whose addresses
-- `to_ptr` of the trait `Function` gives.
use detour_rs.Base.{ℕ, Bool, Option}
use detour_rs.Base.Memory.{Memory}
use detour_rs.Error.{Result, RegionError, ok, err, panic}
use detour_rs.Detour.{Detour, System, World, Architecture}
use detour_rs.Detour

pub record GenericDetour (T : Type 0) : Type 0 where
  pub detour : Detour

module _ {T D : Type 0} (to_ptr : T → ℕ) (detour_ptr : D → ℕ) where
  abbrev wrapped : {S : Type 0} → Result Detour × S → Result (GenericDetour T) × S
  wrapped (ok d, s) = (ok (record { detour = d }), s)
  wrapped (err e, s) = (err e, s)
  wrapped (panic, s) = (panic, s)

  unfoldable pub new :
      (system : System)
      → Architecture
      → (target : T) (detour : D) → World (system.Pool)
      → Result (GenericDetour T) × World (system.Pool)
  new system a target detour w = wrapped (Detour.new system a (to_ptr target) (detour_ptr detour) w)

module _ {T : Type 0} where
  abbrev rewrapped :
      {A : Type 0} → Result A × (Memory × Detour) → Result A × (Memory × GenericDetour T)
  rewrapped (r, (m, d)) = (r, (m, record { detour = d }))

  unfoldable pub enable :
      Option RegionError → Memory × GenericDetour T → Result (Unit {0}) × (Memory × GenericDetour T)
  enable protect (m, d) = rewrapped (Detour.enable protect (m, d.detour))

  unfoldable pub disable :
      Option RegionError → Memory × GenericDetour T → Result (Unit {0}) × (Memory × GenericDetour T)
  disable protect (m, d) = rewrapped (Detour.disable protect (m, d.detour))

  unfoldable pub is_enabled : GenericDetour T → Bool
  is_enabled d = Detour.is_enabled d.detour

  unfoldable pub trampoline : GenericDetour T → ℕ
  trampoline d = d.detour.trampoline.as_ptr

-- ===== src/Detour/Raw.antt =====
-- src/detours/raw.rs: the detour of two plain addresses.
use detour_rs.Base.{ℕ, Bool, Option}
use detour_rs.Base.Memory.{Memory}
use detour_rs.Error.{Result, RegionError, ok, err, panic}
use detour_rs.Detour.{Detour, System, World, Architecture}
use detour_rs.Detour

pub record RawDetour : Type 0 where
  pub inner : Detour

abbrev wrapped : {S : Type 0} → Result Detour × S → Result RawDetour × S
wrapped (ok d, s) = (ok (record { inner = d }), s)
wrapped (err e, s) = (err e, s)
wrapped (panic, s) = (panic, s)

abbrev rewrapped : {A : Type 0} → Result A × (Memory × Detour) → Result A × (Memory × RawDetour)
rewrapped (r, (m, d)) = (r, (m, record { inner = d }))

unfoldable pub new :
    (system : System)
    → Architecture
    → (target detour : ℕ) → World (system.Pool)
    → Result RawDetour × World (system.Pool)
new system a target detour w = wrapped (Detour.new system a target detour w)

unfoldable pub enable :
    Option RegionError → Memory × RawDetour → Result (Unit {0}) × (Memory × RawDetour)
enable protect (m, d) = rewrapped (Detour.enable protect (m, d.inner))

unfoldable pub disable :
    Option RegionError → Memory × RawDetour → Result (Unit {0}) × (Memory × RawDetour)
disable protect (m, d) = rewrapped (Detour.disable protect (m, d.inner))

unfoldable pub is_enabled : RawDetour → Bool
is_enabled d = Detour.is_enabled d.inner

unfoldable pub trampoline : RawDetour → ℕ
trampoline d = d.inner.trampoline.as_ptr

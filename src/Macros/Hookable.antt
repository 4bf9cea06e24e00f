-- ===== src/Macros/Hookable.antt =====
-- `impl_hookable!` of src/macros.rs, as src/traits.rs calls it: the traits and the methods that it
-- implements for the types of functions, and what the methods `call` do.
use detour_rs.Base.{ℕ, Bool, true, false, Option, none, some, List, [], ◌∷◌, ◌++◌, if◌then◌else◌}
use Prim.Native.String.{String}
use detour_rs.Error.{Result, ok, panic}
use detour_rs.Arch.{TargetArch, x86_64}
use detour_rs.Detour.Static.{StaticDetour}
use detour_rs.Detour.Static
use detour_rs.Detour.Generic.{GenericDetour}
use detour_rs.Detour.Generic

-- [unsafe] [extern "convention"] fn(types) -> Ret
pub record FnType : Type 0 where
  pub is_unsafe : Bool
  pub convention : Option String
  pub types : List String

pub data Impl : Type 0 where
  function : FnType → Impl  -- Function for a type
  hookable_with : (target detour : FnType) → Impl  -- HookableWith<detour> for target
  static_call : FnType → Impl  -- StaticDetour<type>::call, unsafe where the type is
  generic_call : FnType → Impl  -- GenericDetour<type>::call, likewise

module _ (arch : TargetArch) (nightly : Bool) where
  abbrev pub static_calls : FnType → List Impl
  static_calls f = if nightly then static_call f ∷ [] else []

  abbrev pub impl_core : FnType → List Impl
  impl_core f = function f ∷ []

  abbrev pub impl_unsafe : (target detour : FnType) → List Impl
  impl_unsafe target detour =
      hookable_with target detour ∷ (static_calls target ++ generic_call target ∷ [])

  abbrev pub impl_safe : FnType → List Impl
  impl_safe f = static_calls f ++ generic_call f ∷ []

  unfoldable pub impl_fun : (safe unsafe_type : FnType) → List Impl
  impl_fun safe unsafe_type =
      impl_core safe ++ (impl_core unsafe_type ++ (impl_unsafe unsafe_type safe ++ impl_safe safe))

  abbrev pub fn : Bool → Option String → List String → FnType
  fn u convention types = record { is_unsafe = u; convention = convention; types = types }

  unfoldable pub impl_pair : List String → Option String → List Impl
  unfolding impl_fun
  impl_pair types convention = impl_fun (fn false convention types) (fn true convention types)

  -- extern "win64" on x86_64 alone
  abbrev pub win64 : TargetArch → List (Option String)
  win64 x86_64 = some "win64" ∷ []
  win64 _ = []

  abbrev pub conventions : List (Option String)
  conventions = none ∷ some "cdecl" ∷ (win64 arch ++ some "C" ∷ some "system" ∷ [])

  abbrev pub impl_pairs : List String → List (Option String) → List Impl
  impl_pairs types [] = []
  impl_pairs types (c ∷ cs) = impl_pair types c ++ impl_pairs types cs

  unfoldable pub impl_all : List String → List Impl
  unfolding impl_pair
  impl_all types = impl_pairs types conventions

  -- @recurse: the types that are left, and those that were taken.
  unfoldable pub recurse : (left taken : List String) → List Impl
  recurse [] taken = impl_all taken
  recurse (type ∷ left) taken = impl_all taken ++ recurse left (taken ++ type ∷ [])

  unfoldable pub impl_hookable : List String → List Impl
  unfolding recurse
  impl_hookable types = recurse types []

-- The method `call` of a static detour panics where there is no trampoline; what it calls is the code
-- at the address.
unfoldable pub call_static : {C : Type 0} → StaticDetour C → Result ℕ
unfolding Static.trampoline
call_static s = elim (Static.trampoline s) [ ok original ↦ ok original | _ ↦ panic ]

unfoldable pub call_generic : {T : Type 0} → GenericDetour T → ℕ
unfolding Generic.trampoline
call_generic d = Generic.trampoline d

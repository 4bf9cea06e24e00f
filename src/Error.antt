-- ===== src/Error.antt =====
-- src/error.rs: the errors of the crate, and `Result` as the code uses it. The third outcome is a
-- panic, which is no Rust value: a failed `assert!`, `expect`, `unwrap` or slice index.
use detour_rs.Base.{ℕ, ◌≡◌, refl, ◌⊎◌, inl, inr, Bool, true, false, Option, none, some}
use Prim.Native.String.{String}

-- `region::Error` of the crate `region`: the source tells `FreeMemory` from all the others.
pub data RegionError : Type 0 where
  free_memory : RegionError
  inner : ℕ → RegionError

pub data Error : Type 0 where
  same_address invalid_code no_patch_area not_executable not_initialized : Error
  already_initialized out_of_memory unsupported_instruction : Error
  region_failure : RegionError → Error

pub data Result {ℓ} (A : Type ℓ) : Type ℓ where
  ok : A → Result A
  err : Error → Result A
  panic : Result A

-- The `?` operator, and the unwinding of a panic.
infixl 5 ◌>>=◌ ◌>>◌
abbrev pub ◌>>=◌ {ℓ κ} :
    {Value : Type ℓ} {Next : Type κ} → Result Value → (Value → Result Next) → Result Next
panic >>= next = panic
err failure >>= next = err failure
ok value >>= next = next value

abbrev pub ◌>>◌ {κ} :
    {Next : Type κ} → (first : Result (Unit {0})) → (second : Result Next) → Result Next
first >> second = first >>= λ done. second

-- assert!(test)
abbrev pub assert : Bool → Result (Unit {0})
assert true = ok tt
assert false = panic

-- Option::expect and Option::unwrap
abbrev pub expect {ℓ} : {A : Type ℓ} → Option A → Result A
expect none = panic
expect (some a) = ok a

-- Option::ok_or
abbrev pub ok_or {ℓ} : {A : Type ℓ} → Option A → Error → Result A
ok_or none e = err e
ok_or (some a) e = ok a

-- <Error as std::error::Error>::source
unfoldable pub source : Error → Option RegionError
source (region_failure e) = some e
source _ = none

-- <Error as Display>::fmt, over the text of the crate `region` for its own errors.
unfoldable pub display : (RegionError → String) → Error → String
display region same_address = "Target and detour address is the same"
display region invalid_code = "Address contains invalid assembly"
display region no_patch_area = "Cannot find an inline patch area"
display region not_executable = "Address is not executable"
display region not_initialized = "Detour is not initialized"
display region already_initialized = "Detour is already initialized"
display region out_of_memory = "Cannot allocate memory"
display region unsupported_instruction = "Address contains an unsupported instruction"
display region (region_failure e) = region e

-- What a result that is `ok` went through.
pub >>=-eq-ok {ℓ κ} :
    {Value : Type ℓ} {Next : Type κ} (first : Result Value) (next : Value → Result Next)
    {end_value : Next}
    → (first >>= next) ≡ ok end_value
    → (value : Value) × (first ≡ ok value) × (next value ≡ ok end_value)
>>=-eq-ok panic next h = cc
>>=-eq-ok (ok value) next h = (value, refl, h)
>>=-eq-ok (err failure) next h = cc

pub assert-eq-ok : (b : Bool) → {u : Unit {0}} → assert b ≡ ok u → b ≡ true
assert-eq-ok true h = refl
assert-eq-ok false h = cc

pub ok-injective {ℓ} : {A : Type ℓ} {a b : A} → ok a ≡ ok b → a ≡ b
ok-injective h = cc

pub Result-cases {ℓ} :
    {A : Type ℓ} (r : Result A) → ((a : A) × (r ≡ ok a)) ⊎ ((e : Error) × (r ≡ err e)) ⊎ (r ≡ panic)
Result-cases (ok a) = inl (a, refl)
Result-cases (err e) = inr (inl (e, refl))
Result-cases panic = inr (inr refl)

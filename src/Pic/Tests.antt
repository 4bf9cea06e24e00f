-- ===== src/Pic/Tests.antt =====
-- Concrete runs of the theorems about the emitter of src/pic.
use detour_rs.Base.{ℕ, ◌%◌, refl, [], ◌∷◌, All}
use detour_rs.Error.{ok}
use detour_rs.Pic.{vec, fixed_thunk, CodeEmitter, generate, len}
use detour_rs.Pic.Emit.{Generates}

-- Two bytes, and then the low byte of the address where it stands.
abbrev two_thunks : CodeEmitter
two_thunks = record {
  thunks = vec (1 ∷ 2 ∷ []) ∷ fixed_thunk 1 (λ base. ok (base % 256 ∷ [])) ∷ [];
}

two_thunks-Generates : (address : ℕ) → All (λ t. Generates t address) two_thunks.thunks
unfolding generate len
two_thunks-Generates address = ((1 ∷ 2 ∷ [], refl, refl), ((address % 256 ∷ [], refl, refl), tt))

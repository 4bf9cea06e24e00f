-- ===== src/Pic.antt =====
-- src/pic: position-independent code. A thunk is code that is generated once its address is
-- known, and an emitter is the sequence of thunks that makes up a trampoline, a relay or a hook.
pub mod Emit
pub mod Tests
use detour_rs.Base.{ℕ, ◌+◌, ◌%◌, List, [], ◌∷◌, ◌++◌, length, ◌==◌}
use detour_rs.Error.{Result, ok, assert, ◌>>=◌, ◌>>◌}
use detour_rs.Arch.{TargetArch, usize_mod}
use mathlib.Core.List.{foldl}

-- The implementations of the trait `Thunkable`: `Vec<u8>`, `FixedThunk<N>` with N, and `UnsafeThunk`.
-- A closure may panic.
pub data Thunk : Type 0 where
  vec : List ℕ → Thunk
  fixed_thunk : ℕ → (ℕ → Result (List ℕ)) → Thunk
  unsafe_thunk : (ℕ → Result (List ℕ)) → ℕ → Thunk

-- Thunkable::generate
unfoldable pub generate : Thunk → ℕ → Result (List ℕ)
generate (vec code) address = ok code
generate (fixed_thunk n callback) address = callback address
generate (unsafe_thunk callback size) address = callback address

-- Thunkable::len
unfoldable pub len : Thunk → ℕ
len (vec code) = length code
len (fixed_thunk n callback) = n
len (unsafe_thunk callback size) = size

pub record CodeEmitter : Type 0 where
  pub thunks : List Thunk

-- CodeEmitter::new
unfoldable pub new : CodeEmitter
new = record { thunks = [] }

unfoldable pub add_thunk : CodeEmitter → Thunk → CodeEmitter
add_thunk emitter thunk = record { thunks = emitter.thunks ++ thunk ∷ [] }

-- CodeEmitter::len
unfoldable pub total_len : CodeEmitter → ℕ
total_len emitter = foldl (λ sum thunk. sum + len thunk) 0 emitter.thunks

-- The loop of `emit` over the thunks that are left; `base += thunk.len()` wraps.
unfoldable pub emit_loop : TargetArch → List Thunk → ℕ → List ℕ → Result (List ℕ)
emit_loop a [] base result = ok result
emit_loop a (thunk ∷ thunks) base result = do
  code ← generate thunk base
  assert (length code == len thunk)
  emit_loop a thunks ((base + len thunk) % usize_mod a) (result ++ code)

unfoldable pub emit : TargetArch → CodeEmitter → ℕ → Result (List ℕ)
unfolding emit_loop
emit a emitter base = emit_loop a emitter.thunks base []

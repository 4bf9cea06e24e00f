-- ===== src/FixedWidth/Tests.antt =====
-- A trampoline of src/arch/aarch64/trampoline/mod.rs for a function that is a return.
use detour_rs.Base.{ℕ, ◌≡◌, refl, some, List, [], ◌∷◌}
use detour_rs.Base.Memory.{Memory, write, read, word_at}
use detour_rs.Base.Words.{le_bytes, from_le_bytes}
use detour_rs.Error.{ok}
use detour_rs.Arch.Fixed.{Trampoline, builder, build, build_loop, round, is_in_branch}
use detour_rs.Arch.Fixed.Ends.{PrologEnds}
use detour_rs.Pic.{vec, new, add_thunk}
use detour_rs.Aarch64.Trampoline.{process, make}
use detour_rs.FixedWidth.{arm_64, isa_of, make_of, IsLast, keeps_of, make-PrologEnds}

-- RET
abbrev ret_bytes : List ℕ
ret_bytes = 0xC0 ∷ 0x03 ∷ 0x5F ∷ 0xD6 ∷ []

abbrev function : Memory
function = write (λ p. 0) 0x1000 ret_bytes

abbrev copied : Trampoline
copied = record { emitter = record { thunks = vec ret_bytes ∷ [] }; prolog_size = 4 }

copied_made : make_of arm_64 function 0x1000 4 ≡ some (ok copied)
unfolding make build build_loop round process builder word_at from_le_bytes read write le_bytes
    is_in_branch new add_thunk
copied_made = refl

make-PrologEnds_example :
    PrologEnds
      (isa_of arm_64)
      function
      (IsLast arm_64)
      (keeps_of arm_64 function)
      (builder 0x1000 4)
      (vec ret_bytes ∷ [])
      4
make-PrologEnds_example = make-PrologEnds arm_64 function 0x1000 4 copied copied_made

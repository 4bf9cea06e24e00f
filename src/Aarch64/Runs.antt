-- ===== src/Aarch64/Runs.antt =====
-- A whole detour of src/arch/detour.rs on AArch64: an instruction at 0x1000 that is detoured over a
-- relay.
use detour_rs.Base.{ℕ, ◌+◌, ◌≡◌, refl, inl, inr, true, false, none, some, List, [], ◌∷◌, arith}
use detour_rs.Base.Memory.{Memory, write, read, word_at}
use detour_rs.Base.Words.{le_bytes, from_le_bytes}
use detour_rs.Error.{ok}
use detour_rs.Arch.{is_within_range}
use detour_rs.Arch.Fixed.{builder, build, build_loop, round, is_in_branch}
use detour_rs.Arch.Patch.{copy_from_slice}
use detour_rs.Pic.{generate, total_len, len, add_thunk, new, emit, emit_loop}
use detour_rs.Aarch64.Thunk
use detour_rs.Aarch64.Patcher
use detour_rs.Aarch64.Trampoline as Prolog
use detour_rs.Aarch64.Install.{arm_64, Enters, toggle-Enters}
use detour_rs.Detour.{System, World, Detour, toggle, allocate_pic, assemble, check_executable}
use detour_rs.Detour

abbrev zeros : Memory
zeros p = 0

-- NOP
abbrev nop : List ℕ
nop = 0x1F ∷ 0x20 ∷ 0x03 ∷ 0xD5 ∷ []

abbrev function : Memory
function = write zeros 0x1000 nop

-- Allocations lie behind one another, and all of them succeed.
abbrev upwards : System
upwards = record {
  Pool = ℕ;
  allocate = λ at origin size. ok (record { as_ptr = at; len = size }, at + size);
  release = λ at slice. at;
  is_executable_address = λ address. ok true;
}

abbrev far_detour : ℕ
far_detour = 0x1_8000_0000

abbrev before_detour : World ℕ
before_detour = record { memory = function; pool = 0x5000 }

abbrev relay_code : List ℕ
relay_code = 0x50 ∷ 0 ∷ 0 ∷ 0x58 ∷ 0 ∷ 0x02 ∷ 0x1F ∷ 0xD6 ∷ 0 ∷ 0 ∷ 0 ∷ 0x80 ∷ 1 ∷ 0 ∷ 0 ∷ 0 ∷ []

abbrev trampoline_code : List ℕ
trampoline_code =
    0x1F ∷ 0x20 ∷ 0x03 ∷ 0xD5 ∷ 0x50 ∷ 0 ∷ 0 ∷ 0x58 ∷ 0 ∷ 0x02 ∷ 0x1F ∷ 0xD6 ∷ 0x04 ∷ 0x10 ∷ 0 ∷ 0
    ∷ 0 ∷ 0 ∷ 0 ∷ 0 ∷ []

abbrev after_detour : World ℕ
after_detour = record {
  memory = write (write function 0x5000 relay_code) 0x5010 trampoline_code;
  pool = 0x5024;
}

abbrev made_detour : Detour
made_detour = record {
  relay = some (record { as_ptr = 0x5000; len = 16 });
  trampoline = record { as_ptr = 0x5010; len = 20 };
  patcher = record {
    area = record { as_ptr = 0x1000; len = 4 };
    original_prolog = nop;
    detour_prolog = 0 ∷ 0x10 ∷ 0 ∷ 0x14 ∷ [];
  };
  enabled = false;
}

detour_made :
    Detour.new upwards arm_64 0x1000 far_detour before_detour ≡ (ok made_detour, after_detour)
unfolding Detour.new check_executable assemble allocate_pic copy_from_slice Thunk.prolog_margin
    Thunk.relay_builder is_within_range Prolog.make Prolog.process build build_loop round builder
    is_in_branch word_at from_le_bytes read write le_bytes add_thunk new total_len len emit
    emit_loop generate Thunk.jmp_abs Patcher.make Patcher.patch_area Patcher.branch_bytes
detour_made = refl

toggle-Enters_example :
    (hooked : Memory) × (d' : Detour) × (toggle none true (after_detour.memory, made_detour)
      ≡ (ok tt, (hooked, d')))
    × Enters 0x1000 far_detour hooked
toggle-Enters_example =
    toggle-Enters upwards 0x1000 far_detour (omega arith) (omega arith) before_detour after_detour
      made_detour detour_made
      (refl, inl (omega arith), omega arith, inr (omega arith), inl (omega arith))

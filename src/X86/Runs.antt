-- ===== src/X86/Runs.antt =====
-- Concrete runs of the theorems about the code that src/arch/x86 emits, and about whole detours.
use detour_rs.Base.{
  ℕ, ◌+◌, ◌≡◌, refl, inl, inr, Bool, true, false, Option, none, some, List, [], ◌∷◌, if◌then◌else◌,
  arith,
}
use detour_rs.Base.Memory.{Memory, write, read, write-Holds}
use detour_rs.Base.Words.{le_bytes}
use detour_rs.Error.{ok, panic, RegionError, free_memory}
use detour_rs.Arch.{is_within_range}
use detour_rs.Arch.Patch.{copy_from_slice}
use detour_rs.Pic.{Thunk, CodeEmitter, generate, total_len, len, add_thunk, new, emit, emit_loop}
use detour_rs.Pic
use detour_rs.X86.Defs.{amd64}
use detour_rs.X86.Machine.{steps, transfer, call, condition}
use detour_rs.X86.Thunk.{jmp_rel32, jmp_rel8, jmp, jcc}
use detour_rs.X86.Thunk
use detour_rs.X86.Thunk.Reach.{call-reaches, jcc-reaches}
use detour_rs.X86.Patcher.{patch_area, hook_template, pad_nops, is_code_padding}
use detour_rs.X86.Patcher
use detour_rs.X86.Trampoline.{
  round, slice_index, process_instruction, is_instruction_in_branch, place_thunk,
}
use detour_rs.X86.Trampoline
use detour_rs.X86.Disasm.{rip_operand_target, relative_branch_target, is_return}
use detour_rs.X86.Meta.{relay_builder, prolog_margin}
use detour_rs.X86.Meta.Relay.{relay_missing}
use detour_rs.X86.Tests.{decoder, zeros, everywhere}
use detour_rs.Detour.{System, World, Detour, toggle, allocate_pic, assemble, check_executable}
use detour_rs.Detour
use detour_rs.Detour.Switch.{switch, last_granted}
use detour_rs.X86.Install.{x86, install-reaches, install-switch}

abbrev absolute_jump : List ℕ
absolute_jump = 0xFF ∷ 0x25 ∷ 0 ∷ 0 ∷ 0 ∷ 0 ∷ 0x00 ∷ 0x20 ∷ 0 ∷ 0 ∷ 0 ∷ 0 ∷ 0 ∷ 0 ∷ []

jump_generated : generate (jmp amd64 0x2000) 0x1000 ≡ ok absolute_jump
unfolding generate jmp le_bytes
jump_generated = refl

abbrev absolute_call : List ℕ
absolute_call = 0xFF ∷ 0x15 ∷ 2 ∷ 0 ∷ 0 ∷ 0 ∷ 0xEB ∷ 0x08 ∷ 0x00 ∷ 0x20 ∷ 0 ∷ 0 ∷ 0 ∷ 0 ∷ 0 ∷ 0 ∷ []

call_generated : generate (Thunk.call amd64 0x2000) 0x1000 ≡ ok absolute_call
unfolding generate Thunk.call le_bytes
call_generated = refl

call-reaches_example :
    (back : ℕ) × (n : ℕ) × (transfer amd64 (write zeros 0x1000 absolute_call) 0x1000
      ≡ some (call 0x2000 back))
    × (steps amd64 (λ flag. true) (write zeros 0x1000 absolute_call) n back
        ≡ some (0x1000 + len (Thunk.call amd64 0x2000)))
call-reaches_example =
    call-reaches amd64 (λ flag. true) (write zeros 0x1000 absolute_call) 0x1000 0x2000 absolute_call
      (omega arith) (omega arith) call_generated (write-Holds zeros 0x1000 absolute_call)

-- A jump on a set sign flag, condition 8.
abbrev absolute_branch : List ℕ
absolute_branch = 0x79 ∷ 0x0E ∷ absolute_jump

branch_generated : generate (jcc amd64 0x2000 8) 0x1000 ≡ ok absolute_branch
unfolding generate jcc le_bytes
branch_generated = refl

jcc-reaches_example :
    (n : ℕ) × (steps amd64 (λ flag. true) (write zeros 0x1000 absolute_branch) n 0x1000
      ≡ some (if condition (λ flag. true) 8 then 0x2000 else 0x1000 + len (jcc amd64 0x2000 8)))
jcc-reaches_example =
    jcc-reaches amd64 (λ flag. true) (write zeros 0x1000 absolute_branch) 0x1000 0x2000 8
      absolute_branch (omega arith) (omega arith) (omega arith) branch_generated
      (write-Holds zeros 0x1000 absolute_branch)

near_needs_no_relay : relay_builder amd64 0x1000 0x2000 ≡ none
unfolding relay_builder is_within_range
near_needs_no_relay = refl

relay_missing_example :
    (relay_builder amd64 0x8000_1000 0x1001 ≡ none)
    × (generate (jmp_rel32 amd64 0x1001) 0x8000_1000 ≡ panic)
relay_missing_example =
    relay_missing 0x8000_1000 0x1001 (omega arith) (omega arith) (omega arith) (omega arith)

-- Memory for code is given out from an address on, and never taken back.
abbrev upwards : System
upwards = record {
  Pool = ℕ;
  allocate = λ at origin size. ok (record { as_ptr = at; len = size }, at + size);
  release = λ at slice. at;
  is_executable_address = everywhere;
}

-- A detour more than 2 GB away, reached over a relay at 0x5000.
abbrev far_detour : ℕ
far_detour = 0x1_8000_0000

abbrev before_detour : World ℕ
before_detour = record { memory = zeros; pool = 0x5000 }

abbrev relay_code : List ℕ
relay_code = 0xFF ∷ 0x25 ∷ 0 ∷ 0 ∷ 0 ∷ 0 ∷ 0x00 ∷ 0x00 ∷ 0x00 ∷ 0x80 ∷ 0x01 ∷ 0 ∷ 0 ∷ 0 ∷ []

abbrev trampoline_code : List ℕ
trampoline_code =
    0 ∷ 0 ∷ 0 ∷ 0 ∷ 0 ∷ 0xFF ∷ 0x25 ∷ 0 ∷ 0 ∷ 0 ∷ 0 ∷ 0x05 ∷ 0x10 ∷ 0 ∷ 0 ∷ 0 ∷ 0 ∷ 0 ∷ 0 ∷ []

abbrev after_detour : World ℕ
after_detour = record {
  memory = write (write zeros 0x5000 relay_code) 0x500E trampoline_code;
  pool = 0x5021;
}

abbrev made_detour : Detour
made_detour = record {
  relay = some (record { as_ptr = 0x5000; len = 14 });
  trampoline = record { as_ptr = 0x500E; len = 19 };
  patcher = record {
    area = record { as_ptr = 0x1000; len = 5 };
    original_prolog = 0 ∷ 0 ∷ 0 ∷ 0 ∷ 0 ∷ [];
    detour_prolog = 0xE9 ∷ 0xFB ∷ 0x3F ∷ 0x00 ∷ 0x00 ∷ [];
  };
  enabled = false;
}

detour_made :
    Detour.new upwards (x86 amd64 decoder everywhere) 0x1000 far_detour before_detour
    ≡ (ok made_detour, after_detour)
unfolding Detour.new check_executable assemble allocate_pic copy_from_slice prolog_margin
    relay_builder is_within_range Trampoline.make round read slice_index process_instruction
    rip_operand_target relative_branch_target is_return is_instruction_in_branch place_thunk Pic.len
    add_thunk new total_len emit emit_loop generate jmp le_bytes Patcher.make patch_area
    is_code_padding hook_template pad_nops jmp_rel32 write
detour_made = refl

install-reaches_example :
    (hooked : Memory) × (d' : Detour) × (toggle none true (after_detour.memory, made_detour)
      ≡ (ok tt, (hooked, d')))
    × ((flags : ℕ → Bool) → (n : ℕ) × (steps amd64 flags hooked n 0x1000 ≡ some far_detour))
install-reaches_example =
    install-reaches upwards amd64 decoder 0x1000 far_detour (omega arith) (omega arith)
      (omega arith) before_detour after_detour made_detour detour_made
      (omega arith, inr (omega arith), inl (omega arith))

-- Switched on, then an attempt to switch off that is refused.
abbrev on_and_refused : List (Bool × Option RegionError)
on_and_refused = (true, none) ∷ (false, some free_memory) ∷ []

install-switch_example : (switch on_and_refused (after_detour.memory, made_detour)).0 ≡ (
    if last_granted false on_and_refused
    then write after_detour.memory 0x1000 made_detour.patcher.detour_prolog
    else after_detour.memory)
install-switch_example =
    install-switch upwards amd64 decoder 0x1000 far_detour (omega arith) (omega arith) (omega arith)
      before_detour after_detour made_detour on_and_refused detour_made (inr (omega arith))

-- ===== src/X86/Tests.antt =====
-- Concrete runs of the theorems about src/arch/x86: functions at 0x1000 that are detoured.
use detour_rs.Base.{
  ℕ, ◌+◌, ◌≤◌, ◌<◌, ◌≡◌, refl, ◌⊎◌, inr, Bool, true, false, none, some, List, [], ◌∷◌, ltb,
  if◌then◌else◌, arith,
}
use detour_rs.Base.Memory.{Memory, read}
use detour_rs.Error.{Result, ok}
use detour_rs.Arch.{is_within_range}
use detour_rs.Arch.Patch.{Patcher, toggle}
use detour_rs.Pic.{
  Thunk, CodeEmitter, vec, unsafe_thunk, generate, total_len, len, add_thunk, new, emit, emit_loop,
}
use detour_rs.Pic
use detour_rs.X86.Defs.{amd64}
use detour_rs.X86.Machine.{steps}
use detour_rs.X86.Thunk.{jmp_rel32, jmp_rel8, jmp}
use detour_rs.Base.Words.{from_le_bytes, le_bytes}
use detour_rs.X86.Disasm.{
  Instruction, is_unconditional_jump, other_kind, memory, rip, other_register, other_mnemonic,
}
use detour_rs.X86.Patcher.{
  is_padding, patch_area, is_patchable, hook_template, pad_nops, hot_patch_area, is_code_padding,
}
use detour_rs.X86.Patcher
use detour_rs.X86.Patcher.Area.{patch_area_spares}
use detour_rs.X86.Patcher.Hook.{toggle-lands}
use detour_rs.X86.Patcher.Template.{total_len-hook_template}
use detour_rs.X86.Trampoline.{
  Trampoline, Decoder, Builder, handle_rip_relative_instruction, adjust_displacement,
}
use detour_rs.X86.Trampoline
use detour_rs.X86.Trampoline.Relocate.{operand, Refers, rip_relative-Refers}

abbrev pub everywhere : ℕ → Result Bool
everywhere address = ok true

-- A function of two bytes, `jmp` to itself, with padding above it and other code behind it.
abbrev short_function : Memory
short_function p = if ltb p 0x1000 then 0x90 else if ltb p 0x1002 then 0xEB else 0xC3

abbrev hot_patcher : Patcher
hot_patcher = record {
  area = record { as_ptr = 0xFFB; len = 7 };
  original_prolog = 0x90 ∷ 0x90 ∷ 0x90 ∷ 0x90 ∷ 0x90 ∷ 0xEB ∷ 0xEB ∷ [];
  detour_prolog = 0xE9 ∷ 0x00 ∷ 0x10 ∷ 0x00 ∷ 0x00 ∷ 0xEB ∷ 0xF9 ∷ [];
}

hot_patcher_made : Patcher.make short_function amd64 everywhere 0x1000 0x2000 2 ≡ ok hot_patcher
unfolding Patcher.make patch_area hook_template is_code_padding read emit emit_loop pad_nops
    add_thunk new jmp_rel32 jmp_rel8 total_len len generate is_within_range le_bytes
hot_patcher_made = refl

toggle-lands_example :
    (hooked : Memory) × (toggle short_function hot_patcher true ≡ ok hooked)
    × ((flags : ℕ → Bool) → (n : ℕ) × (steps amd64 flags hooked n 0x1000 ≡ some 0x2000))
toggle-lands_example =
    toggle-lands short_function amd64 everywhere 0x1000 0x2000 2 hot_patcher hot_patcher_made
      short_function (omega arith) (omega arith) (omega arith)

-- A function that starts with an instruction of five bytes.
abbrev five_bytes : Instruction
five_bytes = record {
  ip = 0x1000;
  len = 5;
  next_ip = 0x1005;
  is_invalid = false;
  op0_kind = other_kind;
  op_kinds = [];
  memory_base = other_register;
  memory_displacement64 = 0;
  near_branch_target = 0;
  mnemonic = other_mnemonic;
}

abbrev pub decoder : Decoder
decoder bitness bytes ip = five_bytes ∷ []

abbrev pub zeros : Memory
zeros p = 0

abbrev trampoline : Trampoline
trampoline = record {
  emitter = record { thunks = vec (0 ∷ 0 ∷ 0 ∷ 0 ∷ 0 ∷ []) ∷ jmp amd64 0x1005 ∷ [] };
  prolog_size = 5;
}

-- mov rax, [rip + 0x1FF9], whose operand lies at 0x3000.
abbrev load : Instruction
load = record five_bytes {
  len = 7;
  next_ip = 0x1007;
  op_kinds = memory ∷ [];
  memory_base = rip;
  memory_displacement64 = 0x3000;
}

abbrev load_bytes : List ℕ
load_bytes = 0x48 ∷ 0x8B ∷ 0x05 ∷ 0xF9 ∷ 0x1F ∷ 0x00 ∷ 0x00 ∷ []

abbrev at_load : Builder
at_load = record {
  branch_address = none;
  total_bytes_disassembled = 7;
  margin = 5;
  finished = false;
  target = 0x1000;
}

abbrev moved_load : List ℕ
moved_load = 0x48 ∷ 0x8B ∷ 0x05 ∷ 0xF9 ∷ 0x0F ∷ 0x00 ∷ 0x00 ∷ []

abbrev load_thunk : Thunk
load_thunk = unsafe_thunk (adjust_displacement amd64 0x1000 0x1FF9 load_bytes) 7

load_handled :
    handle_rip_relative_instruction amd64 at_load load load_bytes 0x3000 ≡ ok (at_load, load_thunk)
unfolding handle_rip_relative_instruction is_unconditional_jump
load_handled = refl

load_generated : generate load_thunk 0x2000 ≡ ok moved_load
unfolding generate adjust_displacement is_within_range le_bytes
load_generated = refl

load_refers : operand 3 0x1000 load_bytes ≡ 0x3000
unfolding from_le_bytes
load_refers = refl

rip_relative-Refers_example : Refers at_load load 3 load_bytes 0x3000 0x2000 moved_load
rip_relative-Refers_example =
    rip_relative-Refers at_load at_load load 3 load_bytes moved_load 0x3000 0x2000 load_thunk refl
      load_refers refl (omega arith) (omega arith) (omega arith) refl (omega arith) (omega arith)
      load_handled load_generated

patch_area_found :
    patch_area short_function amd64 everywhere 0x1000 2 ≡ ok (record { as_ptr = 0xFFB; len = 7 })
unfolding patch_area is_code_padding read
patch_area_found = refl

patch_area_spares_example :
    ((0x1000 ≤ 0xFFD) × (0xFFD < 0x1000 + 2)) ⊎ (is_padding (short_function 0xFFD) ≡ true)
patch_area_spares_example =
    patch_area_spares short_function amd64 everywhere 0x1000 2 (record { as_ptr = 0xFFB; len = 7 })
      (omega arith) (omega arith) patch_area_found 0xFFD (omega arith) (omega arith)

total_len-hook_template_example : total_len (hook_template amd64 0x2000 7) ≡ 7
total_len-hook_template_example = total_len-hook_template amd64 0x2000 7 (inr (omega arith))

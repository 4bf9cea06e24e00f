-- ===== src/X86/Trampoline.antt =====
-- src/arch/x86/trampoline/mod.rs: the trampoline, a copy of the first instructions of a function
-- that runs elsewhere and goes on behind them.
pub mod Relocate
pub mod Rounds
pub mod Build
use detour_rs.Base.{
  ℕ, ◌+◌, ◌-◌, ◌%◌, Bool, true, false, not, ◌&&◌, ◌||◌, Option, none, some, List, [], ◌∷◌, ◌++◌,
  length, take, drop, ltb, leb, ◌==◌, if◌then◌else◌, bit_and,
}
use detour_rs.Base.Words.{
  wrapping_sub, wrapping_add, u32_mod, le_bytes, signed, neg, pos, in_range_ℤ, in_range,
}
use detour_rs.Base.Memory.{Memory, read}
use detour_rs.Error.{Result, ok, err, panic, unsupported_instruction, assert, expect, ◌>>=◌, ◌>>◌}
use detour_rs.Arch.{is_within_range}
use detour_rs.Pic.{Thunk, vec, unsafe_thunk, CodeEmitter, new, add_thunk}
use detour_rs.Pic
use detour_rs.X86.Defs.{X86Arch, target_arch, word_mod, i686, amd64}
use detour_rs.X86.Thunk
use detour_rs.X86.Disasm.{
  Instruction, relative_branch_target, rip_operand_target, is_loop, is_unconditional_jump, is_call,
  is_return,
}

pub record Trampoline : Type 0 where
  pub emitter : CodeEmitter
  pub prolog_size : ℕ

pub record Builder : Type 0 where
  pub branch_address : Option ℕ
  pub total_bytes_disassembled : ℕ
  pub margin : ℕ
  pub finished : Bool
  pub target : ℕ

-- Builder::new
unfoldable pub builder : (target margin : ℕ) → Builder
builder target margin = record {
  branch_address = none;
  total_bytes_disassembled = 0;
  margin = margin;
  finished = false;
  target = target;
}

abbrev in_branch : Option ℕ → ℕ → Bool
in_branch none ip = false
in_branch (some offset) ip = ltb ip offset

unfoldable pub is_instruction_in_branch : Builder → Instruction → Bool
is_instruction_in_branch b i = in_branch b.branch_address i.ip

-- &slice[from..from + size]
unfoldable pub slice_index : List ℕ → ℕ → ℕ → Result (List ℕ)
slice_index slice from size = do
  assert (leb (from + size) (length slice))
  ok (take size (drop from slice))

-- The closure of `handle_rip_relative_instruction`; taking the four bytes of the displacement off a
-- shorter instruction is a panic.
unfoldable pub adjust_displacement : X86Arch → (ip displacement : ℕ) → List ℕ → ℕ → Result (List ℕ)
adjust_displacement a ip displacement bytes offset = do
  let adjusted = wrapping_add (word_mod a) (wrapping_sub (word_mod a) ip offset) displacement
  assert (is_within_range (target_arch a) adjusted)
  assert (leb 4 (length bytes))
  ok (take (length bytes - 4) bytes ++ le_bytes 4 (adjusted % u32_mod))

unfoldable pub handle_rip_relative_instruction :
    X86Arch → Builder → Instruction → List ℕ → ℕ → Result (Builder × Thunk)
unfolding adjust_displacement
handle_rip_relative_instruction a b i bytes target =
    let displacement = wrapping_sub (word_mod a) (wrapping_sub (word_mod a) target i.ip) i.len in
    let b' = record b { finished = is_unconditional_jump i } in
    if in_range_ℤ (neg b.total_bytes_disassembled) (pos 0) (signed (word_mod a) displacement)
    then ok (b', vec bytes)
    else ok (b', unsafe_thunk (adjust_displacement a i.ip displacement bytes) i.len)

-- instruction_bytes.iter().find(|op| **op != 0x0F)
unfoldable pub primary_opcode : List ℕ → Option ℕ
primary_opcode [] = none
primary_opcode (op ∷ ops) = if op == 0x0F then primary_opcode ops else some op

unfoldable pub handle_relative_branch :
    X86Arch → Builder → Instruction → List ℕ → ℕ → Result (Builder × Thunk)
handle_relative_branch a b i bytes destination =
    if is_call i
    then ok (b, Thunk.call a destination)
    else if in_range b.target ((b.target + b.margin) % word_mod a) destination
    then ok (record b { branch_address = some destination }, vec bytes)
    else if is_loop i
    then err unsupported_instruction
    else if is_unconditional_jump i
    then ok (record b { finished = not (is_instruction_in_branch b i) }, Thunk.jmp a destination)
    else (do
      opcode ← expect (primary_opcode bytes)
      ok (b, Thunk.jcc a destination (bit_and opcode 0x0F)))

unfoldable pub process_instruction :
    X86Arch → Builder → Instruction → List ℕ → Result (Builder × Thunk)
process_instruction a b i bytes = elim (rip_operand_target i) [
  | some target ↦ handle_rip_relative_instruction a b i bytes (target % word_mod a)
  | none ↦ elim (relative_branch_target i) [
    | some target ↦ handle_relative_branch a b i bytes (target % word_mod a)
    | none ↦ ok (
      (if is_return i then record b { finished = not (is_instruction_in_branch b i) } else b),
      vec bytes,
    )
  ]
]

-- What follows in the loop body once an instruction has its thunk: the check for a displaced
-- branch, the thunk, and the jump behind the prolog when the margin is reached.
unfoldable pub place_thunk :
    X86Arch → Builder → CodeEmitter → Instruction → Thunk → Result (Builder × CodeEmitter)
place_thunk a b emitter i thunk =
    if is_instruction_in_branch b i && not (i.len == Pic.len thunk)
    then err unsupported_instruction
    else (let placed = add_thunk emitter thunk in
        if leb b.margin b.total_bytes_disassembled && not b.finished
        then ok
            (record b { finished = true }, add_thunk placed (Thunk.jmp a (i.next_ip % word_mod a)))
        else ok (b, placed))

-- One round of the loop, for an instruction that is not invalid.
unfoldable pub round :
    X86Arch → List ℕ → Instruction → Builder → CodeEmitter → Result (Builder × CodeEmitter)
round a slice i b emitter = do
  let b' = record b { total_bytes_disassembled = b.total_bytes_disassembled + i.len }
  bytes ← slice_index slice (wrapping_sub (word_mod a) (i.ip % word_mod a) b.target) i.len
  (b'', thunk) ← process_instruction a b' i bytes
  place_thunk a b'' emitter i thunk

-- for instruction in decoder
unfoldable pub build_loop :
    X86Arch → List ℕ → List Instruction → Builder → CodeEmitter → Result (Builder × CodeEmitter)
build_loop a slice [] b emitter = ok (b, emitter)
build_loop a slice (i ∷ is) b emitter = if i.is_invalid then ok (b, emitter) else (do
  (b', emitter') ← round a slice i b emitter
  let rest = build_loop a slice is b' emitter'
  if b'.finished then ok (b', emitter') else rest)

-- The disassembler: what `Decoder::with_ip` yields for a bitness, the bytes and their address.
abbrev pub Decoder : Type 0
Decoder = ℕ → List ℕ → ℕ → List Instruction

abbrev pub bitness : X86Arch → ℕ
bitness i686 = 32
bitness amd64 = 64

-- Trampoline::new
unfoldable pub make : X86Arch → Decoder → Memory → (target margin : ℕ) → Result Trampoline
unfolding build_loop builder
make a decoder memory target margin = do
  let slice = read memory target (margin + 15)
  (b, emitter) ← build_loop a slice (decoder (bitness a) slice target) (builder target margin) new
  ok (record { emitter = emitter; prolog_size = b.total_bytes_disassembled })

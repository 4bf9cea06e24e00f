-- ===== src/Riscv/Trampoline.antt =====
-- src/arch/riscv/trampoline/mod.rs: what a prolog's instructions are replaced by. The loop over the
-- instructions and its state are in Arch/Fixed.antt.
pub mod Decode
pub mod Emitted
pub mod Runs
pub mod Far
pub mod Fields
pub mod Simulates
use detour_rs.Base.{
  ℕ, ◌+◌, ◌*◌, ◌/◌, ◌^◌, ◌%◌, Bool, true, false, not, Option, ◌==◌, if◌then◌else◌, bit_and, bit_or,
}
use detour_rs.Base.Memory.{Memory}
use detour_rs.Base.Words.{le_bytes, wrapping_add, u32_mod, shift_right_signed, widen_signed}
use detour_rs.Error.{Result, ok, err, unsupported_instruction}
use detour_rs.Arch.Fixed.{
  Builder, Processed, Isa, Trampoline, builder, track_branch, in_prolog, verbatim, finish, build,
}
use detour_rs.Pic.{Thunk, vec, len}
use detour_rs.Riscv.Defs.{RvArch, target_arch, word_mod}
use detour_rs.Riscv.Thunk.{jmp_abs, call_abs_rd, li_abs, branch_far}

-- The signed offsets, by their patterns of 32 bits.
unfoldable pub decode_j_type : ℕ → ℕ
decode_j_type instr =
    let imm20 = bit_and (instr / 2 ^ 31) 1 in
    let imm10_1 = bit_and (instr / 2 ^ 21) 0x3FF in
    let imm11 = bit_and (instr / 2 ^ 20) 1 in
    let imm19_12 = bit_and (instr / 2 ^ 12) 0xFF in
    let raw =
      bit_or (bit_or (bit_or (imm20 * 2 ^ 20) (imm19_12 * 2 ^ 12)) (imm11 * 2 ^ 11))
        (imm10_1 * 2 ^ 1) in
    shift_right_signed u32_mod (raw * 2 ^ 11 % u32_mod) 11

unfoldable pub decode_b_type : ℕ → ℕ
decode_b_type instr =
    let imm12 = bit_and (instr / 2 ^ 31) 1 in
    let imm10_5 = bit_and (instr / 2 ^ 25) 0x3F in
    let imm4_1 = bit_and (instr / 2 ^ 8) 0xF in
    let imm11 = bit_and (instr / 2 ^ 7) 1 in
    let raw =
      bit_or (bit_or (bit_or (imm12 * 2 ^ 12) (imm11 * 2 ^ 11)) (imm10_5 * 2 ^ 5))
        (imm4_1 * 2 ^ 1) in
    shift_right_signed u32_mod (raw * 2 ^ 19 % u32_mod) 19

abbrev pub expanded : Builder → Thunk → Result Processed
expanded b thunk = ok (record { state = b; thunk = thunk; size = len thunk })

-- pc.wrapping_add(imm as usize), for an offset of 32 bits.
abbrev pub displaced : RvArch → (pc imm : ℕ) → ℕ
displaced a pc imm = wrapping_add (word_mod a) pc (widen_signed u32_mod (word_mod a) imm)

abbrev pub register : ℕ → ℕ
register instr = bit_and (instr / 2 ^ 7) 0x1F

unfoldable pub process_jal : RvArch → Builder → (instr pc : ℕ) → Result Processed
process_jal a b instr pc =
    let dest = displaced a pc (decode_j_type instr) in
    let rd = register instr in
    if rd == 0
    then (let b' = finish b pc in
        if in_prolog (target_arch a) b dest
        then verbatim (track_branch b' dest) instr
        else expanded b' (jmp_abs a dest))
    else if in_prolog (target_arch a) b dest
    then verbatim (track_branch b dest) instr
    else expanded b (call_abs_rd a rd dest)

unfoldable pub process_branch : RvArch → Builder → (instr pc : ℕ) → Result Processed
process_branch a b instr pc =
    let dest = displaced a pc (decode_b_type instr) in
    if in_prolog (target_arch a) b dest
    then verbatim (track_branch b dest) instr
    else expanded b (branch_far a instr dest)

unfoldable pub process : RvArch → Builder → (instr pc : ℕ) → Result Processed
unfolding process_jal process_branch
process a b instr pc =
    let opcode = bit_and instr 0x7F in
    if not (bit_and instr 0x3 == 0x3)
    then err unsupported_instruction
    else if opcode == 0x6F
    then process_jal a b instr pc
    else if opcode == 0x67
    then verbatim (if register instr == 0 then finish b pc else b) instr
    else if opcode == 0x17
    then expanded b (li_abs a (register instr) (displaced a pc (bit_and instr 0xFFFF_F000)))
    else if opcode == 0x63
    then process_branch a b instr pc
    else verbatim b instr

abbrev pub isa : RvArch → Isa
isa a = record {
  arch = target_arch a;
  process = process a;
  jmp_abs = jmp_abs a;
  checks_size = true;
}

-- Trampoline::new; `none` is no Rust value.
unfoldable pub make : RvArch → Memory → (target margin : ℕ) → Option (Result Trampoline)
unfolding process
make a memory target margin = build (isa a) memory (builder target margin)

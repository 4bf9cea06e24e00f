-- ===== src/Arm/Trampoline.antt =====
-- src/arch/arm/trampoline/mod.rs: what a prolog's instructions are replaced by. The loop over the
-- instructions and its state are in Arch/Fixed.antt.
pub mod Keeping
pub mod Strays
use detour_rs.Base.{
  ℕ, ◌+◌, ◌-◌, ◌*◌, ◌/◌, ◌^◌, ◌%◌, Bool, true, false, not, ◌&&◌, Option, some, ◌==◌, if◌then◌else◌,
  bit_and,
}
use detour_rs.Base.Memory.{Memory}
use detour_rs.Base.Words.{le_bytes, wrapping_add, shift_right_signed}
use detour_rs.Error.{Result, ok, err, unsupported_instruction}
use detour_rs.Arch.{arm, usize_mod}
use detour_rs.Arch.Fixed.{
  Builder, Processed, Isa, Trampoline, builder, track_branch, in_prolog, verbatim, finish, build,
}
use detour_rs.Pic.{len}
use detour_rs.Arm.Thunk.{jmp_abs}

-- A value of `bits` bits, as one of 32.
unfoldable pub sign_extend_arm : (value bits : ℕ) → ℕ
sign_extend_arm value bits =
    let shift = 32 - bits in
    shift_right_signed (usize_mod arm) (value * 2 ^ shift % usize_mod arm) shift

-- (pc + 8).wrapping_add(imm24 << 2)
unfoldable pub branch_dest : (instr pc : ℕ) → ℕ
unfolding sign_extend_arm
branch_dest instr pc =
    let imm24 = sign_extend_arm (bit_and instr 0x00FF_FFFF) 24 in
    wrapping_add (usize_mod arm) ((pc + 8) % usize_mod arm) (imm24 * 2 ^ 2 % usize_mod arm)

-- B and BL
unfoldable pub process_branch : Builder → (instr pc : ℕ) → Result Processed
unfolding branch_dest
process_branch b instr pc =
    let dest = branch_dest instr pc in
    let is_bl = not (bit_and instr 0x0100_0000 == 0) in
    if in_prolog arm b dest
    then verbatim (track_branch b dest) instr
    else if is_bl
    then err unsupported_instruction
    else ok (record { state = b; thunk = jmp_abs dest; size = len (jmp_abs dest) })

-- BX, MOV PC, and a load of several registers that has PC among them.
unfoldable pub is_return : ℕ → Bool
is_return instr =
    if bit_and instr 0x0FFF_FFF0 == 0x012F_FF10
    then true
    else if bit_and instr 0x0FEF_F000 == 0x01A0_F000
    then true
    else bit_and instr 0x0E10_8000 == 0x0810_8000

-- A load of a literal into another register than PC, or an instruction whose first operand is PC.
unfoldable pub reads_pc : ℕ → Bool
reads_pc instr =
    if bit_and instr 0x0F7F_0000 == 0x051F_0000 && not (bit_and (instr / 2 ^ 12) 0xF == 15)
    then true
    else bit_and instr 0x0C00_0000 == 0 && bit_and (instr / 2 ^ 16) 0xF == 15

-- An instruction without a condition (0xF) is copied. The size is that of the thunk, and not looked at.
unfoldable pub process : Builder → (instr pc : ℕ) → Result Processed
unfolding process_branch is_return reads_pc
process b instr pc =
    let cond = instr / 2 ^ 28 in
    if cond == 0xF
    then verbatim b instr
    else if bit_and instr 0x0E00_0000 == 0x0A00_0000
    then process_branch b instr pc
    else if is_return instr
    then verbatim (finish b pc) instr
    else if reads_pc instr
    then err unsupported_instruction
    else verbatim b instr

abbrev pub isa : Isa
isa = record { arch = arm; process = process; jmp_abs = jmp_abs; checks_size = false }

-- Trampoline::new; `none` is no Rust value.
unfoldable pub make : Memory → (target margin : ℕ) → Option (Result Trampoline)
unfolding process
make memory target margin =
    if not (bit_and target 1 == 0)
    then some (err unsupported_instruction)
    else build isa memory (builder target margin)

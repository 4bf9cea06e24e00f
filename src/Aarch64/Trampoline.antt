-- ===== src/Aarch64/Trampoline.antt =====
-- src/arch/aarch64/trampoline/mod.rs: what a prolog's instructions are replaced by. The loop over the
-- instructions and its state are in Arch/Fixed.antt.
pub mod Keeping
pub mod Emitted
pub mod Decode
pub mod Fields
pub mod Relocated
pub mod Simulates
use detour_rs.Base.{
  ℕ, ◌+◌, ◌-◌, ◌*◌, ◌/◌, ◌^◌, ◌%◌, Bool, true, false, not, Option, ◌==◌, if◌then◌else◌, bit_and,
  bit_or,
}
use detour_rs.Base.Memory.{Memory}
use detour_rs.Base.Words.{le_bytes, wrapping_add, shift_right_signed}
use detour_rs.Error.{Result, ok, err, unsupported_instruction}
use detour_rs.Arch.{aarch64, usize_mod}
use detour_rs.Arch.Fixed.{
  Builder, Processed, Isa, Trampoline, builder, track_branch, in_prolog, verbatim, finish, build,
}
use detour_rs.Pic.{Thunk, vec, len}
use detour_rs.Aarch64.Thunk.{
  jmp_abs, call_abs, mov_imm64, nop, cbz_far, tbz_far, ldr_literal_32, ldr_literal_64,
  ldrsw_literal,
}

-- A value of `bits` bits, as one of 64.
unfoldable pub sign_extend : (value bits : ℕ) → ℕ
sign_extend value bits =
    let shift = 64 - bits in
    shift_right_signed (usize_mod aarch64) (value * 2 ^ shift % usize_mod aarch64) shift

-- pc.wrapping_add(imm << 2)
abbrev pub word_offset : (pc imm : ℕ) → ℕ
word_offset pc imm = wrapping_add (usize_mod aarch64) pc (imm * 2 ^ 2 % usize_mod aarch64)

abbrev pub resized : Builder → Thunk → ℕ → Result Processed
resized b thunk size = ok (record { state = b; thunk = thunk; size = size })

-- A conditional branch to a destination inside of the prolog is copied, any other is replaced.
abbrev pub conditional : Builder → (instr dest : ℕ) → Thunk → Result Processed
conditional b instr dest far =
    if in_prolog aarch64 b dest then verbatim (track_branch b dest) instr else resized b far 20

unfoldable pub process_b : Builder → (instr pc : ℕ) → Result Processed
unfolding sign_extend
process_b b instr pc =
    let dest = word_offset pc (sign_extend (bit_and instr 0x03FF_FFFF) 26) in
    let b' = finish b pc in
    if in_prolog aarch64 b dest
    then verbatim (track_branch b' dest) instr
    else resized b' (jmp_abs dest) 16

unfoldable pub process_cbz : Builder → (instr pc : ℕ) → Result Processed
unfolding sign_extend
process_cbz b instr pc =
    let dest = word_offset pc (sign_extend (bit_and (instr / 2 ^ 5) 0x7_FFFF) 19) in
    let sf_64 = not (instr / 2 ^ 31 == 0) in
    let negate = not (bit_and instr 0x0100_0000 == 0) in
    conditional b instr dest (cbz_far (bit_and (instr % 256) 0x1F) sf_64 negate dest)

unfoldable pub process_tbz : Builder → (instr pc : ℕ) → Result Processed
unfolding sign_extend
process_tbz b instr pc =
    let dest = word_offset pc (sign_extend (bit_and (instr / 2 ^ 5) 0x3FFF) 14) in
    let bit = bit_or (bit_and (instr / 2 ^ 31) 1 * 2 ^ 5) (bit_and (instr / 2 ^ 19) 0x1F) % 256 in
    let negate = not (bit_and instr 0x0100_0000 == 0) in
    conditional b instr dest (tbz_far (bit_and (instr % 256) 0x1F) bit negate dest)

-- The immediate of ADR and ADRP.
unfoldable pub adr_imm21 : ℕ → ℕ
unfolding sign_extend
adr_imm21 instr =
    let immlo = bit_and (instr / 2 ^ 29) 0x3 in
    let immhi = bit_and (instr / 2 ^ 5) 0x7_FFFF in sign_extend (bit_or (immhi * 2 ^ 2) immlo) 21

unfoldable pub process_adr : Builder → (instr pc : ℕ) → Result Processed
unfolding adr_imm21
process_adr b instr pc =
    let dest = wrapping_add (usize_mod aarch64) pc (adr_imm21 instr) in
    resized b (mov_imm64 (bit_and instr 0x1F) dest) 16

unfoldable pub process_adrp : Builder → (instr pc : ℕ) → Result Processed
unfolding adr_imm21
process_adrp b instr pc =
    let page = bit_and pc 0xFFFF_FFFF_FFFF_F000 in
    let dest =
      wrapping_add (usize_mod aarch64) page (adr_imm21 instr * 2 ^ 12 % usize_mod aarch64) in
    resized b (mov_imm64 (bit_and instr 0x1F) dest) 16

-- The load that a literal load is replaced by; PRFM by none.
abbrev pub literal_load : (opc2 rt src_addr : ℕ) → Thunk
literal_load opc2 rt src_addr =
    if opc2 == 0
    then ldr_literal_32 rt src_addr
    else if opc2 == 1
    then ldr_literal_64 rt src_addr
    else if opc2 == 2
    then ldrsw_literal rt src_addr
    else nop

unfoldable pub process_ldr : Builder → (instr pc : ℕ) → Result Processed
unfolding sign_extend
process_ldr b instr pc =
    let src_addr = word_offset pc (sign_extend (bit_and (instr / 2 ^ 5) 0x7_FFFF) 19) in
    let thunk = literal_load (bit_and (instr / 2 ^ 30) 0x3) (bit_and instr 0x1F) src_addr in
    if not (bit_and instr 0x0400_0000 == 0)
    then err unsupported_instruction
    else resized b thunk (len thunk)

unfoldable pub process : Builder → (instr pc : ℕ) → Result Processed
unfolding sign_extend process_b process_cbz process_tbz process_adr process_adrp process_ldr
process b instr pc =
    if bit_and instr 0xFC00_0000 == 0x1400_0000
    then process_b b instr pc
    else if bit_and instr 0xFC00_0000 == 0x9400_0000
    then resized b (call_abs (word_offset pc (sign_extend (bit_and instr 0x03FF_FFFF) 26))) 16
    else if bit_and instr 0x7E00_0000 == 0x3400_0000
    then process_cbz b instr pc
    else if bit_and instr 0x7E00_0000 == 0x3600_0000
    then process_tbz b instr pc
    else if bit_and instr 0x9F00_0000 == 0x1000_0000
    then process_adr b instr pc
    else if bit_and instr 0x9F00_0000 == 0x9000_0000
    then process_adrp b instr pc
    else if bit_and instr 0x3B00_0000 == 0x1800_0000
    then process_ldr b instr pc
    else if bit_and instr 0xFFFF_FC1F == 0xD65F_0000
    then verbatim (finish b pc) instr
    else verbatim b instr

abbrev pub isa : Isa
isa = record { arch = aarch64; process = process; jmp_abs = jmp_abs; checks_size = true }

-- Trampoline::new; `none` is no Rust value.
unfoldable pub make : Memory → (target margin : ℕ) → Option (Result Trampoline)
unfolding process
make memory target margin = build isa memory (builder target margin)

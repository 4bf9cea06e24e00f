-- ===== src/X86/Patcher.antt =====
-- src/arch/x86/patcher.rs: where a function is patched, and with what. The switch between its own
-- bytes and the hook is in Arch/Patch.antt.
pub mod Area
pub mod Template
pub mod Hook
use detour_rs.Base.{
  ℕ, ◌+◌, ◌-◌, Bool, true, false, not, ◌&&◌, ◌||◌, List, [], ◌∷◌, length, ltb, leb, ◌==◌,
  if◌then◌else◌, zero, suc,
}
use detour_rs.Base.Words.{wrapping_sub, u8_mod}
use detour_rs.Base.Memory.{Memory, read, write}
use detour_rs.Arch.Patch.{Slice, Patcher}
use detour_rs.Error.{Result, ok, err, panic, no_patch_area, assert, ◌>>=◌, ◌>>◌}
use detour_rs.Pic.{CodeEmitter, new, add_thunk, total_len, emit}
use detour_rs.X86.Defs.{X86Arch, target_arch, word_mod}
use detour_rs.X86.Thunk.{jump_rel_size, jump_short_size, jmp_rel32, jmp_rel8, nop}

-- [0x00, 0x90, 0xCC].contains(code)
abbrev pub is_padding : ℕ → Bool
is_padding code = code == 0x00 || code == 0x90 || code == 0xCC

unfoldable pub is_code_padding : List ℕ → Bool
is_code_padding [] = true
is_code_padding (code ∷ buffer) = is_padding code && is_code_padding buffer

-- Everything below reads the memory as it is when the patcher is made.
module _ (memory : Memory) where
  unfoldable pub is_patchable : ℕ → ℕ → ℕ → Bool
  is_patchable target prolog_size patch_size =
      if leb patch_size prolog_size
      then true
      else is_code_padding (read memory (target + prolog_size) (patch_size - prolog_size))

  -- `util::is_executable_address` asks the operating system.
  module _ (a : X86Arch) (is_executable_address : ℕ → Result Bool) where
    -- The bytes above the function that a short jump relies on.
    unfoldable pub hot_patch_area : ℕ → Result Slice
    hot_patch_area target =
        let hot_patch = wrapping_sub (word_mod a) target jump_rel_size in
        if not (is_code_padding (read memory hot_patch jump_rel_size))
        then err no_patch_area
        else (do
          executable ← is_executable_address hot_patch
          if not executable
              then err no_patch_area
              else ok (record { as_ptr = hot_patch; len = jump_rel_size + jump_short_size }))

    unfoldable pub patch_area : ℕ → ℕ → Result Slice
    unfolding is_patchable hot_patch_area
    patch_area target prolog_size =
        if not (is_patchable target prolog_size jump_rel_size)
        then (if is_patchable target prolog_size jump_short_size
            then hot_patch_area target
            else err no_patch_area)
        else ok (record { as_ptr = target; len = jump_rel_size })

-- while emitter.len() < patch_area.len() { emitter.add_thunk(nop()) }: each round adds a byte, so
-- as many rounds as the area has bytes are enough.
unfoldable pub pad_nops : ℕ → CodeEmitter → ℕ → CodeEmitter
pad_nops zero emitter size = emitter
pad_nops (suc fuel) emitter size =
    let padded = pad_nops fuel (add_thunk emitter nop) size in
    if ltb (total_len emitter) size then padded else emitter

-- -(jump_rel32_size as i8)
abbrev hot_patch_displacement : ℕ
hot_patch_displacement = wrapping_sub u8_mod 0 jump_rel_size

unfoldable pub hook_template : X86Arch → ℕ → ℕ → CodeEmitter
unfolding pad_nops
hook_template a detour area_len =
    let emitter = add_thunk new (jmp_rel32 a detour) in
    let uses_hot_patch = ltb jump_rel_size area_len in
    let emitter' =
      if uses_hot_patch then add_thunk emitter (jmp_rel8 hot_patch_displacement) else emitter in
    pad_nops area_len emitter' area_len

unfoldable pub make :
    Memory → X86Arch → (ℕ → Result Bool) → (target detour prolog_size : ℕ) → Result Patcher
unfolding patch_area hook_template
make memory a is_executable_address target detour prolog_size = do
  area ← patch_area memory a is_executable_address target prolog_size
  detour_prolog ← emit (target_arch a) (hook_template a detour area.len) area.as_ptr
  ok (record {
    area = area;
    original_prolog = read memory area.as_ptr area.len;
    detour_prolog = detour_prolog;
  })

-- ===== src/Aarch64/Trampoline/Emitted.antt =====
-- What `process` of src/arch/aarch64/trampoline/mod.rs gives, case by case.
use detour_rs.Base.{
  ℕ, ◌/◌, ◌^◌, ◌%◌, ◌≡◌, refl, subst, Bool, true, false, not, ◌==◌, if◌then◌else◌, bit_and, bit_or,
}
use detour_rs.Base.{◌*◌}
use detour_rs.Base.Words.{wrapping_add}
use detour_rs.Arch.{aarch64, usize_mod}
use detour_rs.Error.{Result, ok, err, Error, ok-injective}
use detour_rs.Arch.Fixed.{Builder, Processed}
use detour_rs.Pic.{Thunk}
use detour_rs.Aarch64.Thunk.{jmp_abs, call_abs, mov_imm64, cbz_far, tbz_far}
use detour_rs.Aarch64.Trampoline.{
  process, process_b, process_cbz, process_tbz, process_adr, process_adrp, sign_extend, word_offset,
  adr_imm21,
}

-- The tests of `process` on a word.
abbrev pub IsB : ℕ → Type 0
IsB instr = (bit_and instr 0xFC00_0000 == 0x1400_0000) ≡ true

abbrev pub IsBl : ℕ → Type 0
IsBl instr = (bit_and instr 0xFC00_0000 == 0x9400_0000) ≡ true

abbrev pub IsCbz : ℕ → Type 0
IsCbz instr = (bit_and instr 0x7E00_0000 == 0x3400_0000) ≡ true

abbrev pub IsTbz : ℕ → Type 0
IsTbz instr = (bit_and instr 0x7E00_0000 == 0x3600_0000) ≡ true

abbrev pub IsAdr : ℕ → Type 0
IsAdr instr = (bit_and instr 0x9F00_0000 == 0x1000_0000) ≡ true

abbrev pub IsAdrp : ℕ → Type 0
IsAdrp instr = (bit_and instr 0x9F00_0000 == 0x9000_0000) ≡ true

abbrev pub IsLoad : ℕ → Type 0
IsLoad instr = (bit_and instr 0x3B00_0000 == 0x1800_0000) ≡ true

-- The destinations.
abbrev pub dest_26 : (instr pc : ℕ) → ℕ
dest_26 instr pc = word_offset pc (sign_extend (bit_and instr 0x03FF_FFFF) 26)

abbrev pub dest_19 : (instr pc : ℕ) → ℕ
dest_19 instr pc = word_offset pc (sign_extend (bit_and (instr / 2 ^ 5) 0x7_FFFF) 19)

abbrev pub dest_14 : (instr pc : ℕ) → ℕ
dest_14 instr pc = word_offset pc (sign_extend (bit_and (instr / 2 ^ 5) 0x3FFF) 14)

abbrev pub cbz_thunk : (instr pc : ℕ) → Thunk
cbz_thunk instr pc =
    cbz_far (bit_and (instr % 256) 0x1F) (not (instr / 2 ^ 31 == 0))
      (not (bit_and instr 0x0100_0000 == 0)) (dest_19 instr pc)

abbrev pub tbz_thunk : (instr pc : ℕ) → Thunk
tbz_thunk instr pc =
    tbz_far (bit_and (instr % 256) 0x1F)
      (bit_or (bit_and (instr / 2 ^ 31) 1 * 2 ^ 5) (bit_and (instr / 2 ^ 19) 0x1F) % 256)
      (not (bit_and instr 0x0100_0000 == 0)) (dest_14 instr pc)

abbrev pub adr_thunk : (instr pc : ℕ) → Thunk
adr_thunk instr pc =
    mov_imm64 (bit_and instr 0x1F) (wrapping_add (usize_mod aarch64) pc (adr_imm21 instr))

abbrev pub adrp_thunk : (instr pc : ℕ) → Thunk
adrp_thunk instr pc = mov_imm64 (bit_and instr 0x1F) (
    wrapping_add (usize_mod aarch64) (bit_and pc 0xFFFF_FFFF_FFFF_F000)
      (adr_imm21 instr * 2 ^ 12 % usize_mod aarch64))

abbrev result : Builder → Thunk → ℕ → Processed
result b thunk size = record { state = b; thunk = thunk; size = size }

-- The results, without what becomes of the builder.
pub data Emitted (instr pc : ℕ) : Processed → Type 0 where
  copied : (b : Builder) (t : Thunk) → Emitted instr pc (result b t 4)
  jumps : (b : Builder) → IsB instr → Emitted instr pc (result b (jmp_abs (dest_26 instr pc)) 16)
  calls : (b : Builder) → IsBl instr → Emitted instr pc (result b (call_abs (dest_26 instr pc)) 16)
  cbzs : (b : Builder) → IsCbz instr → Emitted instr pc (result b (cbz_thunk instr pc) 20)
  tbzs : (b : Builder) → IsTbz instr → Emitted instr pc (result b (tbz_thunk instr pc) 20)
  adrs : (b : Builder) → IsAdr instr → Emitted instr pc (result b (adr_thunk instr pc) 16)
  adrps : (b : Builder) → IsAdrp instr → Emitted instr pc (result b (adrp_thunk instr pc) 16)
  loads : (p : Processed) → IsLoad instr → Emitted instr pc p

record Emits (instr pc : ℕ) (r : Result Processed) : Type 0 where
  emitted : (p : Processed) → r ≡ ok p → Emitted instr pc p

Emits-ok : {instr pc : ℕ} (p : Processed) → Emitted instr pc p → Emits instr pc (ok p)
Emits-ok p e = record { emitted = λ q h. subst (Emitted _ _) (ok-injective h) e }

Emits-err : {instr pc : ℕ} (e : Error) → Emits instr pc (err e)
Emits-err e = record { emitted = λ q h. cc }

Emits-load : {instr pc : ℕ} (r : Result Processed) → IsLoad instr → Emits instr pc r
Emits-load r load = record { emitted = λ q h. loads q load }

Emits-if :
    {instr pc : ℕ} (test : Bool) (x y : Result Processed)
    → (test ≡ true → Emits instr pc x)
    → (test ≡ false → Emits instr pc y)
    → Emits instr pc (if test then x else y)
Emits-if true x y h k = h refl
Emits-if false x y h k = k refl

ruleset emits = (Emits-ok, Emits-err, Emits-if, copied, jumps, calls, cbzs, tbzs, adrs, adrps)

process_b-Emits : (b : Builder) (instr pc : ℕ) → IsB instr → Emits instr pc (process_b b instr pc)
unfolding process_b
process_b-Emits b instr pc is = search emits

process_cbz-Emits :
    (b : Builder) (instr pc : ℕ) → IsCbz instr → Emits instr pc (process_cbz b instr pc)
unfolding process_cbz
process_cbz-Emits b instr pc is = search emits

process_tbz-Emits :
    (b : Builder) (instr pc : ℕ) → IsTbz instr → Emits instr pc (process_tbz b instr pc)
unfolding process_tbz
process_tbz-Emits b instr pc is = search emits

process_adr-Emits :
    (b : Builder) (instr pc : ℕ) → IsAdr instr → Emits instr pc (process_adr b instr pc)
unfolding process_adr
process_adr-Emits b instr pc is = search emits

process_adrp-Emits :
    (b : Builder) (instr pc : ℕ) → IsAdrp instr → Emits instr pc (process_adrp b instr pc)
unfolding process_adrp
process_adrp-Emits b instr pc is = search emits

process-Emits : (b : Builder) (instr pc : ℕ) → Emits instr pc (process b instr pc)
unfolding process
process-Emits b instr pc =
    search
      (
        emits, process_b-Emits, process_cbz-Emits, process_tbz-Emits, process_adr-Emits,
        process_adrp-Emits, Emits-load,
      )
      depth 12

-- Every instruction that is accepted gives one of these results.
pub process-Emitted :
    (b : Builder) (instr pc : ℕ) (p : Processed) → process b instr pc ≡ ok p → Emitted instr pc p
process-Emitted b instr pc p h = (process-Emits b instr pc).emitted p h

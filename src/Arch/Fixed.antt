-- ===== src/Arch/Fixed.antt =====
-- The trampoline builder of src/arch/aarch64/trampoline/mod.rs, src/arch/arm/trampoline/mod.rs and
-- src/arch/riscv/trampoline/mod.rs, whose state and loop have the same text: instructions of four
-- bytes are read from the target, and each is replaced by a thunk.
pub mod Rounds
pub mod Loop
pub mod Ends
pub mod Fair
use detour_rs.Base.{
  ℕ, zero, suc, ◌+◌, ◌%◌, Bool, true, false, not, ◌&&◌, Option, none, some, ltb, leb, ◌==◌,
  if◌then◌else◌,
}
use detour_rs.Base.Memory.{Memory, word_at}
use detour_rs.Base.Words.{in_range, le_bytes}
use detour_rs.Error.{Result, ok, err, panic, Error, unsupported_instruction, ◌>>=◌}
use detour_rs.Arch.{TargetArch, usize_mod}
use detour_rs.Pic.{Thunk, vec, CodeEmitter, new, add_thunk}

pub record Trampoline : Type 0 where
  pub emitter : CodeEmitter
  pub prolog_size : ℕ

pub record Builder : Type 0 where
  pub target : ℕ
  pub margin : ℕ
  pub total_bytes : ℕ
  pub finished : Bool
  pub branch_address : Option ℕ

-- Builder::new
unfoldable pub builder : (target margin : ℕ) → Builder
builder target margin = record {
  target = target;
  margin = margin;
  total_bytes = 0;
  finished = false;
  branch_address = none;
}

-- The furthest destination is kept.
abbrev furthest : Option ℕ → ℕ → Option ℕ
furthest none dest = some dest
furthest (some existing) dest = if ltb existing dest then some dest else some existing

unfoldable pub track_branch : Builder → ℕ → Builder
track_branch b dest = record b { branch_address = furthest b.branch_address dest }

abbrev before_branch : Option ℕ → ℕ → Bool
before_branch none pc = false
before_branch (some addr) pc = ltb pc addr

unfoldable pub is_in_branch : Builder → ℕ → Bool
is_in_branch b pc = before_branch b.branch_address pc

-- prolog_range.contains(&dest)
unfoldable pub in_prolog : TargetArch → Builder → ℕ → Bool
in_prolog a b dest = in_range b.target ((b.target + b.margin) % usize_mod a) dest

-- What `process` gives for an instruction: its thunk, and the bytes that it takes.
pub record Processed : Type 0 where
  pub state : Builder
  pub thunk : Thunk
  pub size : ℕ

-- An instruction that is copied as it is.
abbrev pub verbatim : Builder → ℕ → Result Processed
verbatim b instr = ok (record { state = b; thunk = vec (le_bytes 4 instr); size = 4 })

-- self.finished = !self.is_in_branch(pc)
abbrev pub finish : Builder → ℕ → Builder
finish b pc = record b { finished = not (is_in_branch b pc) }

-- What the architectures differ in. `checks_size`: an instruction inside a branch must not grow.
pub record Isa : Type 0 where
  pub arch : TargetArch
  pub process : Builder → (instr pc : ℕ) → Result Processed
  pub jmp_abs : ℕ → Thunk
  pub checks_size : Bool

module _ (isa : Isa) (memory : Memory) where
  open isa use {arch, process, jmp_abs, checks_size}

  abbrev pub address : Builder → ℕ
  address b = (b.target + b.total_bytes) % usize_mod arch

  -- The end of a round, once the margin is reached.
  abbrev close_prolog : Builder → CodeEmitter → Builder × CodeEmitter
  close_prolog b emitter =
      if leb b.margin b.total_bytes && not b.finished
      then (record b { finished = true }, add_thunk emitter (jmp_abs (address b)))
      else (b, emitter)

  unfoldable pub round : Builder → CodeEmitter → Result (Builder × CodeEmitter)
  round b emitter = do
    p ← process b (word_at memory (address b) 4) (address b)
    if checks_size && (is_in_branch p.state (address b) && not (p.size == 4))
        then err unsupported_instruction
        else ok (
            close_prolog (record p.state { total_bytes = p.state.total_bytes + 4 })
              (add_thunk emitter p.thunk))

  -- while !self.finished; `none` is no Rust value: the fuel is out.
  unfoldable pub build_loop : ℕ → Builder → CodeEmitter → Option (Result (Builder × CodeEmitter))
  build_loop zero b emitter = none
  build_loop (suc fuel) b emitter =
      if b.finished then some (ok (b, emitter)) else elim (round b emitter) [
        | ok (b', emitter') ↦ build_loop fuel b' emitter'
        | err e ↦ some (err e)
        | panic ↦ some panic
      ]

  abbrev trampoline_of : Result (Builder × CodeEmitter) → Result Trampoline
  trampoline_of r = do
    (b, emitter) ← r
    ok (record { emitter = emitter; prolog_size = b.total_bytes })

  -- Builder::build, with a round for every byte of the margin and one to notice the end.
  unfoldable pub build : Builder → Option (Result Trampoline)
  build b = elim (build_loop (suc (suc b.margin)) b new) [
    | none ↦ none
    | some r ↦ some (trampoline_of r)
  ]

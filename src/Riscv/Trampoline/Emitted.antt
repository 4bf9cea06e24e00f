-- ===== src/Riscv/Trampoline/Emitted.antt =====
-- What `process` of src/arch/riscv/trampoline/mod.rs gives, case by case, and that the builder's loop
-- can stand on it.
use detour_rs.Base.{
  ℕ, ◌/◌, ◌^◌, ◌≡◌, refl, sym, subst, ◌∙◌, ◌≢◌, ◌⊎◌, inl, inr, true, false, ◌==◌, if◌then◌else◌,
  bit_and, Bool-cases, arith,
}
use detour_rs.Base.Fields.{bit_and-mask}
use detour_rs.Base.Memory.{Memory}
use detour_rs.Base.Words.{le_bytes}
use detour_rs.Error.{ok, err, ok-injective, unsupported_instruction}
use detour_rs.Arch.Fixed.{Builder, Processed, track_branch, in_prolog, verbatim, finish}
use detour_rs.Arch.Fixed.Rounds.{Keeps}
use detour_rs.Pic.{Thunk, vec, len}
use detour_rs.Riscv.Defs.{RvArch, target_arch}
use detour_rs.Riscv.Thunk.{jmp_abs, call_abs_rd, li_abs, branch_far}
use detour_rs.Riscv.Machine.{bits}
use detour_rs.Riscv.Trampoline.{
  process, process_jal, process_branch, displaced, register, decode_j_type, decode_b_type, isa,
}

abbrev pub copied : Builder → ℕ → Processed
copied b instr = record { state = b; thunk = vec (le_bytes 4 instr); size = 4 }

abbrev pub replaced : Builder → Thunk → Processed
replaced b thunk = record { state = b; thunk = thunk; size = len thunk }

-- The results of `process`.
pub data Emitted (a : RvArch) (b : Builder) (instr pc : ℕ) : Processed → Type 0 where
  plain : Emitted a b instr pc (copied b instr)
  tracks : (dest : ℕ) → Emitted a b instr pc (copied (track_branch b dest) instr)
  returns :
      bits 0 7 instr ≡ 0x67 → bits 7 5 instr ≡ 0 → Emitted a b instr pc (copied (finish b pc) instr)
  jumps_inside :
      (dest : ℕ)
      → bits 0 7 instr ≡ 0x6F
      → bits 7 5 instr ≡ 0
      → Emitted a b instr pc (copied (track_branch (finish b pc) dest) instr)
  jumps :
      bits 0 7 instr ≡ 0x6F
      → bits 7 5 instr ≡ 0
      → Emitted a b instr pc
          (replaced (finish b pc) (jmp_abs a (displaced a pc (decode_j_type instr))))
  calls :
      bits 0 7 instr ≡ 0x6F
      → bits 7 5 instr ≢ 0
      → Emitted a b instr pc
          (replaced b (call_abs_rd a (register instr) (displaced a pc (decode_j_type instr))))
  addresses :
      bits 0 7 instr ≡ 0x17
      → Emitted a b instr pc
          (replaced b (li_abs a (register instr) (displaced a pc (bit_and instr 0xFFFF_F000))))
  branches :
      bits 0 7 instr ≡ 0x63
      → Emitted a b instr pc
          (replaced b (branch_far a instr (displaced a pc (decode_b_type instr))))

tested : (x y : ℕ) → (x == y) ≡ true → x ≡ y
tested x y h = ground arith

tested_not : (x y : ℕ) → (x == y) ≡ false → x ≢ y
tested_not x y h e = ground arith

opcode_is : (instr x : ℕ) → (bit_and instr 0x7F == x) ≡ true → bits 0 7 instr ≡ x
opcode_is instr x h = let e = tested (bit_and instr 0x7F) x h in omega (arith, bit_and-mask 7 instr)

pub register_is : (instr : ℕ) → register instr ≡ bits 7 5 instr
register_is instr = bit_and-mask 5 (instr / 2 ^ 7)

process_jal-Emitted :
    (a : RvArch) (b : Builder) (instr pc : ℕ) (p : Processed)
    → bits 0 7 instr ≡ 0x6F
    → process_jal a b instr pc ≡ ok p
    → Emitted a b instr pc p
unfolding process_jal
process_jal-Emitted a b instr pc p opcode h =
    let dest = displaced a pc (decode_j_type instr) in
    elim (Bool-cases (register instr == 0)) [
      | inl zero_rd ↦
          let rd : bits 7 5 instr ≡ 0 =
            sym (register_is instr) ∙ tested (register instr) 0 zero_rd in
          elim (Bool-cases (in_prolog (target_arch a) b dest)) [
            | inl inside ↦
                subst (Emitted a b instr pc) (ok-injective (rw (zero_rd, inside) at h))
                  (jumps_inside dest opcode rd)
            | inr outside ↦
                subst (Emitted a b instr pc) (ok-injective (rw (zero_rd, outside) at h))
                  (jumps opcode rd)
          ]
      | inr some_rd ↦
          let rd : bits 7 5 instr ≢ 0 =
            λ e. tested_not (register instr) 0 some_rd (register_is instr ∙ e) in
          elim (Bool-cases (in_prolog (target_arch a) b dest)) [
            | inl inside ↦
                subst (Emitted a b instr pc) (ok-injective (rw (some_rd, inside) at h))
                  (tracks dest)
            | inr outside ↦
                subst (Emitted a b instr pc) (ok-injective (rw (some_rd, outside) at h))
                  (calls opcode rd)
          ]
    ]

process_branch-Emitted :
    (a : RvArch) (b : Builder) (instr pc : ℕ) (p : Processed)
    → bits 0 7 instr ≡ 0x63
    → process_branch a b instr pc ≡ ok p
    → Emitted a b instr pc p
unfolding process_branch
process_branch-Emitted a b instr pc p opcode h =
    let dest = displaced a pc (decode_b_type instr) in
    elim (Bool-cases (in_prolog (target_arch a) b dest)) [
      | inl inside ↦ subst (Emitted a b instr pc) (ok-injective (rw inside at h)) (tracks dest)
      | inr outside ↦
          subst (Emitted a b instr pc) (ok-injective (rw outside at h)) (branches opcode)
    ]

process_jalr-Emitted :
    (a : RvArch) (b : Builder) (instr pc : ℕ) (p : Processed)
    → bits 0 7 instr ≡ 0x67
    → verbatim (if register instr == 0 then finish b pc else b) instr ≡ ok p
    → Emitted a b instr pc p
process_jalr-Emitted a b instr pc p opcode h = elim (Bool-cases (register instr == 0)) [
  | inl zero_rd ↦
      subst (Emitted a b instr pc) (ok-injective (rw zero_rd at h))
        (returns opcode (sym (register_is instr) ∙ tested (register instr) 0 zero_rd))
  | inr some_rd ↦ subst (Emitted a b instr pc) (ok-injective (rw some_rd at h)) plain
]

-- Every instruction that is accepted gives one of these results.
pub process-Emitted :
    (a : RvArch) (b : Builder) (instr pc : ℕ) (p : Processed)
    → process a b instr pc ≡ ok p
    → Emitted a b instr pc p
unfolding process
process-Emitted a b instr pc p h = elim (Bool-cases (bit_and instr 0x3 == 0x3)) [
  | inr short ↦ let c : err unsupported_instruction ≡ ok p = rw short at h in cc
  | inl long ↦ elim (Bool-cases (bit_and instr 0x7F == 0x6F)) [
    | inl t ↦ process_jal-Emitted a b instr pc p (opcode_is instr 0x6F t) (rw (long, t) at h)
    | inr n1 ↦ elim (Bool-cases (bit_and instr 0x7F == 0x67)) [
      | inl t ↦ process_jalr-Emitted a b instr pc p (opcode_is instr 0x67 t) (rw (long, n1, t) at h)
      | inr n2 ↦ elim (Bool-cases (bit_and instr 0x7F == 0x17)) [
        | inl t ↦
            subst (Emitted a b instr pc) (ok-injective (rw (long, n1, n2, t) at h))
              (addresses (opcode_is instr 0x17 t))
        | inr n3 ↦ elim (Bool-cases (bit_and instr 0x7F == 0x63)) [
          | inl t ↦
              process_branch-Emitted a b instr pc p (opcode_is instr 0x63 t)
                (rw (long, n1, n2, n3, t) at h)
          | inr n4 ↦
              subst (Emitted a b instr pc) (ok-injective (rw (long, n1, n2, n3, n4) at h)) plain
        ]
      ]
    ]
  ]
]

-- JAL and JALR without a link register.
abbrev pub Terminator : ℕ → Type 0
Terminator instr = ((bits 0 7 instr ≡ 0x6F) ⊎ (bits 0 7 instr ≡ 0x67)) × (bits 7 5 instr ≡ 0)

abbrev SamePlace : Builder → Builder → Type 0
SamePlace c b = (c.target ≡ b.target) × (c.margin ≡ b.margin) × (c.total_bytes ≡ b.total_bytes)

Emitted-SamePlace :
    {a : RvArch} {b : Builder} {instr pc : ℕ} {p : Processed}
    → Emitted a b instr pc p
    → SamePlace p.state b
unfolding track_branch
Emitted-SamePlace plain = (refl, refl, refl)
Emitted-SamePlace (tracks dest) = (refl, refl, refl)
Emitted-SamePlace (returns o r) = (refl, refl, refl)
Emitted-SamePlace (jumps_inside dest o r) = (refl, refl, refl)
Emitted-SamePlace (jumps o r) = (refl, refl, refl)
Emitted-SamePlace (calls o r) = (refl, refl, refl)
Emitted-SamePlace (addresses o) = (refl, refl, refl)
Emitted-SamePlace (branches o) = (refl, refl, refl)

Emitted-Terminator :
    {a : RvArch} {b : Builder} {instr pc : ℕ} {p : Processed}
    → Emitted a b instr pc p
    → b.finished ≡ false
    → p.state.finished ≡ true
    → Terminator instr
unfolding track_branch
Emitted-Terminator plain on over = cc
Emitted-Terminator (tracks dest) on over = cc
Emitted-Terminator (returns o r) on over = (inr o, r)
Emitted-Terminator (jumps_inside dest o r) on over = (inl o, r)
Emitted-Terminator (jumps o r) on over = (inl o, r)
Emitted-Terminator (calls o r) on over = cc
Emitted-Terminator (addresses o) on over = cc
Emitted-Terminator (branches o) on over = cc

-- The builder keeps its place, and a prolog ends at a jump without a link only.
pub isa-Keeps : (a : RvArch) (memory : Memory) → Keeps (isa a) memory Terminator
isa-Keeps a memory = record {
  keeps = λ b instr pc p h. Emitted-SamePlace (process-Emitted a b instr pc p h);
  ends = λ b instr pc p h on over. Emitted-Terminator (process-Emitted a b instr pc p h) on over;
}

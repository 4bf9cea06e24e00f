-- ===== src/X86/Patcher/Template.antt =====
-- The hook of src/arch/x86/patcher.rs: how long it is, and where its jumps lead.
use detour_rs.Base.{
  ℕ, suc, zero, ◌+◌, ◌≤◌, ◌<◌, ◌≡◌, refl, sym, subst, ap, ◌∙◌, ◌⊎◌, inl, inr, Bool, List, length,
  max, arith, ltb, some, Bool-cases, ltb→lt, ltb→le,
}
use detour_rs.Base.Memory.{Memory, Holds, Holds-append}
use detour_rs.Error.{ok}
use detour_rs.Pic.{CodeEmitter, new, add_thunk, total_len, emit, generate, len}
use detour_rs.Pic.Emit.{total_len-add_thunk, emit-single, emit-double}
use detour_rs.X86.Defs.{X86Arch, i686, amd64, target_arch, word_mod}
use detour_rs.X86.Machine.{jump, steps, steps-jump, relative}
use detour_rs.X86.Thunk.{jmp_rel32, jmp_rel8, nop}
use detour_rs.X86.Thunk.Lands.{jmp_rel32-reaches}
use detour_rs.X86.Thunk.Reach.{jmp_rel8-reaches}
use detour_rs.X86.Patcher.{pad_nops, hook_template}

-- The padding loop ends with an emitter that fills the area, given as many rounds as it has bytes.
total_len-pad_nops :
    (fuel : ℕ) (e : CodeEmitter) (size : ℕ)
    → size ≤ total_len e + fuel
    → total_len (pad_nops fuel e size) ≡ max (total_len e) size
unfolding pad_nops
total_len-pad_nops zero e size h = omega arith
total_len-pad_nops (suc fuel) e size h =
    let one : total_len (add_thunk e nop) ≡ total_len e + 1 =
      total_len-add_thunk e nop ∙ ap (λ n. total_len e + n) (unfold nop len in refl) in
    elim (Bool-cases (ltb (total_len e) size)) [
      | inl short ↦
          let less = ltb→lt _ _ short in
          rw short (total_len-pad_nops fuel (add_thunk e nop) size (omega arith) ∙ omega arith)
      | inr full ↦ let enough = ltb→le _ _ full in rw full (omega arith)
    ]

sizes_long : (a : X86Arch) (detour : ℕ) → total_len new + len (jmp_rel32 a detour) ≡ 5
unfolding total_len new len jmp_rel32
sizes_long a detour = refl

sizes_short : 5 + len (jmp_rel8 251) ≡ 7
unfolding len jmp_rel8
sizes_short = refl

-- A hook fills the area that it is made for, where that has five bytes, or seven or more.
pub total_len-hook_template :
    (a : X86Arch) (detour n : ℕ) → (n ≡ 5) ⊎ (7 ≤ n) → total_len (hook_template a detour n) ≡ n
unfolding hook_template
total_len-hook_template a detour n h =
    let long = total_len-add_thunk new (jmp_rel32 a detour) ∙ sizes_long a detour in
    let both =
      total_len-add_thunk (add_thunk new (jmp_rel32 a detour)) (jmp_rel8 251)
      ∙ ap (λ k. k + len (jmp_rel8 251)) long
      ∙ sizes_short in
    elim (Bool-cases (ltb 5 n)) [
      | inl hot ↦
          let more = ltb→lt 5 n hot in
          rw hot (
            total_len-pad_nops n (add_thunk (add_thunk new (jmp_rel32 a detour)) (jmp_rel8 251)) n
              (omega arith)
            ∙ omega arith)
      | inr short ↦
          let less = ltb→le 5 n short in
          rw short (
            total_len-pad_nops n (add_thunk new (jmp_rel32 a detour)) n (omega arith) ∙ omega arith)
    ]

-- The emitter of a hook, for the two sizes of an area.
hook_template-long :
    (a : X86Arch) (detour : ℕ) → hook_template a detour 5 ≡ add_thunk new (jmp_rel32 a detour)
unfolding hook_template total_len len add_thunk new jmp_rel32
hook_template-long a detour = refl

hook_template-hot :
    (a : X86Arch) (detour : ℕ)
    → hook_template a detour 7 ≡ add_thunk (add_thunk new (jmp_rel32 a detour)) (jmp_rel8 251)
unfolding hook_template total_len len add_thunk new jmp_rel32 jmp_rel8
hook_template-hot a detour = refl

anywhere :
    (s t : ℕ) (d : List ℕ) → generate (jmp_rel8 251) t ≡ ok d → generate (jmp_rel8 251) s ≡ ok d
unfolding generate jmp_rel8
anywhere s t d h = h

five_back :
    (a : X86Arch) (base : ℕ) → base + 7 < word_mod a → relative a (base + 5) 0x100 251 ≡ base
five_back i686 base h = omega arith
five_back amd64 base h = omega arith

-- The two jumps of a hook at `base`, which lead from its end and from its start to the detour.
module _ (a : X86Arch) (flags : ℕ → Bool) (m : Memory) (base detour : ℕ) (code : List ℕ)
    (fits : base + 7 < word_mod a) (lt : detour < word_mod a) (held : Holds m base code) where
  pub long-lands :
      emit (target_arch a) (hook_template a detour 5) base ≡ ok code
      → steps a flags m 1 base ≡ some detour
  long-lands h =
      let g : generate (jmp_rel32 a detour) base ≡ ok code =
        emit-single (target_arch a) (jmp_rel32 a detour) base code
          (rw (hook_template-long a detour) at h) in
      steps-jump a flags m 0 base detour
        (jmp_rel32-reaches a m base detour code (omega arith) lt g held)

  pub hot-lands :
      emit (target_arch a) (hook_template a detour 7) base ≡ ok code
      → steps a flags m 2 (base + 5) ≡ some detour
  hot-lands h =
      let (c, d, g, k, e, sized) =
        emit-double (target_arch a) (jmp_rel32 a detour) (jmp_rel8 251) base code
          (rw (hook_template-hot a detour) at h) in
      let five : length c ≡ 5 = sized ∙ unfold len jmp_rel32 in refl in
      let (front, back) =
        Holds-append m base (base + 5) c d (omega arith) (subst (Holds m base) (sym e) held) in
      let short = anywhere (base + 5) _ d k in
      let up = steps-jump a flags m 1 (base + 5) base (
        jmp_rel8-reaches a m (base + 5) 251 d (omega arith) (omega arith) short back
        ∙ ap (λ t. some (jump t)) (five_back a base fits)) in
      let on =
        steps-jump a flags m 0 base detour
          (jmp_rel32-reaches a m base detour c (omega arith) lt g front) in
      up ∙ on

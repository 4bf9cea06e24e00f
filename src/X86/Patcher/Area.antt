-- ===== src/X86/Patcher/Area.antt =====
-- What src/arch/x86/patcher.rs promises of the area that it picks, on each of its branches.
use detour_rs.Base.{
  zero, suc, ap, sym, ◌∙◌, ◌↔◌, ◌&&◌, ltb→lt, ltb→le, ℕ, ◌+◌, ◌-◌, ◌≤◌, ◌<◌, ◌≡◌, refl, ◌⊎◌, inl,
  inr, Bool, true, false, arith, leb, ltb, leb→le, leb→lt, Bool-cases,
}
use detour_rs.Base.Words.{wrapping_sub}
use detour_rs.Base.Memory.{Memory, read}
use detour_rs.Arch.Patch.{Slice}
use detour_rs.Error.{Result, ok, err, no_patch_area, >>=-eq-ok, ok-injective}
use detour_rs.X86.Defs.{X86Arch, i686, amd64, word_mod}
use detour_rs.X86.Patcher.{is_padding, is_code_padding, is_patchable, hot_patch_area, patch_area}

-- Every byte of memory from `lo` up to `hi` is padding.
abbrev pub IsPadding : Memory → ℕ → ℕ → Type 0
IsPadding m lo hi = (p : ℕ) → lo ≤ p → p < hi → is_padding (m p) ≡ true

and_true : (a b : Bool) → a && b ≡ true → (a ≡ true) × (b ≡ true)
and_true true b h = (refl, h)
and_true false b h = cc

is_code_padding-read :
    (m : Memory) (p n q : ℕ)
    → is_code_padding (read m p n) ≡ true
    → p ≤ q
    → q < p + n
    → is_padding (m q) ≡ true
unfolding is_code_padding read
is_code_padding-read m p zero q h lo hi = absurd (omega arith)
is_code_padding-read m p (suc n) q h lo hi =
    let (here, rest) = and_true (is_padding (m p)) _ h in
    elim (Bool-cases (ltb p q)) [
      | inl after ↦ is_code_padding-read m (suc p) n q rest (ltb→lt p q after) (omega arith)
      | inr at ↦
          let same : q ≡ p = omega (arith, ltb→le p q at) in ap (λ z. is_padding (m z)) same ∙ here
    ]

is_code_padding_intro :
    (m : Memory) (p n : ℕ) → IsPadding m p (p + n) → is_code_padding (read m p n) ≡ true
unfolding is_code_padding read
is_code_padding_intro m p zero h = refl
is_code_padding_intro m p (suc n) h =
    rw (h p (omega arith) (omega arith))
      (is_code_padding_intro m (suc p) n (λ q lo hi. h q (omega arith) (omega arith)))

-- A patch fits at the target when all that it covers beyond the prolog is padding.
pub is_patchable_iff :
    (m : Memory) (target prolog_size patch_size : ℕ)
    → (is_patchable m target prolog_size patch_size ≡ true)
      ↔ IsPadding m (target + prolog_size) (target + patch_size)
unfolding is_patchable
is_patchable_iff m target prolog_size patch_size = (there, back)
  where
    there :
        is_patchable m target prolog_size patch_size ≡ true
        → IsPadding m (target + prolog_size) (target + patch_size)
    there h p lo hi = elim (Bool-cases (leb patch_size prolog_size)) [
      | inl fits ↦ absurd (omega (arith, leb→le patch_size prolog_size fits))
      | inr over ↦
          is_code_padding-read m (target + prolog_size) (patch_size - prolog_size) p (rw over at h)
            lo (omega (arith, leb→lt patch_size prolog_size over))
    ]

    back :
        IsPadding m (target + prolog_size) (target + patch_size)
        → is_patchable m target prolog_size patch_size ≡ true
    back h = elim (Bool-cases (leb patch_size prolog_size)) [
      | inl fits ↦ rw fits
      | inr over ↦ rw over (
          is_code_padding_intro m (target + prolog_size) (patch_size - prolog_size)
            (λ q lo hi. h q lo (omega (arith, leb→lt patch_size prolog_size over))))
    ]

pub five_above :
    (a : X86Arch) (target : ℕ)
    → 5 ≤ target
    → target < word_mod a
    → wrapping_sub (word_mod a) target 5 ≡ target - 5
five_above i686 target lo hi = omega arith
five_above amd64 target lo hi = omega arith

not_true : (b : Bool) → ¬ (b ≡ true) → b ≡ false
not_true true h = absurd (h refl)
not_true false h = refl

module _ (m : Memory) (a : X86Arch) (is_executable_address : ℕ → Result Bool)
    (target prolog_size : ℕ) where
  abbrev hot_patch : ℕ
  hot_patch = wrapping_sub (word_mod a) target 5

  -- A patch of five bytes at the target, and one of two bytes there with five above it.
  abbrev pub FitsLong : Type 0
  FitsLong = IsPadding m (target + prolog_size) (target + 5)

  abbrev pub FitsHot : Type 0
  FitsHot =
      IsPadding m (target + prolog_size) (target + 2)
      × IsPadding m hot_patch (hot_patch + 5)
      × (is_executable_address hot_patch ≡ ok true)

  -- The area is the five bytes at the target where those are the prolog or padding; else, where the
  -- short jump fits and the five bytes above are executable padding, the seven bytes from there on.
  pub patch_area_complete :
      (FitsLong
        → patch_area m a is_executable_address target prolog_size
          ≡ ok (record { as_ptr = target; len = 5 }))
      × (¬ FitsLong
          → FitsHot
          → patch_area m a is_executable_address target prolog_size
            ≡ ok (record { as_ptr = hot_patch; len = 7 }))
  unfolding patch_area hot_patch_area
  patch_area_complete = (long, hot)
    where
      long :
          FitsLong
          → patch_area m a is_executable_address target prolog_size
            ≡ ok (record { as_ptr = target; len = 5 })
      long h = rw ((is_patchable_iff m target prolog_size 5).1 h)

      hot :
          ¬ FitsLong
          → FitsHot
          → patch_area m a is_executable_address target prolog_size
            ≡ ok (record { as_ptr = hot_patch; len = 7 })
      hot n (short, above, executable) =
          let no_room : is_patchable m target prolog_size 5 ≡ false =
            not_true _ (λ e. n ((is_patchable_iff m target prolog_size 5).0 e)) in
          rw (
            no_room,
            (is_patchable_iff m target prolog_size 2).1 short,
            is_code_padding_intro m hot_patch 5 above,
            executable,
          )

  -- What an area that is found stands for.
  abbrev pub IsArea : Slice → Type 0
  IsArea area =
      ((area ≡ record { as_ptr = target; len = 5 }) × FitsLong)
      ⊎ ((area ≡ record { as_ptr = hot_patch; len = 7 }) × FitsHot)

  hot_patch_area_sound :
      (area : Slice)
      → is_patchable m target prolog_size 2 ≡ true
      → hot_patch_area m a is_executable_address target ≡ ok area
      → IsArea area
  unfolding hot_patch_area
  hot_patch_area_sound area short h = elim (Bool-cases (is_code_padding (read m hot_patch 5))) [
    | inr other ↦ let e : err no_patch_area ≡ ok area = rw other at h in cc
    | inl padding ↦
        let (executable, asked, e) =
          >>=-eq-ok (is_executable_address hot_patch) _ (rw padding at h) in
        elim (Bool-cases executable) [
          | inr not_executable ↦ let f : err no_patch_area ≡ ok area = rw not_executable at e in cc
          | inl is_executable ↦ inr (
            sym (ok-injective (rw is_executable at e)),
            (
              (is_patchable_iff m target prolog_size 2).0 short,
              (λ p lo hi. is_code_padding-read m hot_patch 5 p padding lo hi),
              asked ∙ ap ok is_executable,
            ),
          )
        ]
  ]

  pub patch_area_sound :
      (area : Slice)
      → patch_area m a is_executable_address target prolog_size ≡ ok area
      → IsArea area
  unfolding patch_area
  patch_area_sound area h = elim (Bool-cases (is_patchable m target prolog_size 5)) [
    | inl fits ↦
        inl (sym (ok-injective (rw fits at h)), (is_patchable_iff m target prolog_size 5).0 fits)
    | inr full ↦ elim (Bool-cases (is_patchable m target prolog_size 2)) [
      | inl short ↦ hot_patch_area_sound area short (rw (full, short) at h)
      | inr unfit ↦ let e : err no_patch_area ≡ ok area = rw (full, unfit) at h in cc
    ]
  ]

  -- The bytes that a patch overwrites are the function's prolog or padding, for a target that is an
  -- address with five below it.
  pub patch_area_spares :
      (area : Slice)
      → 5 ≤ target
      → target < word_mod a
      → patch_area m a is_executable_address target prolog_size ≡ ok area
      → (p : ℕ) → area.as_ptr ≤ p
      → p < area.as_ptr + area.len
      → ((target ≤ p) × (p < target + prolog_size)) ⊎ (is_padding (m p) ≡ true)
  patch_area_spares area lo hi h p from to = elim (patch_area_sound area h) [
    | inl (e, fits) ↦
        let start = ap (λ s. s.as_ptr) e in
        let size = ap (λ s. s.len) e in
        elim (Bool-cases (ltb p (target + prolog_size))) [
          | inl inside ↦ inl (omega arith, ltb→lt _ _ inside)
          | inr past ↦ inr (fits p (ltb→le _ _ past) (omega arith))
        ]
    | inr (e, (short, above, executable)) ↦
        let start : area.as_ptr ≡ target - 5 = ap (λ s. s.as_ptr) e ∙ five_above a target lo hi in
        let five : hot_patch ≡ target - 5 = five_above a target lo hi in
        let size = ap (λ s. s.len) e in
        elim (Bool-cases (ltb p target)) [
          | inl before ↦
              let below : p < target = ltb→lt _ _ before in
              inr (above p (omega arith) (omega arith))
          | inr at ↦
              let from_target : target ≤ p = ltb→le _ _ at in
              elim (Bool-cases (ltb p (target + prolog_size))) [
                | inl inside ↦ inl (from_target, ltb→lt _ _ inside)
                | inr past ↦ inr (short p (ltb→le _ _ past) (omega arith))
              ]
        ]
  ]

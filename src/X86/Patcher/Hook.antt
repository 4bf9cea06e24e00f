-- ===== src/X86/Patcher/Hook.antt =====
-- What src/arch/x86/patcher.rs writes over the area leads to the detour.
use detour_rs.Base.{
  ℕ, ◌+◌, ◌-◌, ◌≤◌, ◌<◌, ◌≡◌, sym, subst, ap, ◌∙◌, ◌⊎◌, inl, inr, Bool, true, length, arith, some,
}
use detour_rs.Base.Words.{wrapping_sub}
use detour_rs.Base.Memory.{Memory, read, write, Holds, length-read, write-Holds}
use detour_rs.Arch.Patch.{Patcher, IsSized, IsOriginal, toggle, toggle_lem}
use detour_rs.Error.{Result, ok, >>=-eq-ok, ok-injective}
use detour_rs.Pic.{emit}
use detour_rs.Pic.Emit.{length-emit}
use detour_rs.X86.Defs.{X86Arch, target_arch, word_mod}
use detour_rs.X86.Machine.{steps}
use detour_rs.X86.Patcher.{patch_area, hook_template, make}
use detour_rs.X86.Patcher.Area.{patch_area_sound, five_above}
use detour_rs.X86.Patcher.Template.{total_len-hook_template, long-lands, hot-lands}

-- What a patcher that could be made is.
module _ (m : Memory) (a : X86Arch) (is_executable_address : ℕ → Result Bool)
    (target detour prolog_size : ℕ) (p : Patcher)
    (made : make m a is_executable_address target detour prolog_size ≡ ok p) where
  -- Its parts: the area, its bytes, and the code of the hook at its address.
  make_parts :
      (patch_area m a is_executable_address target prolog_size ≡ ok p.area)
      × (emit (target_arch a) (hook_template a detour p.area.len) p.area.as_ptr
          ≡ ok p.detour_prolog)
      × IsOriginal m p
  unfolding make
  make_parts =
      let (area, found, rest) =
        >>=-eq-ok (patch_area m a is_executable_address target prolog_size) _ made in
      let (code, emitted, done) =
        >>=-eq-ok (emit (target_arch a) (hook_template a detour area.len) area.as_ptr) _ rest in
      let e = ok-injective done in
      let same_area = ap (λ q. q.area) e in
      (
        found ∙ ap ok same_area,
        subst
            (λ s. emit (target_arch a) (hook_template a detour s.len) s.as_ptr ≡ ok p.detour_prolog)
            same_area (emitted ∙ ap (λ q. ok (q.detour_prolog)) e),
        subst (λ s. read m s.as_ptr s.len ≡ p.original_prolog) same_area
            (ap (λ q. q.original_prolog) e),
      )

  area_sizes : (p.area.len ≡ 5) ⊎ (7 ≤ p.area.len)
  area_sizes =
      elim (patch_area_sound m a is_executable_address target prolog_size p.area make_parts.0) [
        | inl (e, long) ↦ inl (ap (λ s. s.len) e)
        | inr (e, hot) ↦ inr (let seven = ap (λ s. s.len) e in omega arith)
      ]

  -- Both of its prologs fill its area, and the area still holds the first of them.
  pub make-IsSized : IsSized p × IsOriginal m p
  make-IsSized =
      let (found, emitted, original) = make_parts in
      let filled = total_len-hook_template a detour p.area.len area_sizes in
      let emitted_len = length-emit (target_arch a) _ p.area.as_ptr p.detour_prolog emitted in
      (
        record {
          original_fits = sym (length-read m p.area.as_ptr p.area.len) ∙ ap length original;
          detour_fits = sym (emitted_len ∙ filled);
        },
        original,
      )

  -- With the hook in its place the target leads to the detour.
  hooked_lands :
      (flags : ℕ → Bool) (hooked : Memory)
      → 5 ≤ target
      → target + 7 < word_mod a
      → detour < word_mod a
      → Holds hooked p.area.as_ptr p.detour_prolog
      → (n : ℕ) × (steps a flags hooked n target ≡ some detour)
  hooked_lands flags hooked lo hi lt held =
      let (found, emitted, original) = make_parts in
      elim (patch_area_sound m a is_executable_address target prolog_size p.area found) [
        | inl (e, long) ↦
            let held' = subst (λ s. Holds hooked s.as_ptr p.detour_prolog) e held in
            let emitted' =
              subst
                (λ s.
                  emit (target_arch a) (hook_template a detour s.len) s.as_ptr ≡ ok p.detour_prolog)
                e emitted in
            (1, long-lands a flags hooked target detour p.detour_prolog hi lt held' emitted')
        | inr (e, hot) ↦
            let below : wrapping_sub (word_mod a) target 5 ≡ target - 5 =
              five_above a target lo (omega arith) in
            let place : p.area ≡ record { as_ptr = target - 5; len = 7 } =
              e ∙ ap (λ b. record { as_ptr = b; len = 7 }) below in
            let held' = subst (λ s. Holds hooked s.as_ptr p.detour_prolog) place held in
            let emitted' =
              subst
                (λ s.
                  emit (target_arch a) (hook_template a detour s.len) s.as_ptr ≡ ok p.detour_prolog)
                place emitted in
            let back : target - 5 + 5 ≡ target = omega arith in
            (
              2,
              rw back at (
                  hot-lands a flags hooked (target - 5) detour p.detour_prolog (omega arith) lt
                    held' emitted'),
            )
      ]

  -- A patcher that could be made can be switched on in any memory, and then execution goes from the
  -- target to the detour, whatever the processor flags are, where the target has five addresses
  -- below it and seven above, and the detour is an address.
  pub toggle-lands :
      (now : Memory)
      → 5 ≤ target
      → target + 7 < word_mod a
      → detour < word_mod a
      → (hooked : Memory) × (toggle now p true ≡ ok hooked)
        × ((flags : ℕ → Bool) → (n : ℕ) × (steps a flags hooked n target ≡ some detour))
  toggle-lands now lo hi lt =
      let hooked = write now p.area.as_ptr p.detour_prolog in
      (
        hooked,
        toggle_lem now p true make-IsSized.0,
        (λ flags.
            hooked_lands flags hooked lo hi lt (write-Holds now p.area.as_ptr p.detour_prolog)),
      )

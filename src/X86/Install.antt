-- ===== src/X86/Install.antt =====
-- src/arch/detour.rs with the architecture of src/arch/x86: from `Detour::new` to a target that
-- leads to the detour.
use detour_rs.Base.{
  ℕ, zero, suc, ◌+◌, ◌≤◌, ◌<◌, ◌≡◌, refl, sym, ◌∙◌, Bool, true, false, inl, inr, Option-cases,
  Option, none, some, List, length, arith, if◌then◌else◌,
}
use detour_rs.Base.Memory.{Memory, write, Holds}
use detour_rs.Error.{Result, ok, ok-injective, RegionError}
use detour_rs.Arch.Patch.{Slice, Patcher, IsSized, IsOriginal, toggle_lem}
use detour_rs.Arch.Patch
use detour_rs.X86.Defs.{X86Arch, target_arch, word_mod}
use detour_rs.X86.Machine.{transfer, jump, next_pc, steps, steps-jump}
use detour_rs.X86.Trampoline.{Trampoline, Decoder}
use detour_rs.X86.Trampoline
use detour_rs.X86.Patcher
use detour_rs.X86.Patcher.Hook.{make-IsSized, toggle-lands}
use detour_rs.X86.Meta
use detour_rs.X86.Meta.Relay.{relay-reaches}
use detour_rs.Detour.{Architecture, System, World, Detour, new, toggle, destination}
use detour_rs.Detour.Made.{Apart, Holds-Apart, IsRelay, new-IsMade, read_outside}
use detour_rs.Detour.Switch.{switch, last_granted, switch_lem}

abbrev pub x86 : X86Arch → Decoder → (ℕ → Result Bool) → Architecture
x86 a decoder is_executable_address = record {
  arch = target_arch a;
  Trampoline = Trampoline;
  prolog_margin = Meta.prolog_margin;
  new_trampoline = Trampoline.make a decoder;
  prolog_size = λ t. t.prolog_size;
  emitter = λ t. t.emitter;
  relay_builder = λ target detour. ok (Meta.relay_builder a target detour);
  new_patcher = λ m target detour size. Patcher.make m a is_executable_address target detour size;
}

steps-then :
    (a : X86Arch) (flags : ℕ → Bool) (m : Memory) (n p q t : ℕ)
    → steps a flags m n p ≡ some q
    → transfer a m q ≡ some (jump t)
    → steps a flags m (suc n) p ≡ some t
steps-then a flags m zero p q t h k =
    let same : p ≡ q = cc in steps-jump a flags m 0 p t (rw same k)
steps-then a flags m (suc n) p q t h k = elim (Option-cases (next_pc a flags m p)) [
  | inl lost ↦ let h' = rw (lost, steps) at h in cc
  | inr (r, e) ↦ rw (e, steps) (steps-then a flags m n r q t (rw (e, steps) at h) k)
]

-- A relay lies where it can jump from, apart from what is written after it.
abbrev pub IsPlaced : X86Arch → (trampoline area : Slice) → Option Slice → Type 0
IsPlaced a trampoline area none = Unit {0}
IsPlaced a trampoline area (some s) =
    (s.as_ptr + 14 < word_mod a) × Apart trampoline s × Apart area s

-- Memory in which the target leads to the detour, out of `m` by a patcher.
abbrev Leads : X86Arch → (target detour : ℕ) → Memory → Patcher → Type 0
Leads a target detour m p =
    (hooked : Memory) × (Patch.toggle m p true ≡ ok hooked)
    × ((flags : ℕ → Bool) → (n : ℕ) × (steps a flags hooked n target ≡ some detour))

module _ (system : System) (a : X86Arch) (decoder : Decoder) (target detour : ℕ) (lo : 5 ≤ target)
    (hi : target + 7 < word_mod a) (lt : detour < word_mod a) where
  abbrev arch : Architecture
  arch = x86 a decoder system.is_executable_address

  over_relay :
      (m m' : Memory) (p : Patcher) (r : Option Slice) (t : Slice) (code : List ℕ) (size : ℕ)
      → Patcher.make m a system.is_executable_address target (destination system arch r detour) size
        ≡ ok p
      → IsRelay system arch target detour m r
      → m' ≡ write m t.as_ptr code
      → t.len ≡ length code
      → IsPlaced a t p.area r
      → Leads a target detour m' p
  over_relay m m' p none t code size made relay h fills placed =
      toggle-lands m a system.is_executable_address target detour size p made m' lo hi lt
  over_relay m m' p (some s) t code size made (builder, bytes, b, emitted, full, held) h fills
        (room, off, out) =
      let sized = (make-IsSized m a system.is_executable_address target s.as_ptr size p made).0 in
      let (hooked, switched, landed) =
        toggle-lands m a system.is_executable_address target s.as_ptr size p made m' lo hi
          (omega arith) in
      let same : hooked ≡ write m' p.area.as_ptr p.detour_prolog =
        ok-injective (sym switched ∙ toggle_lem m' p true sized) in
      let before : Holds m' s.as_ptr bytes =
        rw h (Holds-Apart m s.as_ptr bytes t.as_ptr code (omega (arith, fills, full)) held) in
      let after : Holds hooked s.as_ptr bytes = rw same (
        Holds-Apart m' s.as_ptr bytes p.area.as_ptr p.detour_prolog
          (omega (arith, sized.detour_fits, full)) before) in
      (
        hooked,
        switched,
        (λ flags.
            let (n, e) = landed flags in
            (
              suc n,
              steps-then a flags hooked n target s.as_ptr detour e (
                  relay-reaches a hooked target detour s.as_ptr builder bytes room lt
                    (ok-injective b) emitted after),
            )),
      )

  -- A detour that could be made, its relay in a free place, can be switched on wherever the system
  -- grants the access, and then execution goes from the target to the detour function, over the
  -- relay if there is one, whatever the processor flags are, where the target has five addresses
  -- below it and seven above, and the detour is an address.
  pub install-reaches :
      (w w' : World (system.Pool)) (d : Detour)
      → new system arch target detour w ≡ (ok d, w')
      → IsPlaced a d.trampoline d.patcher.area d.relay
      → (hooked : Memory) × (d' : Detour) × (toggle none true (w'.memory, d)
          ≡ (ok tt, (hooked, d')))
        × ((flags : ℕ → Bool) → (n : ℕ) × (steps a flags hooked n target ≡ some detour))
  unfolding toggle
  install-reaches w w' d made placed =
      let (m, parts) = new-IsMade system arch target detour w w' d made in
      let (hooked, switched, landed) =
        over_relay m w'.memory d.patcher d.relay d.trampoline parts.code parts.size parts.patched
          parts.relay parts.trampoline_written parts.fills placed in
      (hooked, record d { enabled = true }, rw (parts.off, switched) refl, landed)

  -- Whatever calls of `enable` and `disable` follow on a detour that could be made, its trampoline
  -- apart from the patched area: the memory is that after the making, with the hook in the area
  -- exactly where the last granted call switched it on.
  pub install-switch :
      (w w' : World (system.Pool)) (d : Detour) (calls : List (Bool × Option RegionError))
      → new system arch target detour w ≡ (ok d, w')
      → Apart d.trampoline d.patcher.area
      → (switch calls (w'.memory, d)).0 ≡ (
          if last_granted false calls
          then write w'.memory d.patcher.area.as_ptr d.patcher.detour_prolog
          else w'.memory)
  install-switch w w' d calls made apart =
      let (m, parts) = new-IsMade system arch target detour w w' d made in
      let (sized, original) =
        make-IsSized m a system.is_executable_address target _ parts.size d.patcher parts.patched in
      let kept : IsOriginal w'.memory d.patcher = rw parts.trampoline_written (
        read_outside m d.patcher.area.as_ptr d.patcher.area.len d.trampoline.as_ptr parts.code
          (omega (arith, parts.fills))
        ∙ original) in
      (switch_lem calls w'.memory d parts.off sized kept).1

-- ===== src/X86/Meta/Relay.antt =====
-- When src/arch/x86/meta.rs makes a relay, and what reaches what then.
use detour_rs.Base.{ℕ, ◌+◌, ◌%◌, ◌≤◌, ◌<◌, ◌≡◌, ◌⊎◌, inl, true, false, List, none, some, arith, ◌∷◌}
use detour_rs.Base.Words.{wrapping_sub, le_bytes, u32_mod}
use detour_rs.Base.Memory.{Memory, Holds}
use detour_rs.Error.{ok, panic}
use detour_rs.Arch.{x86_64, is_within_range}
use detour_rs.Arch.Range.{
  is_within_range-x86_64, is_within_range-x86_64_not, is_within_range-x86_64_intro,
}
use detour_rs.Pic.{CodeEmitter, emit, generate, add_thunk, new}
use detour_rs.Pic.Emit.{emit-single}
use detour_rs.X86.Defs.{X86Arch, amd64, target_arch, word_mod}
use detour_rs.X86.Machine.{transfer, jump}
use detour_rs.X86.Thunk.{jmp_rel32, jmp}
use detour_rs.X86.Thunk.Reach.{jmp-reaches}
use detour_rs.X86.Meta.{relay_builder}

-- A relay, emitted at any address, leads to the detour.
pub relay-reaches :
    (a : X86Arch) (m : Memory) (target detour base : ℕ) (relay : CodeEmitter) (code : List ℕ)
    → base + 14 < word_mod a
    → detour < word_mod a
    → relay_builder a target detour ≡ some relay
    → emit (target_arch a) relay base ≡ ok code
    → Holds m base code
    → transfer a m base ≡ some (jump detour)
unfolding relay_builder
relay-reaches a m target detour base relay code hi lt r e held =
    let made : relay ≡ add_thunk new (jmp a detour) = ground arith in
    jmp-reaches a m base detour code hi lt
      (emit-single (target_arch a) (jmp a detour) base code (rw made at e)) held

reach_side :
    (target detour : ℕ)
    → target < word_mod amd64
    → detour < word_mod amd64
    → let y = wrapping_sub (word_mod amd64) target detour in
      let d = wrapping_sub (word_mod amd64) detour target in
      let x = wrapping_sub (word_mod amd64) detour ((target + 5) % word_mod amd64) in
      (y < 0x8000_0000) ⊎ (0xFFFF_FFFF_8000_0000 ≤ y)
      → ¬ ((0xFFFF_FFFF_8000_0000 < d) × (d < 0xFFFF_FFFF_8000_0005))
      → (x < 0x8000_0000) ⊎ (0xFFFF_FFFF_8000_0000 ≤ x)
reach_side target detour ht hd near edge = ground arith

-- Where no relay is made a relative jump from the target reaches the detour, on x86_64 when the detour is
-- not among the four addresses at the lower edge of the range.
pub no_relay-reachable :
    (target detour : ℕ)
    → target < word_mod amd64
    → detour < word_mod amd64
    → relay_builder amd64 target detour ≡ none
    → let d = wrapping_sub (word_mod amd64) detour target in
      ¬ ((0xFFFF_FFFF_8000_0000 < d) × (d < 0xFFFF_FFFF_8000_0005))
      → (code : List ℕ) × (generate (jmp_rel32 amd64 detour) target ≡ ok code)
unfolding relay_builder generate jmp_rel32
no_relay-reachable target detour ht hd r edge =
    let y = wrapping_sub (word_mod amd64) target detour in
    let near : is_within_range x86_64 y ≡ true = ground arith in
    let x = wrapping_sub (word_mod amd64) detour ((target + 5) % word_mod amd64) in
    let reach : is_within_range x86_64 x ≡ true =
      is_within_range-x86_64_intro x (omega arith)
        (reach_side target detour ht hd (is_within_range-x86_64 y near (omega arith)) edge) in
    (0xE9 ∷ le_bytes 4 (x % u32_mod), rw reach)

-- For a detour at one of these four addresses no relay is made, though the relative jump that the
-- patch needs cannot be generated.
pub relay_missing :
    (target detour : ℕ)
    → target < word_mod amd64
    → detour < word_mod amd64
    → let d = wrapping_sub (word_mod amd64) detour target in
      0xFFFF_FFFF_8000_0000 < d
      → d < 0xFFFF_FFFF_8000_0005
      → (relay_builder amd64 target detour ≡ none)
        × (generate (jmp_rel32 amd64 detour) target ≡ panic)
unfolding relay_builder generate jmp_rel32
relay_missing target detour ht hd lo hi =
    let y = wrapping_sub (word_mod amd64) target detour in
    let near : is_within_range x86_64 y ≡ true =
      is_within_range-x86_64_intro y (omega arith) (inl (omega arith)) in
    let x = wrapping_sub (word_mod amd64) detour ((target + 5) % word_mod amd64) in
    let far : is_within_range x86_64 x ≡ false =
      is_within_range-x86_64_not x (omega arith) (omega arith) in
    (rw near, rw far)

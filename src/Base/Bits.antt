-- ===== src/Base/Bits.antt =====
-- The bit operations at the masks that the code uses, as tables over a byte.
use detour_rs.Base.Tests.{◌==◌, ltb, Bool-cases, ltb→lt, ltb→le}
use Prim.Native.Nat.{ℕ, zero, suc, ◌+◌, ◌-◌, ◌*◌, ◌/◌, ◌%◌, ◌<◌, bit_and, bit_or, bit_xor}
use mathlib.Core.Path.{◌≡◌, refl, sym, ap, ◌∙◌}
use mathlib.Core.Bool.{Bool, true, ◌&&◌}
use mathlib.Core.Logic.{inl, inr}
use native.Mathlib.Omega.{arith}

-- Two functions that agree on all bytes, or on the numbers up to a smaller bound, by evaluation.
agrees_up_to : (ℕ → ℕ) → (ℕ → ℕ) → ℕ → Bool
agrees_up_to f g zero = true
agrees_up_to f g (suc bound) = agrees_up_to f g bound && f bound == g bound

module _ (f g : ℕ → ℕ) where
  agree_below : (bound : ℕ) → agrees_up_to f g bound ≡ true → (x : ℕ) → x < bound → f x ≡ g x
  unfolding agrees_up_to
  agree_below zero table x lt = absurd (omega arith)
  agree_below (suc bound) table x lt = elim (Bool-cases (ltb x bound)) [
    | inl below ↦
        let shorter : agrees_up_to f g bound ≡ true = ground arith in
        agree_below bound shorter x (ltb→lt x bound below)
    | inr last ↦
        let here : x ≡ bound = omega (arith, ltb→le x bound last) in
        let same : f bound ≡ g bound = ground arith in ap f here ∙ same ∙ sym (ap g here)
  ]

-- The low nibble of an opcode.
pub bit_and-low_nibble : (x : ℕ) → x < 256 → bit_and x 0x0f ≡ x % 16
unfolding agrees_up_to
bit_and-low_nibble = agree_below (λ x. bit_and x 0x0f) (λ x. x % 16) 256 refl

-- `0x80 | condition`
pub bit_or-0x80 : (c : ℕ) → c < 16 → bit_or 0x80 c ≡ 0x80 + c
unfolding agrees_up_to
bit_or-0x80 = agree_below (λ c. bit_or 0x80 c) (λ c. 0x80 + c) 16 refl

-- `0x71 ^ condition` is 0x70 with the inverted condition.
pub bit_xor-0x71 : (c : ℕ) → c < 16 → bit_xor 0x71 c ≡ 0x70 + (c + 1 - c % 2 * 2)
unfolding agrees_up_to
bit_xor-0x71 = agree_below (λ c. bit_xor 0x71 c) (λ c. 0x70 + (c + 1 - c % 2 * 2)) 16 refl

-- `condition ^ 1`, for a condition of three bits.
pub bit_xor-1 : (c : ℕ) → c < 8 → bit_xor c 1 ≡ c + 1 - c % 2 * 2
unfolding agrees_up_to
bit_xor-1 = agree_below (λ c. bit_xor c 1) (λ c. c + 1 - c % 2 * 2) 8 refl

-- `& 0x9F`, which keeps the highest bit of a byte and its five lowest.
pub bit_and-0x9f : (x : ℕ) → x < 256 → bit_and x 0x9F ≡ x / 128 * 128 + x % 32
unfolding agrees_up_to
bit_and-0x9f = agree_below (λ x. bit_and x 0x9F) (λ x. x / 128 * 128 + x % 32) 256 refl

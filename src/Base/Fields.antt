-- ===== src/Base/Fields.antt =====
-- Bit fields of a word: what `|` and `&` do on fields and masks, at every width.
use Prim.Native.Nat.{
  ℕ, zero, suc, ◌+◌, ◌-◌, ◌*◌, ◌/◌, ◌%◌, ◌^◌, ◌≤◌, ◌<◌, min, max, digits, bit_and, bit_or,
  bit_and-bitwise, bit_or-bitwise,
}
use mathlib.Core.Path.{◌≡◌, refl, sym, ap, ap₂, ◌∙◌}
use native.Mathlib.Nat.{div-div-eq-div-mul, pow-suc, one-le-pow, div-add-mod', mod-lt}
use native.Mathlib.Omega.{arith}

-- The native operations are recursions on digits with fuel; more fuel than the number is no matter.
module _ (z : ℕ → ℕ) (f : ℕ → ℕ → ℕ) where
  one_more : (n a b : ℕ) → a ≤ n → digits z f (suc n) a b ≡ digits z f n a b
  one_more zero zero b h = refl
  one_more zero (suc a) b h = absurd (omega arith)
  one_more (suc n) zero b h = refl
  one_more (suc n) (suc a) b h =
      ap (λ (d : ℕ). d * 2 + f (suc a % 2) (b % 2)) (one_more n (suc a / 2) (b / 2) (omega arith))

  extra : (d a n b : ℕ) → a + d ≡ n → digits z f n a b ≡ digits z f a a b
  extra zero a n b e = let same : n ≡ a = omega arith in rw same
  extra (suc d) a zero b e = absurd (omega arith)
  extra (suc d) a (suc n) b e = one_more n a b (omega arith) ∙ extra d a n b (omega arith)

  halved :
      (a b : ℕ)
      → digits z f (suc a) (suc a) b
        ≡ digits z f (suc a / 2) (suc a / 2) (b / 2) * 2 + f (suc a % 2) (b % 2)
  halved a b =
      ap (λ (d : ℕ). d * 2 + f (suc a % 2) (b % 2))
        (extra (a - suc a / 2) (suc a / 2) a (b / 2) (omega arith))

bit_or-halves : (a b : ℕ) → bit_or a b ≡ bit_or (a / 2) (b / 2) * 2 + max (a % 2) (b % 2)
bit_or-halves zero b = omega (arith, bit_or-bitwise 0 b, bit_or-bitwise 0 (b / 2))
bit_or-halves (suc a) b =
    omega
      (arith, bit_or-bitwise (suc a) b, bit_or-bitwise (suc a / 2) (b / 2), halved (λ y. y) max a b)

bit_and-halves : (a b : ℕ) → bit_and a b ≡ bit_and (a / 2) (b / 2) * 2 + min (a % 2) (b % 2)
bit_and-halves zero b = omega (arith, bit_and-bitwise 0 b, bit_and-bitwise 0 (b / 2))
bit_and-halves (suc a) b =
    omega (
      arith,
      bit_and-bitwise (suc a) b,
      bit_and-bitwise (suc a / 2) (b / 2),
      halved (λ y. 0) min a b,
    )

-- A number below `n` is spent in at most n halvings.
or_nothing : (n a : ℕ) → a ≤ n → bit_or a 0 ≡ a
or_nothing n zero h = refl
or_nothing zero (suc a) h = absurd (omega arith)
or_nothing (suc n) (suc a) h =
    omega (arith, bit_or-halves (suc a) 0, or_nothing n (suc a / 2) (omega arith))

and_nothing : (n a : ℕ) → a ≤ n → bit_and a 0 ≡ 0
and_nothing n zero h = refl
and_nothing zero (suc a) h = absurd (omega arith)
and_nothing (suc n) (suc a) h =
    omega (arith, bit_and-halves (suc a) 0, and_nothing n (suc a / 2) (omega arith))

doubled : (k q : ℕ) → q * 2 ^ suc k ≡ q * 2 ^ k * 2
doubled k q = grind (arith, pow-suc 2 k)

or_shifted : (k q r : ℕ) → r < 2 ^ k → bit_or (q * 2 ^ k) r ≡ q * 2 ^ k + r
or_shifted zero q r h =
    let none' : r ≡ 0 = omega arith in
    rw none' (or_nothing (q * 1) (q * 1) (omega arith) ∙ omega arith)
or_shifted (suc k) q r h =
    let half : r / 2 < 2 ^ k = omega (arith, pow-suc 2 k) in
    let front : q * 2 ^ suc k / 2 ≡ q * 2 ^ k = omega (arith, doubled k q) in
    let rest = rw (← front) at (or_shifted k q (r / 2) half) in
    omega (arith, bit_or-halves (q * 2 ^ suc k) r, doubled k q, rest)

-- Setting bits that are clear is a sum.
pub bit_or-sum : (k x r : ℕ) → x % 2 ^ k ≡ 0 → r < 2 ^ k → bit_or x r ≡ x + r
bit_or-sum k x r clear h =
    let whole : x / 2 ^ k * 2 ^ k ≡ x = omega (arith, div-add-mod' x (2 ^ k)) in
    rw whole at (or_shifted k (x / 2 ^ k) r h)

-- A number that is split at the k-th bit, and its half.
halved_split :
    (k a q r : ℕ)
    → a ≡ q * 2 ^ suc k + r
    → r < 2 ^ suc k
    → (a / 2 ≡ q * 2 ^ k + r / 2) × (r / 2 < 2 ^ k) × (a % 2 ≡ r % 2)
halved_split k a q r e h =
    let d = doubled k q in
    let t = pow-suc 2 k in (omega (arith, d), omega (arith, t), omega (arith, d))

and_low : (k a q r : ℕ) → a ≡ q * 2 ^ k + r → r < 2 ^ k → bit_and a (2 ^ k - 1) ≡ r
and_low zero a q r e h = and_nothing a a (omega arith) ∙ omega arith
and_low (suc k) a q r e h =
    let (half, small, digit) = halved_split k a q r e h in
    let t = pow-suc 2 k in
    let some_bits = one-le-pow k 2 in
    let mask : (2 ^ suc k - 1) / 2 ≡ 2 ^ k - 1 = omega arith in
    let one_bit : (2 ^ suc k - 1) % 2 ≡ 1 = omega arith in
    let rest = rw (← mask) at (and_low k (a / 2) q (r / 2) half small) in
    omega (arith, bit_and-halves a (2 ^ suc k - 1), rest, one_bit, digit)

and_high :
    (k a q r m : ℕ) → a ≡ q * 2 ^ k + r → r < 2 ^ k → bit_and a (m * 2 ^ k) ≡ bit_and q m * 2 ^ k
and_high zero a q r m e h =
    let same : a ≡ q = omega arith in
    let full : m * 2 ^ 0 ≡ m = omega arith in ap₂ bit_and same full ∙ omega arith
and_high (suc k) a q r m e h =
    let (half, small, digit) = halved_split k a q r e h in
    let mask : m * 2 ^ suc k / 2 ≡ m * 2 ^ k = omega (arith, doubled k m) in
    let no_bit : m * 2 ^ suc k % 2 ≡ 0 = omega (arith, doubled k m) in
    let rest = rw (← mask) at (and_high k (a / 2) q (r / 2) m half small) in
    omega (arith, bit_and-halves a (m * 2 ^ suc k), rest, no_bit, doubled k (bit_and q m))

split_at : (k a : ℕ) → (a ≡ a / 2 ^ k * 2 ^ k + a % 2 ^ k) × (a % 2 ^ k < 2 ^ k)
split_at k a = (sym (div-add-mod' a (2 ^ k)), mod-lt a (one-le-pow k 2 (omega arith)))

-- A mask of low bits is a remainder.
pub bit_and-mask : (k a : ℕ) → bit_and a (2 ^ k - 1) ≡ a % 2 ^ k
bit_and-mask k a = let (e, h) = split_at k a in and_low k a (a / 2 ^ k) (a % 2 ^ k) e h

-- A mask of bits from the k-th on looks at what stands from there on.
pub bit_and-high : (k a m : ℕ) → bit_and a (m * 2 ^ k) ≡ bit_and (a / 2 ^ k) m * 2 ^ k
bit_and-high k a m = let (e, h) = split_at k a in and_high k a (a / 2 ^ k) (a % 2 ^ k) m e h

divided : (k x : ℕ) → x / 2 ^ suc k ≡ x / 2 / 2 ^ k
divided k x =
    let e : 2 ^ suc k ≡ 2 * 2 ^ k = omega (arith, pow-suc 2 k) in
    ap (λ d. x / d) e ∙ sym (div-div-eq-div-mul x 2 (2 ^ k))

-- The high bits of what a mask keeps are what its own high bits keep.
pub bit_and-div : (k a m : ℕ) → bit_and a m / 2 ^ k ≡ bit_and (a / 2 ^ k) (m / 2 ^ k)
bit_and-div zero a m =
    let whole : a / 2 ^ 0 ≡ a = omega arith in
    let full : m / 2 ^ 0 ≡ m = omega arith in sym (ap₂ bit_and whole full ∙ omega arith)
bit_and-div (suc k) a m =
    let half : bit_and a m / 2 ≡ bit_and (a / 2) (m / 2) = omega (arith, bit_and-halves a m) in
    divided k (bit_and a m)
    ∙ ap (λ x. x / 2 ^ k) half
    ∙ bit_and-div k (a / 2) (m / 2)
    ∙ ap₂ bit_and (sym (divided k a)) (sym (divided k m))

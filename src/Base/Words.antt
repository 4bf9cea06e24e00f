-- ===== src/Base/Words.antt =====
-- Machine words as native numbers: a word of `w` bits is a number below `2 ^ w`, a signed word is
-- the two's complement pattern of the integer that it stands for.
use detour_rs.Base.Tests.{ltb, leb, if◌then◌else◌}
use detour_rs.Base.Lists.{length}
use Prim.Native.Nat.{ℕ, zero, suc, ◌+◌, ◌-◌, ◌*◌, ◌/◌, ◌%◌, ◌^◌, ◌<◌}
use mathlib.Core.Path.{◌≡◌, refl, ap}
use mathlib.Core.Bool.{Bool, ◌&&◌}
use mathlib.Core.List.{List, [], ◌∷◌}
use native.Mathlib.Nat.{pow-suc}
use native.Mathlib.Omega.{arith}

-- `negsuc n` is -(n + 1).
pub data ℤ : Type 0 where
  pos : ℕ → ℤ
  negsuc : ℕ → ℤ

abbrev pub pos_part : ℤ → ℕ
pos_part (pos n) = n
pos_part (negsuc n) = 0

abbrev pub neg_part : ℤ → ℕ
neg_part (pos n) = 0
neg_part (negsuc n) = suc n

-- -n
abbrev pub neg : ℕ → ℤ
neg zero = pos 0
neg (suc n) = negsuc n

abbrev pub ltb_ℤ : ℤ → ℤ → Bool
ltb_ℤ a b = ltb (pos_part a + neg_part b) (pos_part b + neg_part a)

abbrev pub leb_ℤ : ℤ → ℤ → Bool
leb_ℤ a b = leb (pos_part a + neg_part b) (pos_part b + neg_part a)

-- `(lo..hi).contains(&x)` on signed values.
abbrev pub in_range_ℤ : ℤ → ℤ → ℤ → Bool
in_range_ℤ lo hi x = leb_ℤ lo x && ltb_ℤ x hi

-- `(lo..hi).contains(&x)` on unsigned values.
abbrev pub in_range : ℕ → ℕ → ℕ → Bool
in_range lo hi x = leb lo x && ltb x hi

-- The integer that a pattern of `m` values (a power of two) stands for.
abbrev pub signed : ℕ → ℕ → ℤ
signed m x = if ltb x (m / 2) then pos x else neg (m - x)

-- a.wrapping_add(b), a.wrapping_sub(b), for words below `m`.
abbrev pub wrapping_add : ℕ → ℕ → ℕ → ℕ
wrapping_add m a b = (a + b) % m

abbrev pub wrapping_sub : ℕ → ℕ → ℕ → ℕ
wrapping_sub m a b = (a + m - b) % m

-- x as u8, x as u32.
abbrev pub u8_mod : ℕ
u8_mod = 0x100

abbrev pub u32_mod : ℕ
u32_mod = 0x1_0000_0000

-- v.to_le_bytes() for a word of n bytes.
unfoldable pub le_bytes : ℕ → ℕ → List ℕ
le_bytes zero v = []
le_bytes (suc n) v = v % 256 ∷ le_bytes n (v / 256)

-- uN::from_le_bytes
unfoldable pub from_le_bytes : List ℕ → ℕ
from_le_bytes [] = 0
from_le_bytes (b ∷ bs) = b + 256 * from_le_bytes bs

pub length-le_bytes : (n v : ℕ) → length (le_bytes n v) ≡ n
unfolding le_bytes
length-le_bytes zero v = refl
length-le_bytes (suc n) v = ap suc (length-le_bytes n (v / 256))

pub from_le_bytes-le_bytes : (n v : ℕ) → v < 256 ^ n → from_le_bytes (le_bytes n v) ≡ v
unfolding le_bytes from_le_bytes
from_le_bytes-le_bytes zero v h = omega arith
from_le_bytes-le_bytes (suc n) v h =
    omega (arith, from_le_bytes-le_bytes n (v / 256) (omega (arith, pow-suc 256 n)))

-- x >> k on a signed word of `m` values, by its pattern.
abbrev pub shift_right_signed : (m x k : ℕ) → ℕ
shift_right_signed m x k = if ltb x (m / 2) then x / 2 ^ k else x / 2 ^ k + (m - m / 2 ^ k)

-- A signed word of `m` values as one of `w` values, where `m` divides `w`.
abbrev pub widen_signed : (m w x : ℕ) → ℕ
widen_signed m w x = if ltb x (m / 2) then x else x + (w - m)

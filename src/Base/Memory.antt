-- ===== src/Base/Memory.antt =====
-- The bytes of the process, by address, with the reads and writes that slices of raw memory make.
use detour_rs.Base.Tests.{ltb, if◌then◌else◌, Bool-cases, le→ltb, ltb→le}
use detour_rs.Base.Lists.{length, get_or}
use detour_rs.Base.Words.{le_bytes, from_le_bytes, from_le_bytes-le_bytes}
use Prim.Native.Nat.{ℕ, zero, suc, ◌+◌, ◌-◌, ◌^◌, ◌/◌, ◌≤◌, ◌<◌}
use mathlib.Core.Path.{◌≡◌, refl, ap, ap₂, ◌∙◌, fun_ext, subst}
use mathlib.Core.Logic.{◌⊎◌, inl, inr}
use mathlib.Core.List.{List, [], ◌∷◌, ◌++◌}
use native.Mathlib.Omega.{arith}

abbrev pub Memory : Type 0
Memory = ℕ → ℕ

-- slice::from_raw_parts(a, n)
unfoldable pub read : Memory → ℕ → ℕ → List ℕ
read m a zero = []
read m a (suc n) = m a ∷ read m (suc a) n

-- The bytes `bs` copied over the memory from address `a` on.
unfoldable pub write : Memory → ℕ → List ℕ → Memory
write m a bs p = if ltb p a then m p else get_or bs (p - a) (m p)

pub length-read : (m : Memory) (a n : ℕ) → length (read m a n) ≡ n
unfolding read
length-read m a zero = refl
length-read m a (suc n) = ap suc (length-read m (suc a) n)

get_or-read : (m : Memory) (a n i : ℕ) → get_or (read m a n) i (m (a + i)) ≡ m (a + i)
unfolding read
get_or-read m a zero i = refl
get_or-read m a (suc n) zero = ap m (omega arith)
get_or-read m a (suc n) (suc i) =
    let e : a + suc i ≡ suc a + i = omega arith in rw e (get_or-read m (suc a) n i)

-- What was read and is written back changes nothing.
pub write-read : (m : Memory) (a n : ℕ) → write m a (read m a n) ≡ m
unfolding write
write-read m a n = fun_ext λ p. elim (Bool-cases (ltb p a)) [
  | inl below ↦ rw below
  | inr above ↦
      let e : a + (p - a) ≡ p = omega (arith, ltb→le p a above) in
      rw above (rw e at (get_or-read m a n (p - a)))
]

get_or-inside :
    (bs cs : List ℕ) (i d : ℕ) → length bs ≡ length cs → get_or cs i (get_or bs i d) ≡ get_or cs i d
get_or-inside [] [] i d h = refl
get_or-inside [] (c ∷ cs) i d h = absurd (omega arith)
get_or-inside (b ∷ bs) [] i d h = absurd (omega arith)
get_or-inside (b ∷ bs) (c ∷ cs) zero d h = refl
get_or-inside (b ∷ bs) (c ∷ cs) (suc i) d h = get_or-inside bs cs i d (omega arith)

-- The second of two writes over the same bytes is the one that counts.
pub write-write :
    (m : Memory) (a : ℕ) (bs cs : List ℕ)
    → length bs ≡ length cs
    → write (write m a bs) a cs ≡ write m a cs
unfolding write
write-write m a bs cs h = fun_ext λ p. ground (arith, get_or-inside bs cs (p - a) (m p) h)

get_or-past : (bs : List ℕ) (i d : ℕ) → length bs ≤ i → get_or bs i d ≡ d
get_or-past [] i d h = refl
get_or-past (b ∷ bs) zero d h = elim h [ ]
get_or-past (b ∷ bs) (suc i) d h = get_or-past bs i d (omega arith)

-- A write leaves all other bytes alone.
pub write_outside :
    (m : Memory) (a : ℕ) (bs : List ℕ) (p : ℕ)
    → (p < a) ⊎ (a + length bs ≤ p)
    → write m a bs p ≡ m p
unfolding write
write_outside m a bs p h = ground (arith, get_or-past bs (p - a) (m p))

get_or_default : (bs : List ℕ) (i d e : ℕ) → i < length bs → get_or bs i d ≡ get_or bs i e
get_or_default [] i d e h = elim h [ ]
get_or_default (b ∷ bs) zero d e h = refl
get_or_default (b ∷ bs) (suc i) d e h = get_or_default bs i d e (omega arith)

write_inside :
    (m : Memory) (a : ℕ) (bs : List ℕ) (i : ℕ)
    → i < length bs
    → write m a bs (a + i) ≡ get_or bs i 0
unfolding write
write_inside m a bs i h =
    let e : a + i - a ≡ i = omega arith in
    rw (le→ltb (a + i) a (omega arith), e) (get_or_default bs i (m (a + i)) 0 h)

read_all :
    (m : Memory) (a : ℕ) (bs : List ℕ)
    → ((i : ℕ) → i < length bs → m (a + i) ≡ get_or bs i 0)
    → read m a (length bs) ≡ bs
unfolding read
read_all m a [] h = refl
read_all m a (b ∷ bs) h =
    ap₂ ◌∷◌ (ap m (omega arith) ∙ h 0 (omega arith)) (read_all m (suc a) bs next)
  where
    next : (i : ℕ) → i < length bs → m (suc a + i) ≡ get_or bs i 0
    next i lt = ap m (omega arith) ∙ h (suc i) (omega arith)

-- What is written is read back.
pub read-write : (m : Memory) (a : ℕ) (bs : List ℕ) → read (write m a bs) a (length bs) ≡ bs
read-write m a bs = read_all (write m a bs) a bs (write_inside m a bs)

-- The memory holds the bytes `bs` from address `a` on.
abbrev pub Holds : Memory → ℕ → List ℕ → Type 0
Holds m a [] = Unit {0}
Holds m a (b ∷ bs) = (m a ≡ b) × Holds m (suc a) bs

pub read-Holds : (m : Memory) (a : ℕ) (bs : List ℕ) → read m a (length bs) ≡ bs → Holds m a bs
unfolding read
read-Holds m a [] h = tt
read-Holds m a (b ∷ bs) h = (cc, read-Holds m (suc a) bs (cc))

pub write-Holds : (m : Memory) (a : ℕ) (bs : List ℕ) → Holds (write m a bs) a bs
write-Holds m a bs = read-Holds (write m a bs) a bs (read-write m a bs)

-- The little-endian word of n bytes at an address.
unfoldable pub word_at : Memory → ℕ → ℕ → ℕ
unfolding read
word_at m p n = from_le_bytes (read m p n)

Holds-read : (m : Memory) (p n v : ℕ) → Holds m p (le_bytes n v) → read m p n ≡ le_bytes n v
unfolding read le_bytes
Holds-read m p zero v h = refl
Holds-read m p (suc n) v h = ap₂ ◌∷◌ h.0 (Holds-read m (suc p) n (v / 256) h.1)

pub Holds-word_at :
    (m : Memory) (p n v : ℕ) → v < 256 ^ n → Holds m p (le_bytes n v) → word_at m p n ≡ v
unfolding word_at
Holds-word_at m p n v lt h = ap from_le_bytes (Holds-read m p n v h) ∙ from_le_bytes-le_bytes n v lt

-- The bytes behind a word that the memory holds.
pub Holds-behind :
    (m : Memory) (p q n v : ℕ) (bs : List ℕ)
    → p + n ≡ q
    → Holds m p (le_bytes n v ++ bs)
    → Holds m p (le_bytes n v) × Holds m q bs
unfolding le_bytes
Holds-behind m p q zero v bs e h =
    let here : p ≡ q = omega arith in (tt, subst (λ a. Holds m a bs) here h)
Holds-behind m p q (suc n) v bs e h =
    let rest = Holds-behind m (suc p) q n (v / 256) bs (omega arith) h.1 in ((h.0, rest.0), rest.1)

pub Holds-append :
    (m : Memory) (p q : ℕ) (xs ys : List ℕ)
    → p + length xs ≡ q
    → Holds m p (xs ++ ys)
    → Holds m p xs × Holds m q ys
Holds-append m p q [] ys e h =
    let here : p ≡ q = omega arith in (tt, subst (λ a. Holds m a ys) here h)
Holds-append m p q (x ∷ xs) ys e h =
    let rest = Holds-append m (suc p) q xs ys (omega arith) h.1 in ((h.0, rest.0), rest.1)

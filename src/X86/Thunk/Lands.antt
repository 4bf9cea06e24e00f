-- ===== src/X86/Thunk/Lands.antt =====
-- Where the relative and the indirect jumps and calls of src/arch/x86/thunk lead, run by the description
-- of the processor in X86/Machine.antt.
use detour_rs.Base.{
  ℕ, suc, ◌+◌, ◌%◌, ◌<◌, ◌≡◌, refl, sym, subst, ap, Bool, true, false, List, some, arith,
  if◌then◌else◌, bit_or, ◌∷◌, ◌++◌,
}
use detour_rs.Base.Words.{wrapping_sub, u32_mod, le_bytes}
use native.Mathlib.Nat.{mod-eq_of_lt}
use detour_rs.Base.Memory.{Holds-behind, Memory, Holds, Holds-word_at}
use detour_rs.Error.{ok, assert, >>=-eq-ok, assert-eq-ok, ok-injective}
use detour_rs.Arch.{x86_64, is_within_range}
use detour_rs.Arch.Range.{is_within_range-x86_64}
use detour_rs.Pic.{generate}
use detour_rs.X86.Defs.{X86Arch, i686, amd64, word_mod}
use detour_rs.X86.Machine.{transfer, jump, call, relative, rel32, indirect}
use detour_rs.X86.Thunk
use detour_rs.X86.Thunk.{calculate_displacement, assert_reachable, jmp_rel32}

amd64_displacement :
    (x s k d : ℕ)
    → s < word_mod amd64
    → d < word_mod amd64
    → x ≡ wrapping_sub (word_mod amd64) d ((s + k) % word_mod amd64)
    → is_within_range x86_64 x ≡ true
    → relative amd64 (s + k) u32_mod (x % u32_mod) ≡ d
amd64_displacement x s k d hs hd e h = ground (arith, is_within_range-x86_64 x h (omega arith))

-- The operand leads from the end of the instruction to the destination.
pub displacement_reaches :
    (a : X86Arch) (s d k op : ℕ)
    → s < word_mod a
    → d < word_mod a
    → calculate_displacement a s d k ≡ ok op
    → (op < u32_mod) × (relative a (s + k) u32_mod op ≡ d)
unfolding calculate_displacement
displacement_reaches i686 s d k op hs hd h = ground arith
displacement_reaches amd64 s d k op hs hd h =
    let x = wrapping_sub (word_mod amd64) d ((s + k) % word_mod amd64) in
    let (u, reach, e) = >>=-eq-ok (assert (is_within_range x86_64 x)) _ h in
    let r : is_within_range x86_64 x ≡ true = assert-eq-ok _ {u = u} reach in
    let op' : x % u32_mod ≡ op = ok-injective e in
    (omega arith, rw (← op') (amd64_displacement x s k d hs hd refl r))

-- The bytes of a relative jump or call, wherever one can be generated.
relative32-code :
    (a : X86Arch) (s d : ℕ) (is_jump : Bool) (code : List ℕ)
    → s < word_mod a
    → d < word_mod a
    → generate (Thunk.relative32 a d is_jump) s ≡ ok code
    → (op : ℕ) × (op < u32_mod)
      × (relative a (s + 5) u32_mod op ≡ d)
      × ((if is_jump then 0xE9 else 0xE8) ∷ le_bytes 4 op ≡ code)
unfolding generate Thunk.relative32
relative32-code a s d is_jump code hs hd h =
    let (op, e, c) = >>=-eq-ok (calculate_displacement a s d 5) _ h in
    let (small, lands) = displacement_reaches a s d 5 op hs hd e in
    (op, small, lands, ok-injective c)

pub jcc_rel32-code :
    (a : X86Arch) (s d c : ℕ) (code : List ℕ)
    → s < word_mod a
    → d < word_mod a
    → generate (Thunk.jcc_rel32 a d c) s ≡ ok code
    → (op : ℕ) × (op < u32_mod)
      × (relative a (s + 6) u32_mod op ≡ d)
      × (0x0F ∷ bit_or 0x80 c ∷ le_bytes 4 op ≡ code)
unfolding generate Thunk.jcc_rel32
jcc_rel32-code a s d c code hs hd h =
    let (op, e, g) = >>=-eq-ok (calculate_displacement a s d 6) _ h in
    let (small, lands) = displacement_reaches a s d 6 op hs hd e in
    (op, small, lands, ok-injective g)

-- What a relative instruction's operand is read as.
pub operand_at :
    (a : X86Arch) (m : Memory) (p next d op : ℕ)
    → op < u32_mod
    → relative a next u32_mod op ≡ d
    → p + 4 ≡ next
    → Holds m p (le_bytes 4 op)
    → rel32 a m p ≡ d
operand_at a m p next d op small lands e held = rw (e, Holds-word_at m p 4 op small held) lands

-- A relative jump, wherever it can be generated, leads to its destination.
pub jmp_rel32-reaches :
    (a : X86Arch) (m : Memory) (s d : ℕ) (code : List ℕ)
    → s < word_mod a
    → d < word_mod a
    → generate (Thunk.jmp_rel32 a d) s ≡ ok code
    → Holds m s code
    → transfer a m s ≡ some (jump d)
unfolding Thunk.jmp_rel32 transfer
jmp_rel32-reaches a m s d code hs hd h held =
    let (op, small, lands, e) = relative32-code a s d true code hs hd h in
    let bytes : Holds m s (0xE9 ∷ le_bytes 4 op) = subst (Holds m s) (sym e) held in
    rw (bytes.0, operand_at a m (suc s) (s + 5) d op small lands (omega arith) bytes.1)

pub call_rel32-reaches :
    (a : X86Arch) (m : Memory) (s d : ℕ) (code : List ℕ)
    → s + 5 < word_mod a
    → d < word_mod a
    → generate (Thunk.call_rel32 a d) s ≡ ok code
    → Holds m s code
    → transfer a m s ≡ some (call d (s + 5))
unfolding Thunk.call_rel32 transfer
call_rel32-reaches a m s d code hs hd h held =
    let (op, small, lands, e) = relative32-code a s d false code (omega arith) hd h in
    let bytes : Holds m s (0xE8 ∷ le_bytes 4 op) = subst (Holds m s) (sym e) held in
    rw (bytes.0, operand_at a m (suc s) (s + 5) d op small lands (omega arith) bytes.1)
      (ap (λ b. some (call d b)) (mod-eq_of_lt hs))

-- An indirect operand reads the address that stands `k` bytes behind it.
indirect_at :
    (m : Memory) (p q k v : ℕ)
    → k < 256
    → p + 4 + k ≡ q
    → q < word_mod amd64
    → v < word_mod amd64
    → Holds m p (le_bytes 4 k)
    → Holds m q (le_bytes 8 v)
    → indirect m p ≡ v
indirect_at m p q k v small e fits lt held there =
    let operand = Holds-word_at m p 4 k (omega arith) held in
    let lands : rel32 amd64 m p ≡ q = rw operand (ground arith) in
    rw lands (Holds-word_at m q 8 v lt there)

pub jmp_abs-reaches :
    (m : Memory) (s d : ℕ)
    → s + 14 < word_mod amd64
    → d < word_mod amd64
    → Holds m s (0xFF ∷ 0x25 ∷ le_bytes 4 0 ++ le_bytes 8 d)
    → transfer amd64 m s ≡ some (jump d)
unfolding transfer
jmp_abs-reaches m s d hs hd held =
    let (operand, address) = Holds-behind m (suc (suc s)) (s + 6) 4 0 _ (omega arith) held.1.1 in
    rw (held.0, held.1.0)
      (ap (λ t. some (jump t))
        (indirect_at m (suc (suc s)) (s + 6) 0 d (omega arith) (omega arith) (omega arith) hd
          operand address))

pub call_abs-reaches :
    (m : Memory) (s d : ℕ)
    → s + 16 < word_mod amd64
    → d < word_mod amd64
    → Holds m s (0xFF ∷ 0x15 ∷ le_bytes 4 2 ++ 0xEB ∷ 0x08 ∷ le_bytes 8 d)
    → (transfer amd64 m s ≡ some (call d (s + 6)))
      × (transfer amd64 m (s + 6) ≡ some (jump (s + 16)))
unfolding transfer
call_abs-reaches m s d hs hd held =
    let (operand, rest) = Holds-behind m (suc (suc s)) (s + 6) 4 2 _ (omega arith) held.1.1 in
    let target : indirect m (suc (suc s)) ≡ d =
      indirect_at m (suc (suc s)) (suc (suc (s + 6))) 2 d (omega arith) (omega arith) (omega arith)
        hd operand rest.1.1 in
    let back : (suc s + 5) % word_mod amd64 ≡ s + 6 = omega arith in
    let end : (suc (suc (s + 6)) + 8) % word_mod amd64 ≡ s + 16 = omega arith in
    (rw (held.0, held.1.0, target, back), rw (rest.0, rest.1.0, end))

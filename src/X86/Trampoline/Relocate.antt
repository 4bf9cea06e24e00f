-- ===== src/X86/Trampoline/Relocate.antt =====
-- src/arch/x86/trampoline/mod.rs moves an instruction with a RIP-relative operand: the copy refers
-- to the address that the original refers to.
use detour_rs.Base.{
  ℕ, ◌+◌, ◌-◌, ◌%◌, ◌≤◌, ◌<◌, ◌≡◌, refl, sym, subst, ap, ◌∙◌, ◌⊎◌, inl, inr, true, List, ◌++◌,
  length, take, arith, leb, Bool-cases, leb→le, length-append, length-take, drop, take-append,
  drop-append,
}
use detour_rs.Base.Words.{
  in_range_ℤ, signed, neg, pos, wrapping_sub, wrapping_add, le_bytes, from_le_bytes,
  from_le_bytes-le_bytes, u32_mod, length-le_bytes,
}
use detour_rs.Error.{ok, assert, >>=-eq-ok, ok-injective, assert-eq-ok}
use detour_rs.Arch.{x86_64, is_within_range}
use detour_rs.Arch.Range.{is_within_range-x86_64}
use detour_rs.Pic.{Thunk, generate}
use detour_rs.X86.Defs.{amd64, word_mod}
use detour_rs.X86.Machine.{relative}
use detour_rs.X86.Disasm.{Instruction}
use detour_rs.X86.Trampoline.{Builder, adjust_displacement, handle_rip_relative_instruction}

-- The code that the closure generates at an address.
adjust_displacement-code :
    (ip displacement offset : ℕ) (bytes code : List ℕ)
    → adjust_displacement amd64 ip displacement bytes offset ≡ ok code
    → let x =
        wrapping_add (word_mod amd64) (wrapping_sub (word_mod amd64) ip offset) displacement in
      (is_within_range x86_64 x ≡ true)
      × (4 ≤ length bytes)
      × (take (length bytes - 4) bytes ++ le_bytes 4 (x % u32_mod) ≡ code)
unfolding adjust_displacement
adjust_displacement-code ip displacement offset bytes code h =
    let x = wrapping_add (word_mod amd64) (wrapping_sub (word_mod amd64) ip offset) displacement in
    let (u, reach, rest) = >>=-eq-ok (assert (is_within_range x86_64 x)) _ h in
    let (v, room, done) = >>=-eq-ok (assert (leb 4 (length bytes))) _ rest in
    (
      assert-eq-ok (is_within_range x86_64 x) {u = u} reach,
      leb→le 4 (length bytes) (assert-eq-ok (leb 4 (length bytes)) {u = v} room),
      ok-injective done,
    )

-- The arithmetic of the move: the new operand leads from the end of the copy to the old target.
moved_lands :
    (ip len target offset : ℕ)
    → ip < word_mod amd64
    → len < 16
    → target < word_mod amd64
    → offset < word_mod amd64
    → let d = wrapping_sub (word_mod amd64) (wrapping_sub (word_mod amd64) target ip) len in
      let x = wrapping_add (word_mod amd64) (wrapping_sub (word_mod amd64) ip offset) d in
      is_within_range x86_64 x ≡ true → relative amd64 (offset + len) u32_mod (x % u32_mod) ≡ target
moved_lands ip len target offset hi hl ht ho h =
    let d = wrapping_sub (word_mod amd64) (wrapping_sub (word_mod amd64) target ip) len in
    let x = wrapping_add (word_mod amd64) (wrapping_sub (word_mod amd64) ip offset) d in
    ground (arith, is_within_range-x86_64 x h (omega arith))

-- A displacement that the code takes for one inside the prolog points there.
inside_lands :
    (ip len target start total : ℕ)
    → ip + len ≡ start + total
    → start + total < word_mod amd64
    → total < 0x8000_0000
    → target < word_mod amd64
    → in_range_ℤ (neg total) (pos 0) (
        signed
          (word_mod amd64)
          (wrapping_sub (word_mod amd64) (wrapping_sub (word_mod amd64) target ip) len))
      ≡ true
    → (start ≤ target) × (target < start + total)
inside_lands ip len target start total e hi small ht h = ground arith

-- The address that the operand of an instruction refers to, by the bytes of the instruction and its
-- address: the displacement is the four bytes from `at` on, and counts from the instruction's end.
abbrev pub operand : (at address : ℕ) → List ℕ → ℕ
operand at address bytes =
    relative amd64 (address + length bytes) u32_mod (from_le_bytes (take 4 (drop at bytes)))

-- What the copy of an instruction with a RIP-relative operand is, at an address: the same bytes,
-- where the operand lies among the bytes that are copied, or else the same instruction up to its
-- displacement, and its operand refers to what that of the instruction refers to.
abbrev pub Refers :
    Builder → Instruction → (at : ℕ) → List ℕ → (target offset : ℕ) → List ℕ → Type 0
Refers b i at bytes target offset code =
    ((code ≡ bytes) × (b.target ≤ target) × (target < b.target + b.total_bytes_disassembled))
    ⊎ ((length code ≡ i.len)
        × (take at code ≡ take at bytes)
        × (operand at offset code ≡ operand at i.ip bytes))

take-le_bytes : (w : ℕ) → take 4 (le_bytes 4 w) ≡ le_bytes 4 w
unfolding le_bytes
take-le_bytes w = refl

-- An instruction that ends with its displacement.
operand-last :
    (at offset w : ℕ) (front : List ℕ)
    → length front ≡ at
    → w < u32_mod
    → operand at offset (front ++ le_bytes 4 w) ≡ relative amd64 (offset + (at + 4)) u32_mod w
operand-last at offset w front sized lt =
    let size : length (front ++ le_bytes 4 w) ≡ at + 4 =
      omega (arith, length-append front (le_bytes 4 w), length-le_bytes 4 w) in
    let last = ap (take 4) (drop-append at front (le_bytes 4 w) sized) ∙ take-le_bytes w in
    let value = ap from_le_bytes last ∙ from_le_bytes-le_bytes 4 w (omega arith) in
    ap
      (λ n.
        relative amd64 (offset + n) u32_mod
          (from_le_bytes (take 4 (drop at (front ++ le_bytes 4 w)))))
      size
    ∙ ap (relative amd64 (offset + (at + 4)) u32_mod) value

moved-Refers :
    (b : Builder) (i : Instruction) (at : ℕ) (bytes : List ℕ) (target offset : ℕ) (code : List ℕ)
    → at + 4 ≡ i.len
    → operand at i.ip bytes ≡ target
    → i.ip + i.len < word_mod amd64
    → i.len < 16
    → target < word_mod amd64
    → offset < word_mod amd64
    → length bytes ≡ i.len
    → adjust_displacement amd64 i.ip
        (wrapping_sub (word_mod amd64) (wrapping_sub (word_mod amd64) target i.ip) i.len)
        bytes
        offset
      ≡ ok code
    → Refers b i at bytes target offset code
moved-Refers b i at bytes target offset code last refers hi hl ht ho sized h =
    let d = wrapping_sub (word_mod amd64) (wrapping_sub (word_mod amd64) target i.ip) i.len in
    let x = wrapping_add (word_mod amd64) (wrapping_sub (word_mod amd64) i.ip offset) d in
    let (reach, room, e) = adjust_displacement-code i.ip d offset bytes code h in
    let whole = length-append (take at bytes) (le_bytes 4 (x % u32_mod)) in
    let n : length bytes - 4 ≡ at = omega arith in
    let made : take at bytes ++ le_bytes 4 (x % u32_mod) ≡ code =
      subst (λ k. take k bytes ++ le_bytes 4 (x % u32_mod) ≡ code) n e in
    let sized_front : length (take at bytes) ≡ at = length-take at bytes (omega arith) in
    let lands = moved_lands i.ip i.len target offset (omega arith) hl ht ho reach in
    inr (
      sym (ap length made) ∙ whole ∙ omega (arith, sized_front, length-le_bytes 4 (x % u32_mod)),
      sym (ap (take at) made) ∙ take-append at (take at bytes) _ sized_front,
      sym (ap (operand at offset) made)
          ∙ operand-last at offset (x % u32_mod) (take at bytes) sized_front (omega arith)
          ∙ ap (λ k. relative amd64 (offset + k) u32_mod (x % u32_mod)) last
          ∙ lands
          ∙ sym refers,
    )

-- The code that replaces an instruction with a RIP-relative operand, wherever it can be generated, is
-- the same instruction up to its displacement and refers to the address that the original refers to,
-- or it is a plain copy whose operand lies in the prolog. The displacement is the last four bytes of
-- the instruction, with no immediate behind it, and the disassembler's target is what these bytes refer
-- to; the instruction ends where the disassembled bytes end, at an address, and has less than 16
-- bytes, its operand and the new place are addresses, and the prolog has less than 2 GB.
pub rip_relative-Refers :
    (b b' : Builder) (i : Instruction) (at : ℕ) (bytes code : List ℕ) (target offset : ℕ)
    (t : Thunk)
    → at + 4 ≡ i.len
    → operand at i.ip bytes ≡ target
    → i.ip + i.len ≡ b.target + b.total_bytes_disassembled
    → i.ip + i.len < word_mod amd64
    → b.total_bytes_disassembled < 0x8000_0000
    → i.len < 16
    → length bytes ≡ i.len
    → target < word_mod amd64
    → offset < word_mod amd64
    → handle_rip_relative_instruction amd64 b i bytes target ≡ ok (b', t)
    → generate t offset ≡ ok code
    → Refers b i at bytes target offset code
unfolding handle_rip_relative_instruction generate
rip_relative-Refers b b' i at bytes code target offset t last refers behind hi small hl sized ht ho
      h g =
    let d = wrapping_sub (word_mod amd64) (wrapping_sub (word_mod amd64) target i.ip) i.len in
    elim (Bool-cases
      (in_range_ℤ (neg b.total_bytes_disassembled) (pos 0) (signed (word_mod amd64) d))) [
        | inl inside ↦
            let same = ap (λ p. p.1) (ok-injective (simp inside at h)) in
            let copied : ok bytes ≡ ok code =
              subst (λ u. generate u offset ≡ ok code) (sym same) g in
            let (lo, up) =
              inside_lands i.ip i.len target b.target b.total_bytes_disassembled behind
                (omega arith) small ht inside in
            inl (sym (ok-injective copied), lo, up)
        | inr outside ↦
            let same = ap (λ p. p.1) (ok-injective (simp outside at h)) in
            let moved = subst (λ u. generate u offset ≡ ok code) (sym same) g in
            moved-Refers b i at bytes target offset code last refers hi hl ht ho sized moved
      ]

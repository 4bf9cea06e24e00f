-- ===== src/Pic/Emit.antt =====
-- What `emit` promises to the code that places thunks: lengths, addresses and no panic.
use detour_rs.Base.{
  ℕ, ◌+◌, ◌%◌, ◌<◌, ◌≡◌, refl, sym, ap, ◌∙◌, List, [], ◌∷◌, ◌++◌, length, length-append, ◌==◌,
  arith, All, inl, inr, Bool-cases, true,
}
use detour_rs.Error.{ok, assert, ◌>>=◌, ◌>>◌, >>=-eq-ok, assert-eq-ok, ok-injective, Result-cases}
use detour_rs.Arch.{TargetArch, usize_mod}
use detour_rs.Pic.{Thunk, CodeEmitter, generate, len, new, add_thunk, total_len, emit_loop, emit}
use detour_rs.Arch.Range.{wrapped-lt}
use native.Mathlib.Nat.{mod-add-mod, zero-add}
use mathlib.Core.List.{foldl}

abbrev sum_len : List Thunk → ℕ
sum_len [] = 0
sum_len (t ∷ ts) = len t + sum_len ts

foldl-sum_len : (ts : List Thunk) (n : ℕ) → foldl (λ sum t. sum + len t) n ts ≡ n + sum_len ts
foldl-sum_len [] n = omega arith
foldl-sum_len (t ∷ ts) n = foldl-sum_len ts (n + len t) ∙ omega arith

-- What one round of the loop went through.
emit_loop_round :
    (a : TargetArch) (t : Thunk) (ts : List Thunk) (base : ℕ) (result code : List ℕ)
    → emit_loop a (t ∷ ts) base result ≡ ok code
    → (c : List ℕ) × (generate t base ≡ ok c)
      × (length c ≡ len t)
      × (emit_loop a ts ((base + len t) % usize_mod a) (result ++ c) ≡ ok code)
unfolding emit_loop
emit_loop_round a t ts base result code h =
    let (c, g, rest) = >>=-eq-ok (generate t base) _ h in
    let (u, same, more) = >>=-eq-ok (assert (length c == len t)) _ rest in
    let sized : (length c == len t) ≡ true = assert-eq-ok (length c == len t) {u = u} same in
    (c, g, ground arith, more)

emit_loop-length :
    (a : TargetArch) (ts : List Thunk) (base : ℕ) (result code : List ℕ)
    → emit_loop a ts base result ≡ ok code
    → length code ≡ length result + sum_len ts
emit_loop-length a [] base result code h = unfold emit_loop in ground arith
emit_loop-length a (t ∷ ts) base result code h =
    let (c, g, sized, more) = emit_loop_round a t ts base result code h in
    omega (arith, emit_loop-length a ts _ _ code more, length-append result c)

-- The code that is emitted is as long as the emitter says.
pub length-emit :
    (a : TargetArch) (e : CodeEmitter) (base : ℕ) (code : List ℕ)
    → emit a e base ≡ ok code
    → length code ≡ total_len e
unfolding emit total_len
length-emit a e base code h =
    emit_loop-length a e.thunks base [] code h ∙ sym (foldl-sum_len e.thunks 0)

base_moves :
    (a : TargetArch) (t : Thunk) (ts : List Thunk) (base : ℕ)
    → ((base + len t) % usize_mod a + sum_len ts) % usize_mod a
      ≡ (base + (len t + sum_len ts)) % usize_mod a
base_moves a t ts base =
    mod-add-mod (base + len t) (usize_mod a) (sum_len ts) ∙ ap (λ n. n % usize_mod a) (omega arith)

emit_loop-append :
    (a : TargetArch) (ts us : List Thunk) (base : ℕ) (result : List ℕ)
    → base < usize_mod a
    → emit_loop a (ts ++ us) base result ≡ (
        emit_loop a ts base result >>= λ code.
        emit_loop a us ((base + sum_len ts) % usize_mod a) code)
unfolding emit_loop
emit_loop-append a [] us base result h = ap (λ b. emit_loop a us b result) (grind arith)
emit_loop-append a (t ∷ ts) us base result h = elim (Result-cases (generate t base)) [
  | inl (c, g) ↦
      rw (g, emit_loop)
        (elim (Bool-cases (length c == len t)) [
          | inl same ↦ rw same (
              rw (base_moves a t ts base) at (
                emit_loop-append a ts us ((base + len t) % usize_mod a) (result ++ c)
                  (wrapped-lt a (base + len t))))
          | inr other ↦ rw other
        ])
  | inr (inl (x, g)) ↦ rw (g, emit_loop)
  | inr (inr g) ↦ rw (g, emit_loop)
]

-- From a base that is an address on, a thunk that is added last is generated at the address behind all that was there before, and its
-- code follows theirs; a thunk whose code has another length than it says is a panic.
pub emit-add_thunk :
    (a : TargetArch) (e : CodeEmitter) (t : Thunk) (base : ℕ)
    → base < usize_mod a
    → emit a (add_thunk e t) base ≡ (do
      code ← emit a e base
      c ← generate t ((base + total_len e) % usize_mod a)
      assert (length c == len t)
      ok (code ++ c))
unfolding emit add_thunk total_len emit_loop
emit-add_thunk a e t base h =
    rw (foldl-sum_len e.thunks 0, zero-add) (emit_loop-append a e.thunks (t ∷ []) base [] h)

pub total_len-add_thunk :
    (e : CodeEmitter) (t : Thunk) → total_len (add_thunk e t) ≡ total_len e + len t
unfolding total_len add_thunk
total_len-add_thunk e t = added e.thunks 0
  where
    added :
        (ts : List Thunk) (n : ℕ)
        → foldl (λ sum u. sum + len u) n (ts ++ t ∷ []) ≡ foldl (λ sum u. sum + len u) n ts + len t
    added [] n = refl
    added (u ∷ us) n = added us (n + len u)

-- The code of an emitter with one thunk, and with two.
pub emit-single :
    (a : TargetArch) (t : Thunk) (base : ℕ) (code : List ℕ)
    → emit a (add_thunk new t) base ≡ ok code
    → generate t base ≡ ok code
unfolding emit add_thunk new emit_loop
emit-single a t base code h =
    let (c, g, sized, more) = emit_loop_round a t [] base [] code h in g ∙ more

pub emit-double :
    (a : TargetArch) (t u : Thunk) (base : ℕ) (code : List ℕ)
    → emit a (add_thunk (add_thunk new t) u) base ≡ ok code
    → (c : List ℕ) × (d : List ℕ) × (generate t base ≡ ok c)
      × (generate u ((base + len t) % usize_mod a) ≡ ok d)
      × (c ++ d ≡ code)
      × (length c ≡ len t)
unfolding emit add_thunk new emit_loop
emit-double a t u base code h =
    let (c, g, sized, more) = emit_loop_round a t (u ∷ []) base [] code h in
    let (d, k, sized', end) = emit_loop_round a u [] _ c code more in
    (c, d, g, k, ok-injective end, sized)

-- A thunk that keeps its promise at an address: it generates code there of the length it says.
abbrev pub Generates : Thunk → ℕ → Type 0
Generates t address = (c : List ℕ) × (generate t address ≡ ok c) × (length c ≡ len t)

emit_loop_total :
    (a : TargetArch) (ts : List Thunk) (base : ℕ) (result : List ℕ)
    → ((address : ℕ) → All (λ t. Generates t address) ts)
    → (code : List ℕ) × (emit_loop a ts base result ≡ ok code)
unfolding emit_loop
emit_loop_total a [] base result h = (result, refl)
emit_loop_total a (t ∷ ts) base result h =
    let (c, g, sized) = (h base).0 in
    let same : (length c == len t) ≡ true = ground arith in
    rw (g, emit_loop, same)
      (emit_loop_total a ts ((base + len t) % usize_mod a) (result ++ c) (λ address. (h address).1))

-- An emitter whose thunks generate code of the length they say, at every address, never panics.
pub emit_total :
    (a : TargetArch) (e : CodeEmitter) (base : ℕ)
    → ((address : ℕ) → All (λ t. Generates t address) e.thunks)
    → (code : List ℕ) × (emit a e base ≡ ok code) × (length code ≡ total_len e)
unfolding emit
emit_total a e base h =
    let (code, done) = emit_loop_total a e.thunks base [] h in
    (code, done, length-emit a e base code done)

-- ===== src/Detour/Made.antt =====
-- What `Detour::new` and `allocate_pic` of src/arch leave behind when they succeed.
use detour_rs.Base.{
  ℕ, ◌+◌, ◌≤◌, ◌≡◌, refl, sym, subst, ap, ◌∙◌, ◌⊎◌, inl, inr, true, false, Option, none, some, List,
  [], ◌∷◌, length, ◌==◌, Bool-cases, arith, zero, suc,
}
use detour_rs.Base.Memory.{Memory, read, write, write_outside, Holds, write-Holds}
use detour_rs.Error.{Result, ok, err, panic, assert, >>=-eq-ok, assert-eq-ok, ok-injective, ◌>>=◌}
use mathlib.Core.Path.{ap₂}
use detour_rs.Arch.{TargetArch}
use detour_rs.Arch.Patch.{Slice, copy_from_slice}
use detour_rs.Pic.{CodeEmitter, emit, total_len}
use detour_rs.Detour.{
  Architecture, System, World, Detour, ◌>>+◌, or_drop, drop_memory, drop_relay, allocated, written,
  allocate_pic, new_relay, destination, assemble, new, check_executable,
}

-- Two slices without a common byte.
abbrev pub Apart : Slice → Slice → Type 0
Apart r s = (r.as_ptr + r.len ≤ s.as_ptr) ⊎ (s.as_ptr + s.len ≤ r.as_ptr)

pub read_outside :
    (m : Memory) (p n q : ℕ) (bs : List ℕ)
    → (q + length bs ≤ p) ⊎ (p + n ≤ q)
    → read (write m q bs) p n ≡ read m p n
unfolding read
read_outside m p zero q bs h = refl
read_outside m p (suc n) q bs h =
    ap₂ ◌∷◌ (write_outside m q bs p (omega arith)) (read_outside m (suc p) n q bs (omega arith))

pub Holds-Apart :
    (m : Memory) (p : ℕ) (code : List ℕ) (q : ℕ) (bs : List ℕ)
    → Apart (record { as_ptr = q; len = length bs }) (record { as_ptr = p; len = length code })
    → Holds m p code
    → Holds (write m q bs) p code
Holds-Apart m p [] q bs h held = tt
Holds-Apart m p (c ∷ cs) q bs h held = (
  write_outside m q bs p (omega arith) ∙ held.0,
  Holds-Apart m (suc p) cs q bs (omega arith) held.1,
)

succeeded :
    {S A B : Type 0} (r : Result A × S) (f : A → S → Result B × S) (b : B) (s' : S)
    → (r >>+ f) ≡ (ok b, s')
    → (a : A) × (s : S) × (r ≡ (ok a, s)) × (f a s ≡ (ok b, s'))
succeeded (ok a, s) f b s' h = (a, s, refl, h)
succeeded (err e, s) f b s' h = cc
succeeded (panic, s) f b s' h = cc

kept :
    {S A : Type 0} (r : Result A × S) (drop : S → S) (a : A) (s : S)
    → or_drop r drop ≡ (ok a, s)
    → r ≡ (ok a, s)
kept (ok b, t) drop a s h = h
kept (err e, t) drop a s h = cc
kept (panic, t) drop a s h = cc

module _ (system : System) where
  open system use {Pool, allocate}

  allocated_memory :
      (r : Result (Slice × Pool)) (w w' : World Pool) (slice : Slice)
      → allocated system r w ≡ (ok slice, w')
      → w'.memory ≡ w.memory
  allocated_memory (ok (s, pool)) w w' slice h = sym (ap (λ r. r.1.memory) h)
  allocated_memory (err e) w w' slice h = cc
  allocated_memory panic w w' slice h = cc

  written_memory :
      (r : Result Memory) (s slice : Slice) (w w' : World Pool)
      → written system r s w ≡ (ok slice, w')
      → (r ≡ ok w'.memory) × (s ≡ slice)
  written_memory (ok m) s slice w w' h =
      (ap (λ r. ok (r.1.memory)) h, ok-injective (ap (λ r. r.0) h))
  written_memory (err e) s slice w w' h = cc
  written_memory panic s slice w w' h = cc

  -- Code that was put into executable memory is there, generated for its address, and fills it.
  pub allocate_pic_lem :
      (arch : TargetArch) (emitter : CodeEmitter) (origin : ℕ) (w w' : World Pool) (slice : Slice)
      → allocate_pic system arch emitter origin w ≡ (ok slice, w')
      → (code : List ℕ) × (emit arch emitter slice.as_ptr ≡ ok code)
        × (slice.len ≡ length code)
        × (w'.memory ≡ write w.memory slice.as_ptr code)
  unfolding allocate_pic copy_from_slice
  allocate_pic_lem arch emitter origin w w' slice h =
      let (s, w₁, got, rest) =
        succeeded (allocated system (allocate w.pool origin (total_len emitter)) w) _ slice w' h in
      let (copied, same) = written_memory _ s slice w₁ w' (
        kept (written system (emit arch emitter s.as_ptr >>= copy_from_slice w₁.memory s) s w₁)
          (drop_memory system s) slice w' rest) in
      let (code, emitted, put) = >>=-eq-ok (emit arch emitter s.as_ptr) _ copied in
      let (u, fits, done) = >>=-eq-ok (assert (s.len == length code)) _ put in
      let sized : (s.len == length code) ≡ true =
        assert-eq-ok (s.len == length code) {u = u} fits in
      let filled : s.len ≡ length code = ground arith in
      (
        code,
        subst (λ t. emit arch emitter t.as_ptr ≡ ok code) same emitted,
        ap (λ t. t.len) (sym same) ∙ filled,
        sym (ok-injective done)
            ∙ ap (λ k. write k s.as_ptr code) (allocated_memory _ w w₁ s got)
            ∙ ap (λ t. write w.memory t.as_ptr code) same,
      )

  module _ (a : Architecture) where
    open a use {
      arch, Trampoline, prolog_margin, new_trampoline, prolog_size, emitter, relay_builder,
      new_patcher,
    }

    -- A relay that was made is in memory, for the emitter that the architecture gave.
    abbrev pub IsRelay : (target detour : ℕ) → Memory → Option Slice → Type 0
    IsRelay target detour m none = relay_builder target detour ≡ ok none
    IsRelay target detour m (some slice) =
        (builder : CodeEmitter) × (code : List ℕ) × (relay_builder target detour
          ≡ ok (some builder))
        × (emit arch builder slice.as_ptr ≡ ok code)
        × (slice.len ≡ length code)
        × Holds m slice.as_ptr code

    -- What a detour was made of, with `m` the memory that the patcher saw.
    pub record IsMade (target detour : ℕ) (d : Detour) (m m' : Memory) : Type 0 where
      pub off : d.enabled ≡ false
      pub relay : IsRelay target detour m d.relay
      pub size : ℕ
      pub patched : new_patcher m target (destination system a d.relay detour) size ≡ ok d.patcher
      pub code : List ℕ
      pub fills : d.trampoline.len ≡ length code
      pub trampoline_written : m' ≡ write m d.trampoline.as_ptr code

    new_relay-IsRelay :
        (builder : Option CodeEmitter) (target detour : ℕ) (r : Option Slice) (w w' : World Pool)
        → relay_builder target detour ≡ ok builder
        → new_relay system a builder target w ≡ (ok r, w')
        → IsRelay target detour w'.memory r
    new_relay-IsRelay none target detour r w w' b h =
        subst (IsRelay target detour w'.memory) (ok-injective (ap (λ x. x.0) h)) b
    new_relay-IsRelay (some code) target detour r w w' b h =
        let (slice, w₁, got, done) = succeeded (allocate_pic system arch code target w) _ r w' h in
        let (bytes, emitted, fills, put) = allocate_pic_lem arch code target w w₁ slice got in
        let held : Holds w₁.memory slice.as_ptr bytes =
          rw put (write-Holds w.memory slice.as_ptr bytes) in
        let there : IsRelay target detour w₁.memory (some slice) =
          (code, bytes, b, emitted, fills, held) in
        subst (IsRelay target detour w'.memory) (ok-injective (ap (λ x. x.0) done))
          (subst (λ v. IsRelay target detour v.memory (some slice)) (ap (λ x. x.1) done) there)

    assembled :
        (trampoline : Trampoline) (target detour : ℕ) (relay : Option Slice) (w w' : World Pool)
        (d : Detour)
        → IsRelay target detour w.memory relay
        → assemble system a trampoline target detour relay w ≡ (ok d, w')
        → IsMade target detour d w.memory w'.memory
    unfolding assemble
    assembled trampoline target detour relay w w' d made h =
        let (patcher, w₁, patched, h₁) =
          succeeded
            (
              new_patcher w.memory target (destination system a relay detour)
                  (prolog_size trampoline),
              w,
            )
            _ d w' (kept _ (drop_relay system relay) d w' h) in
        let (slice, w₂, got, done) =
          succeeded (allocate_pic system arch (emitter trampoline) target w₁) _ d w' h₁ in
        let (code, emitted, fills, put) =
          allocate_pic_lem arch (emitter trampoline) target w₁ w₂ slice got in
        let same = ap (λ x. x.1.memory) patched in
        subst (λ k. IsMade target detour k w.memory w'.memory) (ok-injective (ap (λ x. x.0) done))
          (record {
            off = refl;
            relay = made;
            size = prolog_size trampoline;
            patched = ap (λ x. x.0) patched;
            code = code;
            fills = fills;
            trampoline_written =
                sym (ap (λ x. x.1.memory) done)
                ∙ put
                ∙ ap (λ k. write k slice.as_ptr code) (sym same);
          })

    -- Everything about a detour that `new` made comes from the parts that it was made of.
    pub new-IsMade :
        (target detour : ℕ) (w w' : World Pool) (d : Detour)
        → new system a target detour w ≡ (ok d, w')
        → (m : Memory) × IsMade target detour d m w'.memory
    unfolding new
    new-IsMade target detour w w' d h = elim (Bool-cases (target == detour)) [
      | inl equal ↦ let h' = rw equal at h in cc
      | inr apart ↦
          let (_, w₁, _, h₁) =
            succeeded (check_executable system target detour, w) _ d w' (rw apart at h) in
          let (trampoline, w₂, _, h₂) =
            succeeded (new_trampoline w₁.memory target (prolog_margin target), w₁) _ d w' h₁ in
          let (builder, w₃, b, h₃) = succeeded (relay_builder target detour, w₂) _ d w' h₂ in
          let (relay, w₄, r, h₄) =
            succeeded (new_relay system a builder target w₃)
              (assemble system a trampoline target detour) d w' h₃ in
          let known = ap (λ x. x.0) b in
          (
            w₄.memory,
            assembled trampoline target detour relay w₄ w' d
                (new_relay-IsRelay builder target detour relay w₃ w₄ known r) h₄,
          )
    ]

-- ===== src/Arch/Patch/Made.antt =====
-- What the patchers of src/arch/aarch64, src/arch/arm and src/arch/riscv promise once they are made:
-- their constructors have the same text, around bytes that differ.
use detour_rs.Base.{
  ℕ, ◌≡◌, sym, subst, ap, ◌∙◌, inl, inr, Bool, List, length, Bool-cases, if◌then◌else◌,
}
use detour_rs.Base.Memory.{Memory, read, length-read, Holds, write-Holds}
use detour_rs.Base.{true}
use detour_rs.Error.{Result, ok, err, no_patch_area, >>=-eq-ok, ok-injective, ◌>>=◌}
use detour_rs.Arch.Patch.{Slice, Patcher, IsSized, IsOriginal, toggle, toggle_lem}

-- A patch area is the same wherever one is found.
pub area-eq :
    (long padding : Bool) (place area : Slice)
    → (if long then ok place else if padding then ok place else err no_patch_area) ≡ ok area
    → area ≡ place
area-eq long padding place area h = elim (Bool-cases long) [
  | inl fits ↦ sym (ok-injective (rw fits at h))
  | inr short ↦ elim (Bool-cases padding) [
    | inl pads ↦ sym (ok-injective (rw (short, pads) at h))
    | inr other ↦ let c : err no_patch_area ≡ ok area = rw (short, other) at h in cc
  ]
]

-- What holds of a patcher of k bytes at `target`.
abbrev pub Made : Memory → (target k : ℕ) → List ℕ → Patcher → Type 0
Made m target k bytes p =
    (p.area ≡ record { as_ptr = target; len = k })
    × IsSized p
    × IsOriginal m p
    × (p.detour_prolog ≡ bytes)

pub make-Made :
    (m : Memory) (target k : ℕ) (found : Result Slice) (bytes : ℕ → List ℕ) (p : Patcher)
    → ((area : Slice) → found ≡ ok area → area ≡ record { as_ptr = target; len = k })
    → length (bytes target) ≡ k
    → (found >>= λ area. ok (record {
      area = area;
      original_prolog = read m area.as_ptr area.len;
      detour_prolog = bytes area.as_ptr;
    }))
      ≡ ok p
    → Made m target k (bytes target) p
make-Made m target k found bytes p place sized h =
    let (area, here, done) = >>=-eq-ok found _ h in
    let e = ok-injective done in
    let same : p.area ≡ area = sym (ap (λ q. q.area) e) in
    let at_target = same ∙ place area here in
    let branch : p.detour_prolog ≡ bytes target =
      sym (ap (λ q. q.detour_prolog) e) ∙ ap (λ s. bytes s.as_ptr) (place area here) in
    let original : IsOriginal m p = rw same (ap (λ q. q.original_prolog) e) in
    (
      at_target,
      record {
        original_fits = sym (length-read m p.area.as_ptr p.area.len) ∙ ap length original;
        detour_fits = ap (λ s. s.len) at_target ∙ sym sized ∙ sym (ap length branch);
      },
      original,
      branch,
    )

-- A patcher that is switched on later, in memory `n`, puts its bytes at the target.
pub toggle-Holds :
    (m n m' : Memory) (target k : ℕ) (bytes : List ℕ) (p : Patcher)
    → Made m target k bytes p
    → toggle n p true ≡ ok m'
    → Holds m' target bytes
toggle-Holds m n m' target k bytes p (place, sized, original, branch) h =
    let same = ok-injective (sym (toggle_lem n p true sized) ∙ h) in
    let held = write-Holds n p.area.as_ptr p.detour_prolog in
    subst (λ x. Holds m' target x) branch
      (subst (λ s. Holds m' s.as_ptr p.detour_prolog) place
        (subst (λ x. Holds x p.area.as_ptr p.detour_prolog) same held))

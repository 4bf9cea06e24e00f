-- ===== src/Arch/Patch.antt =====
-- The `Patcher` of src/arch/*/patcher.rs, whose fields and whose `toggle` are the same on every
-- architecture. A slice of the patched memory is its address and its length; its bytes are those of
-- the memory that a function takes.
pub mod Made
use detour_rs.Base.{
  ℕ, ◌+◌, ◌≤◌, ◌<◌, ◌≡◌, ap, ◌∙◌, ◌⊎◌, Bool, true, false, List, length, ◌==◌, if◌then◌else◌, arith,
}
use detour_rs.Base.Memory.{Memory, read, write, write-read, write-write, write_outside}
use detour_rs.Error.{Result, ok, assert, ◌>>=◌, ◌>>◌, >>=-eq-ok, assert-eq-ok, ok-injective}

-- &'static mut [u8]
pub record Slice : Type 0 where
  pub as_ptr : ℕ
  pub len : ℕ

pub record Patcher : Type 0 where
  pub area : Slice
  pub original_prolog : List ℕ
  pub detour_prolog : List ℕ

-- self.patch_area.copy_from_slice(bytes), which panics where the lengths differ.
unfoldable pub copy_from_slice : Memory → Slice → List ℕ → Result Memory
copy_from_slice memory area bytes = do
  assert (area.len == length bytes)
  ok (write memory area.as_ptr bytes)

unfoldable pub toggle : Memory → Patcher → Bool → Result Memory
unfolding copy_from_slice
toggle memory patcher enable =
    copy_from_slice memory patcher.area
      (if enable then patcher.detour_prolog else patcher.original_prolog)

-- Both prologs fill the area, as `copy_from_slice` wants.
pub record IsSized (p : Patcher) : Type 0 where
  pub original_fits : p.area.len ≡ length p.original_prolog
  pub detour_fits : p.area.len ≡ length p.detour_prolog

-- The bytes that the patcher puts down.
abbrev pub prolog : Patcher → Bool → List ℕ
prolog p enable = if enable then p.detour_prolog else p.original_prolog

pub prolog-IsSized :
    (p : Patcher) (enable : Bool) → IsSized p → p.area.len ≡ length (prolog p enable)
prolog-IsSized p true v = v.detour_fits
prolog-IsSized p false v = v.original_fits

-- A patcher whose prologs fill its area never panics.
pub toggle_lem :
    (m : Memory) (p : Patcher) (enable : Bool)
    → IsSized p
    → toggle m p enable ≡ ok (write m p.area.as_ptr (prolog p enable))
unfolding toggle
toggle_lem m p enable v =
    let same : (p.area.len == length (prolog p enable)) ≡ true =
      ground (arith, prolog-IsSized p enable v) in
    rw same

-- The area of a patcher holds the prolog of the function, in memory `m`.
abbrev pub IsOriginal : Memory → Patcher → Type 0
IsOriginal m p = read m p.area.as_ptr p.area.len ≡ p.original_prolog

pub write_original :
    (m : Memory) (p : Patcher) → IsOriginal m p → write m p.area.as_ptr p.original_prolog ≡ m
write_original m p h = rw (← h) (write-read m p.area.as_ptr p.area.len)

-- Switching a hook on and off again leaves the whole memory as it was, where the prologs are as long
-- as the area, which holds the first of them.
pub toggle_restores :
    (m : Memory) (p : Patcher)
    → IsSized p
    → IsOriginal m p
    → (toggle m p true >>= λ hooked. toggle hooked p false) ≡ ok m
toggle_restores m p v original =
    let same : length p.detour_prolog ≡ length p.original_prolog =
      omega (arith, v.original_fits, v.detour_fits) in
    rw (toggle_lem m p true v, toggle_lem (write m p.area.as_ptr p.detour_prolog) p false v)
      (ap ok (
        write-write m p.area.as_ptr p.detour_prolog p.original_prolog same
        ∙ write_original m p original))

-- A switch that does not panic leaves all bytes outside the area alone.
pub toggle_outside :
    (m m' : Memory) (p : Patcher) (enable : Bool) (q : ℕ)
    → toggle m p enable ≡ ok m'
    → (q < p.area.as_ptr) ⊎ (p.area.as_ptr + p.area.len ≤ q)
    → m' q ≡ m q
unfolding toggle
toggle_outside m m' p enable q h out =
    let (u, fits, e) = >>=-eq-ok (assert (p.area.len == length (prolog p enable))) _ h in
    let sized : (p.area.len == length (prolog p enable)) ≡ true =
      assert-eq-ok (p.area.len == length (prolog p enable)) {u = u} fits in
    let same : p.area.len ≡ length (prolog p enable) = ground arith in
    rw (← ok-injective e) (write_outside m p.area.as_ptr (prolog p enable) q (omega arith))

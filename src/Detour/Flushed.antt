-- ===== src/Detour/Flushed.antt =====
-- `allocate_pic` of src/arch/memory.rs with the flush of the instruction cache that follows the copy.
use detour_rs.Base.{ℕ, zero, suc, ◌+◌, ◌≤◌, ◌<◌, ◌≡◌, refl, sym, subst, ap, ◌∙◌, List, ◌∷◌, arith}
use detour_rs.Base.Memory.{Memory, read, read-write}
use detour_rs.Error.{Result, ok, err, panic, ok-injective}
use mathlib.Core.Path.{ap₂}
use detour_rs.Arch.Cache.{Target, Invalidates, fetched, fetched-flush, flush_instruction_cache}
use detour_rs.Arch.Patch.{Slice}
use detour_rs.Pic.{CodeEmitter, emit}
use detour_rs.Detour.{System, World, allocate_pic}
use detour_rs.Detour.Made.{allocate_pic_lem}

module _ (system : System) (target : Target) where
  open system use {Pool}

  -- The cache is flushed over the memory that was handed out, if some was.
  abbrev flushed : Result Slice × World Pool → Memory → Result Slice × (World Pool × Memory)
  flushed (ok s, w) cache = (
    ok s,
    (
      w,
      flush_instruction_cache target.calls target.arch target.macos w.memory s.as_ptr s.len cache,
    ),
  )
  flushed (err e, w) cache = (err e, (w, cache))
  flushed (panic, w) cache = (panic, (w, cache))

  unfoldable pub allocate_pic_flushed :
      CodeEmitter → (origin : ℕ) → World Pool × Memory → Result Slice × (World Pool × Memory)
  allocate_pic_flushed emitter origin (w, cache) =
      flushed (allocate_pic system target.arch emitter origin w) cache

  read-eq :
      (m k : Memory) (p n : ℕ) → ((a : ℕ) → p ≤ a → a < p + n → m a ≡ k a) → read m p n ≡ read k p n
  unfolding read
  read-eq m k p zero h = refl
  read-eq m k p (suc n) h =
      ap₂ ◌∷◌ (h p (omega arith) (omega arith))
        (read-eq m k (suc p) n λ a below above. h a (omega arith) (omega arith))

  flushed_parts :
      (r : Result Slice × World Pool) (cache cache' : Memory) (slice : Slice) (w' : World Pool)
      → flushed r cache ≡ (ok slice, (w', cache'))
      → (r ≡ (ok slice, w'))
        × (flush_instruction_cache target.calls target.arch target.macos w'.memory slice.as_ptr
              slice.len cache
            ≡ cache')
  flushed_parts (ok s, w) cache cache' slice w' h =
      let same_slice : s ≡ slice = ok-injective (ap (λ r. r.0) h) in
      let same_world : w ≡ w' = ap (λ r. r.1.0) h in
      let flush = λ (k : Slice) (v : World Pool).
        flush_instruction_cache target.calls target.arch target.macos v.memory k.as_ptr k.len
          cache in
      (cc (same_slice, same_world), ap₂ flush (sym same_slice) (sym same_world) ∙ ap (λ r. r.1.1) h)
  flushed_parts (err e, w) cache cache' slice w' h = cc
  flushed_parts (panic, w) cache cache' slice w' h = cc

  -- Generated code is what is executed: when `allocate_pic` succeeds, the bytes that are fetched from
  -- the memory that it returns are those that the emitter generates for its address, on every target.
  -- The C runtime invalidates what it is asked to.
  pub allocate_pic-fetched :
      (emitter : CodeEmitter) (origin : ℕ) (w w' : World Pool) (cache cache' : Memory)
      (slice : Slice)
      → Invalidates target.calls
      → allocate_pic_flushed emitter origin (w, cache) ≡ (ok slice, (w', cache'))
      → (code : List ℕ) × (emit target.arch emitter slice.as_ptr ≡ ok code)
        × (read (fetched target.arch w'.memory cache') slice.as_ptr slice.len ≡ code)
  unfolding allocate_pic_flushed
  allocate_pic-fetched emitter origin w w' cache cache' slice clears h =
      let (made, kept) =
        flushed_parts (allocate_pic system target.arch emitter origin w) cache cache' slice w' h in
      let (code, emitted, fits, placed) =
        allocate_pic_lem system target.arch emitter origin w w' slice made in
      let executed =
        λ (c : Memory). read (fetched target.arch w'.memory c) slice.as_ptr slice.len in
      (
        code,
        emitted,
        subst (λ c. executed c ≡ code) kept
            (read-eq _ w'.memory slice.as_ptr slice.len (λ a below above.
                fetched-flush target.calls target.arch target.macos w'.memory cache slice.as_ptr
                  slice.len a clears below above)
              ∙ rw (placed, fits) (read-write w.memory slice.as_ptr code)),
      )

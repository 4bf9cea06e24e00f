-- ===== src/Detour/Tests.antt =====
-- Concrete runs of the theorems about src/arch/detour.rs, src/arch/memory.rs and
-- src/detours/statik.rs, and about the switch of a patcher.
use detour_rs.Base.{
  ℕ, ◌+◌, ◌≡◌, ◌≢◌, refl, ◌⊎◌, Bool, true, false, Option, none, some, List, [], ◌∷◌, if◌then◌else◌,
}
use detour_rs.Base.Memory.{Memory, write, read}
use detour_rs.Error.{Error, err, panic, ok, RegionError, free_memory}
use detour_rs.Arch.{x86_64, aarch64}
use detour_rs.Arch.Patch.{Slice, Patcher, copy_from_slice, toggle_restores, toggle_outside}
use detour_rs.Arch.Patch
use detour_rs.Pic.{CodeEmitter, vec, total_len, emit, emit_loop, generate}
use detour_rs.Pic
use detour_rs.Detour.{Architecture, System, World, Detour, toggle, drop, allocate_pic}
use detour_rs.Detour
use detour_rs.Detour.Switch.{switch, last_granted, switch_lem, drop_lem}
use detour_rs.Detour.Flushed.{allocate_pic_flushed, allocate_pic-fetched}
use detour_rs.Arch.Cache.{Target, Invalidates, fetched, flush_instruction_cache}
use detour_rs.Detour.Static.{
  drop_static, drop_static-restores, StaticDetour, initialize, initialize-once, initialize-first,
}
use detour_rs.Detour.Static

abbrev zeros : Memory
zeros p = 0

abbrev patcher : Patcher
patcher = record {
  area = record { as_ptr = 0x1000; len = 2 };
  original_prolog = 0 ∷ 0 ∷ [];
  detour_prolog = 0xEB ∷ 0x10 ∷ [];
}

abbrev detour : Detour
detour = record {
  relay = none;
  trampoline = record { as_ptr = 0x2000; len = 3 };
  patcher = patcher;
  enabled = false;
}

original : read zeros 0x1000 2 ≡ 0 ∷ 0 ∷ []
unfolding read
original = refl

toggled : Patch.toggle zeros patcher true ≡ ok (write zeros 0x1000 (0xEB ∷ 0x10 ∷ []))
unfolding Patch.toggle
toggled = refl

-- Switched on, refused to switch off, switched off, and switched on again.
abbrev calls : List (Bool × Option RegionError)
calls = (true, none) ∷ (false, some free_memory) ∷ (false, none) ∷ (true, none) ∷ []

switch_lem_example :
    ((switch calls (zeros, detour)).1.enabled ≡ last_granted false calls)
    × ((switch calls (zeros, detour)).0
        ≡ (if last_granted false calls then write zeros 0x1000 (0xEB ∷ 0x10 ∷ []) else zeros))
switch_lem_example =
    switch_lem calls zeros detour refl (record { original_fits = refl; detour_fits = refl })
      original

abbrev switched_on : Detour
switched_on = record detour { enabled = true }

drop_lem_example :
    ((drop true none (write zeros 0x1000 (0xEB ∷ 0x10 ∷ []), switched_on)).1.0 ≡ zeros)
    × ((drop false none (write zeros 0x1000 (0xEB ∷ 0x10 ∷ []), switched_on)).1.0
        ≡ write zeros 0x1000 (0xEB ∷ 0x10 ∷ []))
    × (write zeros 0x1000 (0xEB ∷ 0x10 ∷ []) ≢ zeros)
drop_lem_example =
    drop_lem zeros switched_on refl (record { original_fits = refl; detour_fits = refl }) original
      (λ e. cc)

-- Memory for code is given out from an address on, and never taken back.
abbrev upwards : System
upwards = record {
  Pool = ℕ;
  allocate = λ at origin size. ok (record { as_ptr = at; len = size }, at + size);
  release = λ at slice. at;
  is_executable_address = λ address. ok true;
}

abbrev emitter : CodeEmitter
emitter = record { thunks = vec (1 ∷ 2 ∷ 3 ∷ []) ∷ [] }

-- A target whose C runtime reads the whole cache anew.
abbrev incoherent : Target
incoherent = record {
  arch = aarch64;
  macos = false;
  calls = record {
    clear_cache = λ m beg end cache. m;
    sys_icache_invalidate = λ m beg len cache. m;
  };
}

abbrev clears : Invalidates (incoherent.calls)
clears = record {
  cleared = λ m cache beg end a below above. refl;
  invalidated = λ m cache beg len a below above. refl;
}

abbrev placed : Memory
placed = write zeros 0x2000 (1 ∷ 2 ∷ 3 ∷ [])

flushed :
    allocate_pic_flushed upwards incoherent emitter 0x1000
      (record { memory = zeros; pool = 0x2000 }, zeros)
    ≡ (
      ok (record { as_ptr = 0x2000; len = 3 }),
      (record { memory = placed; pool = 0x2003 }, placed),
    )
unfolding allocate_pic_flushed allocate_pic emit emit_loop generate total_len Pic.len
    copy_from_slice flush_instruction_cache
flushed = refl

allocate_pic-fetched_example :
    (code : List ℕ) × (emit aarch64 emitter 0x2000 ≡ ok code)
    × (read (fetched aarch64 placed placed) 0x2000 3 ≡ code)
allocate_pic-fetched_example =
    allocate_pic-fetched upwards incoherent emitter 0x1000
      (record { memory = zeros; pool = 0x2000 }) (record { memory = placed; pool = 0x2003 }) zeros
      placed (record { as_ptr = 0x2000; len = 3 }) clears flushed

-- An architecture whose trampolines are three fixed bytes.
abbrev plain : Architecture
plain = record {
  arch = x86_64;
  Trampoline = Unit {0};
  prolog_margin = λ target. 2;
  new_trampoline = λ memory target margin. ok tt;
  prolog_size = λ t. 2;
  emitter = λ t. emitter;
  relay_builder = λ target detour. ok none;
  new_patcher = λ memory target detour size. ok patcher;
}

abbrev world : World ℕ
world = record { memory = zeros; pool = 0x2000 }

abbrev installed : StaticDetour ℕ
installed = record { closure = some 7; detour = some detour }

-- As `StaticDetour::__new` makes it.
abbrev fresh : StaticDetour ℕ
fresh = Static.new

initialize-first_example :
    let (r, (s', w')) = initialize upwards plain 0x3000 0x1000 8 (fresh, world) in
    ((d : Detour) × (Detour.new upwards plain 0x1000 0x3000 world ≡ (ok d, w'))
      × (r ≡ ok tt)
      × (s'.detour ≡ some d)
      × (s'.closure ≡ some 8))
    ⊎ ((e : Error) × (Detour.new upwards plain 0x1000 0x3000 world ≡ (err e, w'))
        × (r ≡ err e)
        × (s' ≡ fresh))
    ⊎ ((Detour.new upwards plain 0x1000 0x3000 world ≡ (panic, w')) × (r ≡ panic) × (s' ≡ fresh))
initialize-first_example = initialize-first upwards plain 0x3000 0x1000 8 world

drop_static-restores_example :
    let hooked = write zeros 0x1000 (0xEB ∷ 0x10 ∷ []) in
    let running : StaticDetour ℕ = record { closure = some 7; detour = some switched_on } in
    let (r, (s', w')) =
      drop_static upwards true none (running, record { memory = hooked; pool = 0x2000 }) in
    (r ≡ ok tt) × (s' ≡ fresh) × (w'.memory ≡ zeros)
drop_static-restores_example =
    drop_static-restores upwards (record { closure = some 7; detour = some switched_on })
      switched_on zeros 0x2000 refl refl (record { original_fits = refl; detour_fits = refl })
      original

-- ===== src/Aarch64/Install.antt =====
-- src/arch/detour.rs with the architecture of src/arch/aarch64: from `Detour::new` to a target that
-- leads to the detour.
use detour_rs.Base.{
  ℕ, ◌+◌, ◌%◌, ◌<◌, ◌≡◌, refl, sym, subst, ◌∙◌, ◌≢◌, true, Option, none, some, List, length, arith,
}
use detour_rs.Base.Memory.{Memory, write, Holds}
use detour_rs.Error.{Result, ok, panic, ok-injective}
use detour_rs.Arch.{aarch64, usize_mod}
use detour_rs.Arch.Fixed.{Trampoline}
use detour_rs.Arch.Patch.{Slice, Patcher, toggle_lem}
use detour_rs.Arch.Patch
use detour_rs.Pic.{CodeEmitter, emit, add_thunk, new, generate}
use detour_rs.Pic.Emit.{emit-single}
use detour_rs.Aarch64.Machine.{Cpu, set, run, run-after}
use detour_rs.Aarch64.Thunk
use detour_rs.Aarch64.Thunk.Jump.{jump_bytes-runs}
use detour_rs.Aarch64.Patcher
use detour_rs.Aarch64.Patch.{make-IsSized}
use detour_rs.Aarch64.Leads.{displacement, Near, patched-runs, toggled-leads}
use detour_rs.Aarch64.Trampoline as Prolog
use detour_rs.Detour.{Architecture, System, World, Detour, toggle, destination}
use detour_rs.Detour
use detour_rs.Detour.Made.{Apart, Holds-Apart, IsRelay, new-IsMade}

-- The loop of the builder always ends, so no result is left out.
abbrev ended : Option (Result Trampoline) → Result Trampoline
ended none = panic
ended (some r) = r

abbrev pub arm_64 : Architecture
arm_64 = record {
  arch = aarch64;
  Trampoline = Trampoline;
  prolog_margin = Thunk.prolog_margin;
  new_trampoline = λ m target margin. ended (Prolog.make m target margin);
  prolog_size = λ t. t.prolog_size;
  emitter = λ t. t.emitter;
  relay_builder = λ target detour. ok (Thunk.relay_builder target detour);
  new_patcher = λ m target detour size. Patcher.make m target detour size;
}

-- A relay is code of an absolute jump, and leads to the detour.
relay-runs :
    (m : Memory) (target : ℕ) (c : Cpu) (detour : ℕ) (builder : CodeEmitter) (code : List ℕ)
    → detour < usize_mod aarch64
    → c.pc + 8 < usize_mod aarch64
    → Thunk.relay_builder target detour ≡ some builder
    → emit aarch64 builder c.pc ≡ ok code
    → Holds m c.pc code
    → run m 2 c ≡ some (record { pc = detour; regs = set c.regs 16 detour })
unfolding Thunk.relay_builder Thunk.jmp_abs generate
relay-runs m target c detour builder code lt room b e held =
    let made : builder ≡ add_thunk new (Thunk.jmp_abs detour) = ground arith in
    let bytes =
      ok-injective (emit-single aarch64 (Thunk.jmp_abs detour) c.pc code (rw made at e)) in
    jump_bytes-runs m c detour lt room (subst (Holds m c.pc) (sym bytes) held)

-- The detour is at a multiple of four bytes from the target; or the relay is, in the reach of a
-- branch, with room for its code and apart from what is written after it.
abbrev pub IsPlaced : (target detour : ℕ) → (trampoline area : Slice) → Option Slice → Type 0
IsPlaced target detour trampoline area none = displacement target detour % 4 ≡ 0
IsPlaced target detour trampoline area (some s) =
    (displacement target s.as_ptr % 4 ≡ 0)
    × Near (displacement target s.as_ptr)
    × (s.as_ptr + 8 < usize_mod aarch64)
    × Apart trampoline s
    × Apart area s

-- Execution goes from the target to the detour, for all contents of the registers, and keeps all but
-- X16.
abbrev pub Enters : (target detour : ℕ) → Memory → Type 0
Enters target detour hooked =
    (regs : ℕ → ℕ)
    → (n : ℕ) × (f : ℕ → ℕ) × (run hooked n (record { pc = target; regs = regs })
        ≡ some (record { pc = detour; regs = f }))
      × ((r : ℕ) → r ≢ 16 → f r ≡ regs r)

module _ (system : System) (target detour : ℕ) (here : target < usize_mod aarch64)
    (lt : detour < usize_mod aarch64) where
  over_relay :
      (m m' : Memory) (p : Patcher) (r : Option Slice) (t : Slice) (code : List ℕ) (size : ℕ)
      → Patcher.make m target (destination system arm_64 r detour) size ≡ ok p
      → IsRelay system arm_64 target detour m r
      → m' ≡ write m t.as_ptr code
      → t.len ≡ length code
      → IsPlaced target detour t p.area r
      → (hooked : Memory) × (Patch.toggle m' p true ≡ ok hooked) × Enters target detour hooked
  over_relay m m' p none t code size made relay h fills aligned =
      let (place, sized, original, bytes_there) = make-IsSized m target detour size p made in
      let hooked = write m' p.area.as_ptr p.detour_prolog in
      let on = toggle_lem m' p true sized in
      (
        hooked,
        on,
        (λ regs.
            let c : Cpu = record { pc = target; regs = regs } in
            (
              1,
              regs,
              toggled-leads m m' hooked c detour size p made on (ok-injective relay) here lt
                  aligned,
              (λ r other. refl),
            )),
      )
  over_relay m m' p (some s) t code size made (builder, bytes, b, emitted, full, held) h fills
        (aligned, near, room, off, out) =
      let (place, sized, original, bytes_there) = make-IsSized m target s.as_ptr size p made in
      let hooked = write m' p.area.as_ptr p.detour_prolog in
      let on = toggle_lem m' p true sized in
      let before : Holds m' s.as_ptr bytes =
        rw h (Holds-Apart m s.as_ptr bytes t.as_ptr code (omega (arith, fills, full)) held) in
      let after : Holds hooked s.as_ptr bytes =
        Holds-Apart m' s.as_ptr bytes p.area.as_ptr p.detour_prolog
          (omega (arith, sized.detour_fits, full)) before in
      (
        hooked,
        on,
        (λ regs.
            let c : Cpu = record { pc = target; regs = regs } in
            let c1 : Cpu = record { pc = s.as_ptr; regs = regs } in
            (
              3,
              set regs 16 detour,
              run-after hooked 2 c c1 (
                    patched-runs m m' hooked c s.as_ptr size p made on here (omega arith) aligned
                      near)
                  ∙ relay-runs hooked target c1 detour builder bytes lt room (ok-injective b)
                      emitted after,
              (λ r other. ground arith),
            )),
      )

  -- A detour that could be made on AArch64 can be switched on wherever the system grants the access,
  -- and then execution goes from the target to the detour function, over the relay if there is one,
  -- for all contents of the registers, and keeps all of them but X16. The target and the detour are
  -- addresses, and the detour is at a multiple of four bytes from the target if there is no relay;
  -- if there is one, the relay is, in the reach of a branch, with room for its code and apart from
  -- what is written after it.
  pub toggle-Enters :
      (w w' : World (system.Pool)) (d : Detour)
      → Detour.new system arm_64 target detour w ≡ (ok d, w')
      → IsPlaced target detour d.trampoline d.patcher.area d.relay
      → (hooked : Memory) × (d' : Detour) × (toggle none true (w'.memory, d)
          ≡ (ok tt, (hooked, d')))
        × Enters target detour hooked
  unfolding toggle
  toggle-Enters w w' d made placed =
      let (m, parts) = new-IsMade system arm_64 target detour w w' d made in
      let (hooked, switched, entered) =
        over_relay m w'.memory d.patcher d.relay d.trampoline parts.code parts.size parts.patched
          parts.relay parts.trampoline_written parts.fills placed in
      (hooked, record d { enabled = true }, rw (parts.off, switched) refl, entered)

-- ===== src/Lib.antt =====
-- Verification of detour-rs: inline function hooks, from the choice of the bytes that a hook
-- overwrites to the memory that its code lives in.
--
-- The parts, and the files that model them:
--
-- src/error.rs: Error.antt. `Result` has a third outcome, the panic of an `assert!`, `expect`,
-- `unwrap` or slice index.
-- src/pic (thunks and `CodeEmitter`): Pic.antt, its theorems in Pic/Emit.antt. A thunk is code, or
-- a closure from an address to code.
-- src/arch/mod.rs (`is_within_range`): Arch.antt and Arch/Range.antt; its flush of the instruction
-- cache: Arch/Cache.antt. The switch of a patcher, which has the same text on all architectures:
-- Arch/Patch.antt.
-- src/arch/x86: X86.antt and its children. X86/Thunk.antt has thunk/x86.rs, thunk/x64.rs and
-- thunk/mod.rs; X86/Patcher.antt has patcher.rs; X86/Disasm.antt and X86/Trampoline.antt have
-- trampoline/disasm.rs and trampoline/mod.rs; X86/Meta.antt has meta.rs. X86/Machine.antt is the
-- description of the processor that the emitted bytes are run by: relative and indirect jumps and
-- calls, and conditional jumps under given flags. X86/Install.antt puts the parts together.
-- The trampoline builder of src/arch/aarch64, src/arch/arm and src/arch/riscv, whose state and loop
-- have the same text: Arch/Fixed.antt, over an interface (`Isa`) that each architecture fills with its
-- `process`. Arch/Fixed/Rounds.antt has the relation that describes a prolog, Arch/Fixed/Fair.antt
-- what the loop wants of a `process`, and Arch/Patch/Made.antt what the three patchers share.
-- src/arch/aarch64: Aarch64.antt and its children; Aarch64/Thunk.antt has thunk/mod.rs and meta.rs,
-- Aarch64/Patcher.antt and Aarch64/Trampoline.antt the files of their names. Aarch64/Machine.antt is
-- the description of the processor, Aarch64/Reach.antt a smaller one for absolute jumps and calls.
-- src/arch/arm: Arm.antt and its children, in the same files, with Arm/Machine.antt.
-- src/arch/riscv: Riscv.antt and its children, in the same files, with Riscv/Machine.antt. `RvArch`
-- tells RV32 from RV64 where the code has `cfg`.
-- src/alloc: Alloc.antt and its children, Alloc/Search.antt for search.rs and Alloc/Proximity.antt
-- for proximity.rs, Alloc/Thread.antt for mod.rs. Alloc/Os.antt has what is asked of the operating
-- system, with src/util.rs.
-- FixedWidth.antt puts the builders of src/arch/aarch64, src/arch/arm and src/arch/riscv side by side.
-- src/arch/detour.rs and src/arch/memory.rs: Detour.antt, over an interface of architectures
-- (`Architecture`, which X86/Install.antt, Aarch64/Install.antt and Riscv/Install.antt fill) and one
-- of the allocator (`System`). There `toggle` is one step of one thread; Detour/Threads.antt has it
-- step by step, in any number of threads over the mutex of `POOL`: Threads/Stands.antt has what
-- holds at each step, Threads/Serial.antt the calls one after another. Detour/Flushed.antt has the
-- flush of `allocate_pic`.
-- src/detours/statik.rs: Detour/Static.antt, and Detour/Static/Threads.antt in any number of threads;
-- src/detours/raw.rs and generic.rs: Detour/Raw.antt and Detour/Generic.antt.
-- src/macros.rs: Macros.antt has the rules of `static_detour!` over Macros/Syntax.antt,
-- Macros/Expand.antt their expansion, Macros/Printed.antt the blocks as they are written;
-- Macros/Hookable.antt has `impl_hookable!` and the methods `call` that it makes.
-- Base.antt and its children are what the parts share: bytes, words and memory.
--
-- How the code corresponds to the model. Memory is a function from addresses to bytes; a mutable
-- slice is its address and length, and what changes it takes and gives back the memory. Machine
-- words are native numbers with their wrap-around written out; arithmetic is that of a build without
-- overflow checks. `X86Arch` tells a 32-bit target from a 64-bit one where the code has `cfg`. A
-- method that changes its receiver gives the new one back. What the code asks of crates that are not
-- part of the repository is a parameter: the instructions that iced_x86 decodes (`Decoder`), the
-- regions that `region::query` knows (`query`), what `region::protect_with_handle` answers, the
-- pools of slice_pool over mappings of mmap (`SlicePool`, `Os`). Their documented behaviour is
-- named: `Consecutive`, `Encloses`, `Filled` and `Grants`. The functions of the C runtime that flush
-- the instruction cache are `CacheCalls`, with `Invalidates`.
--
-- Threads are step relations: a phase for each place in a call where a thread may be interrupted, a move
-- for each access to what the threads share, and runs that pick any thread at each step. The bytes of a
-- prolog are copied one by one, the first one first. A mutex has an owner and may be poisoned. The box
-- of a closure is a number that is given out once.
--
-- Fuel: the loop that pads a hook has as many rounds as the hook has bytes, and `next` and
-- `try_regions` of the region search have one more than there are addresses; each round adds a byte,
-- or goes on by an address at least, and running out is an outcome of its own. The builder of the
-- fixed-width architectures has two rounds more than its margin has bytes, and each covers four bytes.
-- The fuel of a macro's expansion is the recursion limit of rustc, a number that the theorems leave open.
--
-- Not modelled: debug output; what is done under the mutex of `POOL` beside the calls of `toggle` on
-- one detour, when these are taken step by step (another detour may patch the same area, and a panic
-- in an allocation would poison the mutex); the `Arc` of src/alloc/mod.rs, and the slice pool and
-- the memory maps of the crates slice_pool and mmap, which are parameters; what rustc itself reads
-- of a macro's input (attributes, paths, types and lists of types are one token each), and the error
-- that a block ends with where no rule but the last one matches, which is the recursion limit;
-- src/traits.rs, which declares two traits; the tests in src/lib.rs, src/tests and
-- src/arch/*/mod.rs, and the example.
pub mod Base
pub mod Error
pub mod FixedWidth
pub mod Arch
pub mod Pic
pub mod X86
pub mod Macros
pub mod Aarch64
pub mod Arm
pub mod Riscv
pub mod Alloc
pub mod Detour

-- ===== src/Arch/Cache.antt =====
-- The cache of instructions, which src/arch/mod.rs flushes after code was written. What a thread
-- executes is read through it, on the targets where the hardware does not keep it coherent with the
-- memory. The two functions that the crate calls for it stand in the C runtime: they are parameters.
use detour_rs.Base.{ℕ, ◌+◌, ◌≤◌, ◌<◌, ◌≡◌, refl, Bool, true, false, if◌then◌else◌}
use detour_rs.Base.Memory.{Memory}
use detour_rs.Arch.{TargetArch, x86, x86_64, arm, aarch64, riscv32, riscv64}

-- Each takes the memory, the bounds of what is to be read anew, and the cache as it is.
pub record CacheCalls : Type 0 where
  -- void __clear_cache(char *beg, char *end)
  pub clear_cache : Memory → (beg end : ℕ) → Memory → Memory
  -- void sys_icache_invalidate(void *start, size_t len)
  pub sys_icache_invalidate : Memory → (start len : ℕ) → Memory → Memory

-- The target that the crate is compiled for, with the calls of its C runtime.
pub record Target : Type 0 where
  pub arch : TargetArch
  pub macos : Bool
  pub calls : CacheCalls

-- What is documented of them: the bytes between the bounds are read anew from the memory.
pub record Invalidates (calls : CacheCalls) : Type 0 where
  pub cleared :
      (m cache : Memory) (beg end a : ℕ)
      → beg ≤ a
      → a < end
      → calls.clear_cache m beg end cache a ≡ m a
  pub invalidated :
      (m cache : Memory) (start len a : ℕ)
      → start ≤ a
      → a < start + len
      → calls.sys_icache_invalidate m start len cache a ≡ m a

-- Whether the hardware keeps the cache coherent with writes.
abbrev pub is_coherent : TargetArch → Bool
is_coherent x86 = true
is_coherent x86_64 = true
is_coherent arm = false
is_coherent aarch64 = false
is_coherent riscv32 = false
is_coherent riscv64 = false

-- The bytes that are executed.
abbrev pub fetched : TargetArch → (memory cache : Memory) → Memory
fetched arch memory cache = if is_coherent arch then memory else cache

module _ (calls : CacheCalls) where
  -- flush_icache_arm, for each value of `target_os = "macos"`
  unfoldable pub flush_icache_arm : (macos : Bool) → Memory → (ptr len : ℕ) → Memory → Memory
  flush_icache_arm true m ptr len cache = calls.sys_icache_invalidate m ptr len cache
  flush_icache_arm false m ptr len cache = let end = ptr + len in calls.clear_cache m ptr end cache

  unfoldable pub flush_icache_riscv : Memory → (ptr len : ℕ) → Memory → Memory
  flush_icache_riscv m ptr len cache = let end = ptr + len in calls.clear_cache m ptr end cache

  unfoldable pub flush_instruction_cache :
      TargetArch → (macos : Bool) → Memory → (ptr len : ℕ) → Memory → Memory
  unfolding flush_icache_arm flush_icache_riscv
  flush_instruction_cache arm macos m ptr len cache = flush_icache_arm macos m ptr len cache
  flush_instruction_cache aarch64 macos m ptr len cache = flush_icache_arm macos m ptr len cache
  flush_instruction_cache riscv32 macos m ptr len cache = flush_icache_riscv m ptr len cache
  flush_instruction_cache riscv64 macos m ptr len cache = flush_icache_riscv m ptr len cache
  flush_instruction_cache x86 macos m ptr len cache = cache
  flush_instruction_cache x86_64 macos m ptr len cache = cache

  flush_icache_arm-eq :
      (macos : Bool) (m cache : Memory) (ptr len a : ℕ)
      → Invalidates calls
      → ptr ≤ a
      → a < ptr + len
      → flush_icache_arm macos m ptr len cache a ≡ m a
  unfolding flush_icache_arm
  flush_icache_arm-eq true m cache ptr len a v below above =
      v.invalidated m cache ptr len a below above
  flush_icache_arm-eq false m cache ptr len a v below above =
      v.cleared m cache ptr (ptr + len) a below above

  -- After a flush, the bytes that are executed between its bounds are those of the memory.
  pub fetched-flush :
      (arch : TargetArch) (macos : Bool) (m cache : Memory) (ptr len a : ℕ)
      → Invalidates calls
      → ptr ≤ a
      → a < ptr + len
      → fetched arch m (flush_instruction_cache arch macos m ptr len cache) a ≡ m a
  unfolding flush_instruction_cache flush_icache_riscv
  fetched-flush x86 macos m cache ptr len a v below above = refl
  fetched-flush x86_64 macos m cache ptr len a v below above = refl
  fetched-flush arm macos m cache ptr len a v below above =
      flush_icache_arm-eq macos m cache ptr len a v below above
  fetched-flush aarch64 macos m cache ptr len a v below above =
      flush_icache_arm-eq macos m cache ptr len a v below above
  fetched-flush riscv32 macos m cache ptr len a v below above =
      v.cleared m cache ptr (ptr + len) a below above
  fetched-flush riscv64 macos m cache ptr len a v below above =
      v.cleared m cache ptr (ptr + len) a below above

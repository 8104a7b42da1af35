-- ===== src/Machine/Access.antt =====
-- How a command runs when its access lies in the arena, and what `sbrk` returns.
use jungle_malloc_benchmark.Base.{ℕ, ◌+◌, ◌^◌, ◌≤◌, ◌<◌, ◌≡◌, arith}
use jungle_malloc_benchmark.Memory.{Ptr, Bytes, word, put}
use jungle_malloc_benchmark.Memlib.{Errno, mem_sbrk, sbrk_failed}
use jungle_malloc_benchmark.Machine.{State, ok, load, store, sbrk}

module _ (s : State) (p : Ptr) (above : s.lib.start_brk ≤ p) (below : p + 4 ≤ s.lib.max_addr) where
  pub load-ok : load p s ≡ ok (word s.bytes p) s
  unfolding load
  load-ok = ground arith

  pub store-ok : (v : ℕ) → store p v s ≡ ok tt (record s { bytes = put s.bytes p v })
  unfolding store
  store-ok v = ground arith

-- The state with `z` more bytes in use, and `m` in memory.
abbrev pub grown : State → ℕ → Bytes → State
grown s z m = record s { lib = record s.lib { brk = s.lib.brk + z }; bytes = m }

-- The state after a refused `mem_sbrk`.
abbrev pub refused : State → State
refused s = record s { lib = record s.lib { errno = Errno.enomem } }

module _ (s : State) (z : ℕ) (small : z < 2 ^ 31) where
  pub sbrk-ok : s.lib.brk + z ≤ s.lib.max_addr → sbrk z s ≡ ok s.lib.brk (grown s z s.bytes)
  unfolding sbrk mem_sbrk
  sbrk-ok room = ground arith

  pub sbrk-refused : s.lib.max_addr < s.lib.brk + z → sbrk z s ≡ ok sbrk_failed (refused s)
  unfolding sbrk mem_sbrk
  sbrk-refused full = ground arith

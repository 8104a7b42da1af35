-- ===== src/Machine.antt =====
-- The machine that mm.c and mdriver.c run on: the arena's bytes, the state of memlib.c and the
-- global `heap_listp`, and commands that may fault.
--
-- An access that leaves the arena is a fault; so is a `memcpy` between ranges that overlap. C
-- leaves both undefined. Pointer arithmetic that leaves the address space is undefined too, and
-- no address below the arena is accessible, so `-` on addresses may stop at 0.
pub mod Access
use jungle_malloc_benchmark.Base.{ℕ, ◌+◌, ◌*◌, ◌%◌, ◌^◌, Bool, ◌&&◌, ◌||◌, leb, ◌==◌, if◌then◌else◌}
use jungle_malloc_benchmark.Memory.{Ptr, Bytes, word, put, fill, copy}
use jungle_malloc_benchmark.Memlib.{Memlib, mem_sbrk}

pub record State : Type 0 where
  pub lib : Memlib
  pub bytes : Bytes
  pub heap_listp : Ptr

pub data Run (A : Type 0) : Type 0 where
  ok : A → State → Run A
  fault : Run A
  out_of_fuel : Run A

abbrev pub Cmd : Type 0 → Type 0
Cmd A = State → Run A

abbrev pub pure : {A : Type 0} → A → Cmd A
pure a s = ok a s

module _ {A B : Type 0} where
  abbrev pub and_then : Run A → (A → Cmd B) → Run B
  and_then (ok a s) k = k a s
  and_then fault k = fault
  and_then out_of_fuel k = out_of_fuel

  infixl 5 ◌>>=◌ ◌>>◌
  abbrev pub ◌>>=◌ : Cmd A → (A → Cmd B) → Cmd B
  c >>= k = λ s. and_then (c s) k

  abbrev pub ◌>>◌ : Cmd A → Cmd B → Cmd B
  c >> d = c >>= λ _. d

-- The bytes from `p` up to `p + n` lie in the arena.
abbrev pub accessible : State → Ptr → ℕ → Bool
accessible s p n = leb s.lib.start_brk p && leb (p + n) s.lib.max_addr

-- `GET(p)`.
unfoldable pub load : Ptr → Cmd ℕ
load p s = if accessible s p 4 then ok (word s.bytes p) s else fault

-- `PUT(p, val)`.
unfoldable pub store : Ptr → ℕ → Cmd (Unit {0})
store p val s = if accessible s p 4 then ok tt (record s { bytes = put s.bytes p val }) else fault

-- `*(size_t *)p`.
unfoldable pub load_size_t : Ptr → Cmd ℕ
load_size_t p s =
    if accessible s p 8 then ok (word s.bytes p + word s.bytes (p + 4) * 2 ^ 32) s else fault

-- `p[j]`, as an unsigned byte.
unfoldable pub load_byte : Ptr → Cmd ℕ
load_byte p s = if accessible s p 1 then ok (s.bytes p) s else fault

unfoldable pub memset : Ptr → ℕ → ℕ → Cmd (Unit {0})
memset p c n s =
    if accessible s p n then ok tt (record s { bytes = fill s.bytes p (c % 2 ^ 8) n }) else fault

unfoldable pub memcpy : (to from : Ptr) (n : ℕ) → Cmd (Unit {0})
memcpy to from n s =
    if accessible s to n && accessible s from n && (leb (to + n) from || leb (from + n) to)
    then ok tt (record s { bytes = copy s.bytes to from n })
    else fault

-- `mem_sbrk(incr)` with the conversion of a `size_t` argument to `int`.
unfoldable pub sbrk : ℕ → Cmd Ptr
sbrk incr s = let (p, lib') = mem_sbrk (incr % 2 ^ 32) s.lib in ok p (record s { lib = lib' })

unfoldable pub set_heap_listp : Ptr → Cmd (Unit {0})
set_heap_listp p s = ok tt (record s { heap_listp = p })

unfoldable pub get_heap_listp : Cmd Ptr
get_heap_listp s = ok s.heap_listp s

-- ===== src/Memory.antt =====
-- Bytes at addresses, and the 32-bit words that `GET` and `PUT` of benchmark_base/malloc-lab/mm.c
-- read and write in them, least significant byte first (the driver is built for x86).
pub mod Laws
use jungle_malloc_benchmark.Base.{
  ℕ, ◌+◌, ◌-◌, ◌*◌, ◌/◌, ◌%◌, ◌^◌, Bool, ◌&&◌, ltb, leb, ◌==◌, if◌then◌else◌,
}

abbrev pub Ptr : Type 0
Ptr = ℕ

abbrev pub null : Ptr
null = 0

abbrev pub Bytes : Type 0
Bytes = Ptr → ℕ

-- The four bytes at `p` as an `unsigned int`.
unfoldable pub word : Bytes → Ptr → ℕ
word m p = m p + m (p + 1) * 2 ^ 8 + m (p + 2) * 2 ^ 16 + m (p + 3) * 2 ^ 24

-- `val` is converted to `unsigned int`: only its low four bytes are stored.
unfoldable pub put : Bytes → Ptr → ℕ → Bytes
put m p val x =
    if x == p
    then val % 2 ^ 8
    else if x == p + 1
    then val / 2 ^ 8 % 2 ^ 8
    else if x == p + 2
    then val / 2 ^ 16 % 2 ^ 8
    else if x == p + 3
    then val / 2 ^ 24 % 2 ^ 8
    else m x

-- `memset(p, c, n)`.
unfoldable pub fill : Bytes → Ptr → ℕ → ℕ → Bytes
fill m p c n x = if leb p x && ltb x (p + n) then c else m x

-- `memcpy(to, from, n)` between ranges that do not overlap.
unfoldable pub copy : Bytes → Ptr → Ptr → ℕ → Bytes
copy m to from n x = if leb to x && ltb x (to + n) then m (from + (x - to)) else m x

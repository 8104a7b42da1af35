-- ===== src/Mm.antt =====
-- benchmark_base/malloc-lab/mm.c: an allocator over an implicit list of blocks. Each block has a
-- header word and a footer word that hold its size, a multiple of 8, and in bit 0 whether it is
-- allocated. A `void *` or `char *` is an address, `NULL` is 0, `size_t` arithmetic wraps at
-- 2 ^ 64 and `unsigned int` arithmetic at 2 ^ 32.
pub mod Block
pub mod Spec
pub mod Chain
pub mod Coalesce
pub mod Merge
pub mod Heap
pub mod Free
pub mod Freed
pub mod Fit
pub mod Place
pub mod Extend
pub mod Grow
pub mod Take
pub mod Malloc
pub mod Init
pub mod Contract
pub mod Payload
pub mod Realloc
pub mod Sliver
use jungle_malloc_benchmark.Base.{
  ℕ, zero, suc, ◌+◌, ◌-◌, ◌*◌, ◌/◌, ◌%◌, ◌^◌, ◌≡◌, Bool, true, false, not, ◌&&◌, ltb, leb, ◌==◌,
  if◌then◌else◌, bit_and, bit_or,
}
use jungle_malloc_benchmark.Memory.{Ptr, null}
use jungle_malloc_benchmark.Memlib.{sbrk_failed}
use jungle_malloc_benchmark.Machine.{
  State, Run, ok, fault, out_of_fuel, Cmd, pure, ◌>>=◌, ◌>>◌, load, store, load_size_t, memcpy,
  sbrk, set_heap_listp, get_heap_listp,
}

abbrev pub wsize : ℕ
wsize = 4

abbrev pub dsize : ℕ
dsize = 8

abbrev pub chunksize : ℕ
chunksize = 2 ^ 12

-- `~0x07` as an `unsigned int`.
abbrev pub size_mask : ℕ
size_mask = 2 ^ 32 - 8

-- `ALIGN(size)`, on a `size_t`.
unfoldable pub align : ℕ → ℕ
align size = bit_and ((size + 7) % 2 ^ 64) (2 ^ 64 - 8)

-- `SIZE_T_SIZE`, with `sizeof(size_t)` 8.
unfoldable pub size_t_size : ℕ
unfolding align
size_t_size = align 8

unfoldable pub pack : ℕ → ℕ → ℕ
pack size alloc = bit_or size alloc

-- A condition of C: not zero.
abbrev pub truthy : ℕ → Bool
truthy n = not (n == 0)

unfoldable pub get_size : Ptr → Cmd ℕ
get_size p = do w ← load p; pure (bit_and w size_mask)

unfoldable pub get_alloc : Ptr → Cmd ℕ
get_alloc p = do w ← load p; pure (bit_and w 1)

abbrev pub hdrp : Ptr → Ptr
hdrp bp = bp - wsize

unfoldable pub ftrp : Ptr → Cmd Ptr
ftrp bp = do n ← get_size (hdrp bp); pure (bp + n - dsize)

unfoldable pub next_blkp : Ptr → Cmd Ptr
next_blkp bp = do n ← get_size (hdrp bp); pure (bp + n)

unfoldable pub prev_blkp : Ptr → Cmd Ptr
prev_blkp bp = do n ← get_size (bp - dsize); pure (bp - n)

-- Each case of `coalesce` as it stands behind its test.
unfoldable pub join_next : Ptr → ℕ → Cmd Ptr
join_next bp size = do
  n ← get_size (hdrp (← next_blkp bp))
  let size' = (size + n) % 2 ^ 64
  store (hdrp bp) (pack size' 0)
  store (← ftrp bp) (pack size' 0)
  pure bp

unfoldable pub join_prev : Ptr → ℕ → Cmd Ptr
join_prev bp size = do
  n ← get_size (hdrp (← prev_blkp bp))
  let size' = (size + n) % 2 ^ 64
  store (hdrp (← prev_blkp bp)) (pack size' 0)
  store (← ftrp bp) (pack size' 0)
  prev_blkp bp

-- The two sizes are added as `unsigned int`.
unfoldable pub join_both : Ptr → ℕ → Cmd Ptr
join_both bp size = do
  p ← get_size (hdrp (← prev_blkp bp))
  n ← get_size (hdrp (← next_blkp bp))
  let size' = (size + (p + n) % 2 ^ 32) % 2 ^ 64
  store (hdrp (← prev_blkp bp)) (pack size' 0)
  store (← ftrp (← next_blkp bp)) (pack size' 0)
  prev_blkp bp

-- Cases 1 to 4.
unfoldable pub coalesce_case : (is_prev_allocated is_next_allocated size : ℕ) → Ptr → Cmd Ptr
coalesce_case is_prev_allocated is_next_allocated size bp =
    if truthy is_prev_allocated && truthy is_next_allocated
    then pure bp
    else if truthy is_prev_allocated && not (truthy is_next_allocated)
    then join_next bp size
    else if not (truthy is_prev_allocated) && truthy is_next_allocated
    then join_prev bp size
    else join_both bp size

unfoldable pub coalesce : Ptr → Cmd Ptr
coalesce bp = do
  is_prev_allocated ← get_alloc (hdrp (← prev_blkp bp))
  is_next_allocated ← get_alloc (hdrp (← next_blkp bp))
  size ← get_size (hdrp bp)
  coalesce_case is_prev_allocated is_next_allocated size bp

-- `words` rounded up to an even number, in bytes.
abbrev pub even_bytes : ℕ → ℕ
even_bytes words = if words % 2 == 0 then words * wsize % 2 ^ 64 else (words + 1) * wsize % 2 ^ 64

unfoldable pub extend_heap : ℕ → Cmd Ptr
extend_heap words = do
  let size = even_bytes words
  bp ← sbrk size
  if bp == sbrk_failed then pure null else (do
    store (hdrp bp) (pack size 0)
    store (← ftrp bp) (pack size 0)
    store (hdrp (← next_blkp bp)) (pack 0 1)
    coalesce bp)

unfoldable pub mm_init : Cmd Bool
mm_init = do
  p ← sbrk (4 * wsize)
  set_heap_listp p
  if p == sbrk_failed then pure false else (do
    store p 0
    store (p + 1 * wsize) (pack dsize 1)
    store (p + 2 * wsize) (pack dsize 1)
    store (p + 3 * wsize) (pack 0 1)
    set_heap_listp (p + 2 * wsize)
    bp ← extend_heap (chunksize / wsize)
    pure (not (bp == null)))

-- One round of the loop of `find_fit` for each unit of fuel.
unfoldable pub find_fit_loop : ℕ → ℕ → Ptr → Cmd Ptr
find_fit_loop asize zero bp = λ _. out_of_fuel
find_fit_loop asize (suc fuel) bp = do
  size ← get_size (hdrp bp)
  if size == 0 then pure null else (do
    alloc ← get_alloc (hdrp bp)
    if not (truthy alloc) && leb asize size
        then pure bp
        else (do next ← next_blkp bp; find_fit_loop asize fuel next))

-- The fuel is the number of bytes of the arena: a round moves `bp` on, and none runs outside.
unfoldable pub fit_fuel : State → ℕ
fit_fuel s = suc (s.lib.max_addr - s.lib.start_brk)

unfoldable pub find_fit : ℕ → Cmd Ptr
find_fit asize s =
    let walk = do bp ← get_heap_listp; next ← next_blkp bp; find_fit_loop asize (fit_fuel s) next
    in walk s

unfoldable pub place : Ptr → ℕ → Cmd (Unit {0})
place bp asize = do
  original_size ← get_size (hdrp bp)
  store (hdrp bp) (pack asize 1)
  store (← ftrp bp) (pack asize 1)
  let rest = (original_size + 2 ^ 64 - asize) % 2 ^ 64
  if ltb rest (dsize * 2) then pure tt else (do
    store (hdrp (← next_blkp bp)) (pack rest 0)
    store (← ftrp (← next_blkp bp)) (pack rest 0))

-- The block size for a request: payload, header and footer, rounded up to a multiple of 8.
unfoldable pub adjust : ℕ → ℕ
adjust size =
    if leb size dsize
    then dsize * 2
    else dsize * ((size + dsize + (dsize - 1)) % 2 ^ 64 / dsize) % 2 ^ 64

abbrev pub larger : ℕ → ℕ → ℕ
larger x y = if ltb y x then x else y

unfoldable pub mm_malloc : ℕ → Cmd Ptr
mm_malloc size = if size == 0 then pure null else (do
  let asize = adjust size
  bp ← find_fit asize
  if not (bp == null) then place bp asize >> pure bp else (do
    bp ← extend_heap (larger asize chunksize / wsize)
    if bp == null then pure null else place bp asize >> pure bp))

unfoldable pub mm_free : Ptr → Cmd (Unit {0})
mm_free ptr = do
  size ← get_size (hdrp ptr)
  store (hdrp ptr) (pack size 0)
  store (← ftrp ptr) (pack size 0)
  coalesce ptr
  pure tt

unfoldable pub mm_realloc : Ptr → ℕ → Cmd Ptr
mm_realloc ptr size = do
  newptr ← mm_malloc size
  if newptr == null then pure null else (do
    copy_size ← load_size_t (ptr - size_t_size)
    memcpy newptr ptr (if ltb size copy_size then size else copy_size)
    mm_free ptr
    pure newptr)

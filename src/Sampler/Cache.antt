-- ===== src/Sampler/Cache.antt =====
-- benchmark_base/malloc-lab/fcyc.c: the parameters of the measurement and the sweep of the cache.
-- `int` has 4 bytes, and no parameter is negative.
pub mod Sweep
use jungle_malloc_benchmark.Base.{
  ℕ, zero, suc, ◌+◌, ◌*◌, ◌/◌, ◌^◌, ◌<◌, ◌≤◌, ◌≡◌, ◌⊎◌, refl, inl, inr, Bool, true, false, ltb,
  lt→ltb, le→ltb, leb, le→leb, le_or_lt, ◌==◌, Bool-cases, if◌then◌else◌, Option, none, some, List,
  [], ◌∷◌, All, arith, ap,
}
use jungle_malloc_benchmark.Sampler.{◌>>=◌}

-- `cache_buf` is the size of the buffer where there is one.
pub record Cache : Type 0 where
  pub clear_cache : ℕ
  pub cache_bytes : ℕ
  pub cache_block : ℕ
  pub cache_buf : Option ℕ

abbrev pub default_cache : Cache
default_cache = record { clear_cache = 0; cache_bytes = 2 ^ 19; cache_block = 32; cache_buf = none }

-- The loop of `clear` from the `cptr`-th int on: none for a read outside of the buffer, and where the
-- fuel is used up.
unfoldable pub sweep : (fuel size cend incr cptr : ℕ) → Option ℕ
sweep zero size cend incr cptr = none
sweep (suc fuel) size cend incr cptr =
    let rest = sweep fuel size cend incr (cptr + incr) in
    if ltb cptr cend then if leb (4 * cptr + 4) size then rest else none else some cptr

-- One round for each int of the buffer, and one more. The first call allocates the buffer.
unfoldable pub clear : Cache → Option Cache
clear c =
    let size : ℕ = elim c.cache_buf [ none ↦ c.cache_bytes | some bytes ↦ bytes ] in
    do
      end ← sweep (suc (c.cache_bytes / 4)) size (c.cache_bytes / 4) (c.cache_block / 4) 0
      some (record c { cache_buf = some size })

unfoldable pub set_fcyc_clear_cache : ℕ → Cache → Cache
set_fcyc_clear_cache flag c = record c { clear_cache = flag }

unfoldable pub set_fcyc_cache_size : ℕ → Cache → Cache
set_fcyc_cache_size bytes c =
    if bytes == c.cache_bytes then c else record c { cache_bytes = bytes; cache_buf = none }

unfoldable pub set_fcyc_cache_block : ℕ → Cache → Cache
set_fcyc_cache_block bytes c = record c { cache_block = bytes }

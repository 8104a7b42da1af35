-- ===== src/Sampler/Cache/Sweep.antt =====
-- The sweep of the cache (benchmark_base/malloc-lab/fcyc.c) after any changes of its parameters.
use jungle_malloc_benchmark.Base.{
  ℕ, zero, suc, ◌+◌, ◌*◌, ◌/◌, ◌<◌, ◌≤◌, ◌≡◌, ◌⊎◌, refl, inl, inr, lt→ltb, le→ltb, le→leb, le_or_lt,
  ◌==◌, Bool-cases, Option, none, some, List, [], ◌∷◌, All, arith,
}
use jungle_malloc_benchmark.Sampler.{◌>>=◌}
use jungle_malloc_benchmark.Sampler.Cache.{
  Cache, sweep, clear, set_fcyc_clear_cache, set_fcyc_cache_size, set_fcyc_cache_block,
}

-- The calls that change or use the cache.
pub data Call : Type 0 where
  clearing : Call
  clear_flag : ℕ → Call
  cache_size : ℕ → Call
  block_size : ℕ → Call

abbrev pub call : Call → Cache → Option Cache
call clearing c = clear c
call (clear_flag flag) c = some (set_fcyc_clear_cache flag c)
call (cache_size bytes) c = some (set_fcyc_cache_size bytes c)
call (block_size bytes) c = some (set_fcyc_cache_block bytes c)

abbrev pub calls : List Call → Cache → Option Cache
calls [] c = some c
calls (x ∷ xs) c = call x c >>= calls xs

-- A block holds at least one int.
abbrev pub HasInt : Call → Type 0
HasInt (block_size bytes) = 4 ≤ bytes
HasInt _ = Unit

-- The buffer, where there is one, has `cache_bytes` bytes.
pub record IsCache (c : Cache) : Type 0 where
  pub sized : (c.cache_buf ≡ none) ⊎ (c.cache_buf ≡ some c.cache_bytes)
  pub block : 4 ≤ c.cache_block

sweep-ends :
    (fuel size cend incr cptr : ℕ)
    → 0 < fuel
    → 0 < incr
    → 4 * cend ≤ size
    → cend < cptr + fuel
    → (end : ℕ) × (sweep fuel size cend incr cptr ≡ some end) × (cend ≤ end)
unfolding sweep
sweep-ends zero size cend incr cptr some_fuel step inside enough = absurd (omega arith)
sweep-ends (suc fuel) size cend incr cptr some_fuel step inside enough = elim (le_or_lt cend cptr) [
  | inl done ↦ (cptr, rw (le→ltb cptr cend done) refl, done)
  | inr more ↦
      let (end, runs, last) =
        sweep-ends fuel size cend incr (cptr + incr) (omega arith) step inside (omega arith) in
      (end, rw (lt→ltb cptr cend more, le→leb (4 * cptr + 4) size (omega arith)) runs, last)
]

pub clear-IsCache : (c : Cache) → IsCache c → (c' : Cache) × (clear c ≡ some c') × IsCache c'
unfolding clear
clear-IsCache c ok =
    let (end, runs, last) =
      sweep-ends (suc (c.cache_bytes / 4)) c.cache_bytes (c.cache_bytes / 4) (c.cache_block / 4) 0
        (omega arith) (omega (arith, ok.block)) (omega arith) (omega arith) in
    let after : IsCache (record c { cache_buf = some c.cache_bytes }) = record {
      sized = inr refl;
      block = ok.block;
    } in
    elim ok.sized [
      | inl e ↦ (record c { cache_buf = some c.cache_bytes }, rw (e, runs) refl, after)
      | inr e ↦ (record c { cache_buf = some c.cache_bytes }, rw (e, runs) refl, after)
    ]

call-IsCache :
    (x : Call) (c : Cache) → HasInt x → IsCache c → (c' : Cache) × (call x c ≡ some c') × IsCache c'
unfolding set_fcyc_clear_cache set_fcyc_cache_size set_fcyc_cache_block
call-IsCache clearing c fits ok = clear-IsCache c ok
call-IsCache (clear_flag flag) c fits ok =
    (record c { clear_cache = flag }, refl, record { sized = ok.sized; block = ok.block })
call-IsCache (cache_size bytes) c fits ok = elim (Bool-cases (bytes == c.cache_bytes)) [
  | inl e ↦ (c, rw e refl, ok)
  | inr e ↦ (
    record c { cache_bytes = bytes; cache_buf = none },
    rw e refl,
    record { sized = inl refl; block = ok.block },
  )
]
call-IsCache (block_size bytes) c fits ok =
    (record c { cache_block = bytes }, refl, record { sized = ok.sized; block = fits })

-- From parameters whose cache block has at least 4 bytes and whose buffer, if it is allocated,
-- has `cache_bytes` bytes, any sequence of `clear` and of the setters of the cache, in which no
-- block is set below 4 bytes, goes through: each `clear` ends and reads inside of its buffer
-- only, and the two conditions hold again.
pub calls-IsCache :
    (xs : List Call) (c : Cache)
    → All HasInt xs
    → IsCache c
    → (c' : Cache) × (calls xs c ≡ some c') × IsCache c'
calls-IsCache [] c fits ok = (c, refl, ok)
calls-IsCache (x ∷ xs) c (fits, rest_fits) ok =
    let (c1, first, ok1) = call-IsCache x c fits ok in
    let (c', rest, ok') = calls-IsCache xs c1 rest_fits ok1 in (c', rw first rest, ok')

-- ===== src/Driver/Util/Next.antt =====
-- One request of a trace, as `eval_mm_util` runs it against mm.c.
use jungle_malloc_benchmark.Base.{ℕ, ◌+◌, ◌-◌, ◌^◌, ◌≤◌, ◌<◌, ◌≡◌, List, map, arith}
use jungle_malloc_benchmark.Mm.Block.{Block}
use jungle_malloc_benchmark.Driver.{Driver, Traceop, going, mm}
use jungle_malloc_benchmark.Driver.Slots.{Slot, Steady}
use jungle_malloc_benchmark.Driver.Slots.Total.{sizes_of, sizes_of-bounds}
use jungle_malloc_benchmark.Driver.Valid.Proper.{Keys, key, spend}
use jungle_malloc_benchmark.Driver.Util.{Tally, int_zero, util_op}
use jungle_malloc_benchmark.Driver.Util.Calls.{counted}

-- The total is the bytes in use, and the peak so far is at most the heap.
pub record Tallied (t : Tally) (bs : List Block) (ids : ℕ) (live : List Slot) : Type 0 where
  pub steady : Steady t.driver bs ids live
  pub sum : t.total_size ≡ int_zero + sizes_of live
  pub low : int_zero ≤ t.max_total_size
  pub high : t.max_total_size + t.driver.machine.lib.start_brk ≤ int_zero + t.driver.machine.lib.brk

-- The tally after a request that went through, with the keys `keys`.
pub record Next (ids : ℕ) (t : Tally) (op : Traceop) (keys : Keys) : Type 0 where
  pub final : Tally
  pub blocks : List Block
  pub live : List Slot
  pub runs : util_op mm op t ≡ going final
  pub tallied : Tallied final blocks ids live
  pub same_keys : map key live ≡ keys
  pub grows : final.driver.machine.lib.brk ≤ t.driver.machine.lib.brk + spend op
  pub errors : final.driver.errors ≡ t.driver.errors
  pub same_end : final.driver.machine.lib.max_addr ≡ t.driver.machine.lib.max_addr

-- The heap is below INT_MAX, so a sum of sizes is an `int`.
pub total_small :
    {d : Driver} {bs : List Block} {ids : ℕ} {live : List Slot}
    → Steady d bs ids live
    → int_zero + sizes_of live < 2 ^ 32
total_small s = omega (arith, sizes_of-bounds s, s.heap.arena.brk_below, s.heap.arena.extent)

pub counted-Tallied :
    {t : Tally} {bs : List Block} {ids : ℕ} {live : List Slot}
    → Tallied t bs ids live
    → {d : Driver} {blocks : List Block} {after : List Slot} (plus minus : ℕ)
    → Steady d blocks ids after
    → t.total_size + plus - minus ≡ int_zero + sizes_of after
    → d.machine.lib.start_brk ≡ t.driver.machine.lib.start_brk
    → t.driver.machine.lib.brk ≤ d.machine.lib.brk
    → Tallied (counted t d plus minus) blocks ids after
counted-Tallied {t} a {d} plus minus s total start rises =
    let bound = sizes_of-bounds s in
    let before = a.high in
    let above = a.low in
    let peak : (int_zero ≤ (counted t d plus minus).max_total_size)
        × ((counted t d plus minus).max_total_size + d.machine.lib.start_brk
            ≤ int_zero + d.machine.lib.brk) =
      ground arith in
    record { steady = s; sum = total; low = peak.0; high = peak.1 }

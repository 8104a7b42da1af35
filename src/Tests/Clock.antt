-- ===== src/Tests/Clock.antt =====
-- Counters whose low half wraps between two readings, and one that ticks.
use jungle_malloc_benchmark.Base.{
  ℕ, ◌+◌, ◌-◌, ◌*◌, ◌%◌, ◌^◌, ◌<◌, ◌≤◌, ◌≡◌, ◌⊎◌, zero, suc, refl, arith, some, length,
}
use jungle_malloc_benchmark.Tests.Main.{whole}
use jungle_malloc_benchmark.Tests.Checks.{ltb-IsOrder}
use jungle_malloc_benchmark.Clock.Compensated.{
  Compensation, lower_rate, round, calibration, start_comp_counter,
}
use jungle_malloc_benchmark.Clock.Least.{IsLeast}
use jungle_malloc_benchmark.Clock.Callibrate.{after, rates, start_comp_counter-IsLeast}
use jungle_malloc_benchmark.Clock.{
  Counter, Clock, sub32, subtract, start_counter, get_counter, ovhd,
}
use jungle_malloc_benchmark.Clock.Alpha.{start_alpha, get_alpha}
use jungle_malloc_benchmark.Clock.Elapsed.{
  IsCounter, get_counter-elapsed, ovhd-elapsed, get_alpha-elapsed,
}

-- 100 cycles for each reading, and the low half wraps before the second.
abbrev shown : ℕ → Counter
shown zero = record { cyc_hi = 7; cyc_lo = 2 ^ 32 - 50 }
shown (suc i) = record { cyc_hi = 8; cyc_lo = 50 + 100 * (i % 1000) }

shown-IsCounter : (i : ℕ) → IsCounter (shown i)
shown-IsCounter zero = (omega arith, omega arith)
shown-IsCounter (suc i) = (omega arith, omega arith)

abbrev unread : Clock
unread = record { counter = record { cyc_hi = 0; cyc_lo = 0 }; readings = 0 }

get_counter-elapsed_example :
    get_counter (λ n. n) shown (start_counter (λ n. n) shown unread)
    ≡ (100, record { counter = shown 0; readings = 2 })
get_counter-elapsed_example =
    get_counter-elapsed (λ n. n) shown shown-IsCounter unread 100 (omega arith) (omega arith)

ovhd-elapsed_example : (ovhd (λ n. n) shown 0 unread).0 ≡ 100
ovhd-elapsed_example =
    ovhd-elapsed (λ n. n) shown shown-IsCounter 0 unread 100 (omega arith) (omega arith)

-- The same with 32 bits.
abbrev shown_alpha : ℕ → ℕ
shown_alpha zero = 2 ^ 32 - 50
shown_alpha (suc i) = 50

shown_alpha-small : (i : ℕ) → shown_alpha i < 2 ^ 32
shown_alpha-small zero = omega arith
shown_alpha-small (suc i) = omega arith

get_alpha-elapsed_example :
    ((2 ^ 32 - 50 + 100 < 2 ^ 32)
      × ((get_alpha (λ n. n) shown_alpha (start_alpha (λ n. n) shown_alpha unread)).0 ≡ 100))
    ⊎ ((2 ^ 32 ≤ 2 ^ 32 - 50 + 100)
        × ((get_alpha (λ n. n) shown_alpha (start_alpha (λ n. n) shown_alpha unread)).0
            ≡ 2 ^ 64 - 2 ^ 32 + 100))
get_alpha-elapsed_example =
    get_alpha-elapsed (λ n. n) shown_alpha shown_alpha-small unread 100 (omega arith) (omega arith)

-- An interrupt with each reading, 5000 cycles apart.
abbrev pub steps : ℕ → Counter
steps i = record { cyc_hi = 0; cyc_lo = 5000 * i % 2 ^ 32 }

abbrev pub uncompensated : Compensation ℕ
uncompensated = record { clock = unread; ticks = 0; cyc_per_tick = 0; start_tick = 0 }

busy : (after whole steps (λ i. i) 100 (calibration whole steps (λ i. i) uncompensated)).e ≡ 100
unfolding round get_counter start_counter subtract sub32 lower_rate
busy = refl

start_comp_counter-IsLeast_example :
    (g' : Compensation ℕ) × (start_comp_counter whole steps (λ i. i) 101 uncompensated ≡ some g')
    × (length (rates whole steps (λ i. i) 100 (calibration whole steps (λ i. i) uncompensated))
        ≡ 100)
    × IsLeast whole g'.cyc_per_tick
        (rates whole steps (λ i. i) 100 (calibration whole steps (λ i. i) uncompensated))
start_comp_counter-IsLeast_example =
    start_comp_counter-IsLeast whole steps (λ i. i) ltb-IsOrder (λ x e. ground arith) uncompensated
      100 refl (omega (arith, busy))

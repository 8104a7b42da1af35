-- ===== src/Tests/Checks.antt =====
-- The range list, the pattern check and the sampler at concrete inputs.
use jungle_malloc_benchmark.Base.{
  ◌≤◌, ◌⊎◌, get_elem?, ℕ, ◌+◌, ◌-◌, ◌<◌, ◌≡◌, ◌≢◌, ◌↔◌, refl, inr, Bool, true, false, ltb, leb,
  some, [], ◌∷◌, arith,
}
use jungle_malloc_benchmark.Machine.{ok}
use jungle_malloc_benchmark.Memlib.{Memlib}
use jungle_malloc_benchmark.Ranges.{Range, added, add_range, remove_range}
use jungle_malloc_benchmark.Ranges.Checks.{
  range, Acceptable, Disjoint, Stored, add_range_iff, add_range-Covers, remove_range_iff,
}
use jungle_malloc_benchmark.Driver.Valid.{holds_pattern}
use jungle_malloc_benchmark.Driver.Valid.Pattern.{holds_pattern_iff, holds_pattern_signed}
use jungle_malloc_benchmark.Sampler.{fcyc_loop, init_sampler, has_converged, Sampler, fcyc}
use jungle_malloc_benchmark.Doubles.{IsOrder}
use jungle_malloc_benchmark.Sampler.Result.{Stops, fcyc-Stops}
use jungle_malloc_benchmark.Sampler.Ends.{fcyc-ends}
use jungle_malloc_benchmark.Tests.Allocator.{lib, boot}

-- A heap of 4112 bytes with one payload of 24 bytes.
abbrev grown_lib : Memlib
grown_lib = record lib { brk = 8208 }

abbrev payload : Range
payload = range 4112 4135

add_range_iff_example :
    (add_range grown_lib (payload ∷ []) 4144 100 ≡ added (range 4144 4243 ∷ payload ∷ []))
    ↔ Acceptable grown_lib (payload ∷ []) 4144 100
      × (range 4144 4243 ∷ payload ∷ [] ≡ range 4144 4243 ∷ payload ∷ [])
add_range_iff_example =
    add_range_iff grown_lib (payload ∷ []) 4144 100 (range 4144 4243 ∷ payload ∷ []) (omega arith)

second_accepted :
    add_range grown_lib (payload ∷ []) 4144 100 ≡ added (range 4144 4243 ∷ payload ∷ [])
second_accepted = add_range_iff_example.1 (
  record {
    nonempty = omega arith;
    aligned = refl;
    above = omega arith;
    below = omega arith;
    ends = ((inr (omega arith), inr (omega arith)), tt);
  },
  refl,
)

add_range-Covers_example :
    (add_range grown_lib (payload ∷ []) 4104 40 ≡ added (range 4104 4143 ∷ payload ∷ []))
    × ¬ Disjoint 4104 4143 payload
add_range-Covers_example =
    add_range-Covers grown_lib payload 4104 40 (omega arith) refl (omega arith) (omega arith)
      (omega arith) (omega arith, omega arith)

remove_range_iff_example :
    Stored payload (remove_range (range 4144 4243 ∷ payload ∷ []) 4144)
    ↔ Stored payload (range 4144 4243 ∷ payload ∷ []) × (payload.lo ≢ 4144)
remove_range_iff_example =
    remove_range_iff (range 4144 4243 ∷ payload ∷ []) 4144 payload
      ((λ e. omega (arith, e), tt), (tt, tt))

holds_pattern_iff_example :
    (same : Bool) × (holds_pattern true 24 4112 7 boot ≡ ok same boot)
    × ((same ≡ true) ↔ ((j : ℕ) → j < 24 → boot.bytes (4112 + j) ≡ 7))
holds_pattern_iff_example =
    holds_pattern_iff true 24 4112 7 boot (inr (omega arith)) (omega arith) (omega arith)

holds_pattern_signed_example : holds_pattern true 24 4112 200 boot ≡ ok false boot
holds_pattern_signed_example =
    holds_pattern_signed 24 4112 200 boot (omega arith) (omega arith) (omega arith) (omega arith)

fcyc-ends_example :
    (s : Sampler ℕ) × (t : ℕ) × (fcyc 0 ltb (λ best worst. leb worst (best + 5)) 3 20 (λ i. 100 - i)
      ≡ some t)
    × (fcyc_loop ltb (λ best worst. leb worst (best + 5)) 3 20 (λ i. 100 - i) 21 (init_sampler 0 3)
        ≡ some s)
    × (get_elem? s.values 0 ≡ some t)
    × (0 < s.samplecount)
    × ((s.samplecount ≤ 20) ⊎ (s.samplecount ≡ 1))
    × ((has_converged (λ best worst. leb worst (best + 5)) 3 s ≡ some true) ⊎ (20 ≤ s.samplecount))
fcyc-ends_example =
    fcyc-ends 0 ltb (λ best worst. leb worst (best + 5)) 3 20 (λ i. 100 - i) (omega arith)

pub ltb-IsOrder : IsOrder ltb
ltb-IsOrder = record { asym = λ x y e. ground arith; trans = λ x y z e f. ground arith }

fcyc-Stops_example :
    (s : Sampler ℕ) × (fcyc 0 ltb (λ best worst. leb worst (best + 5)) 3 20 (λ i. 100 - i)
      ≡ get_elem? s.values 0)
    × Stops ltb (λ best worst. leb worst (best + 5)) 3 20 (λ i. 100 - i) s
fcyc-Stops_example =
    fcyc-Stops ltb (λ best worst. leb worst (best + 5)) 3 20 (λ i. 100 - i) 0 ltb-IsOrder
      (omega arith)

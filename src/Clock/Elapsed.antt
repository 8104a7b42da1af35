-- ===== src/Clock/Elapsed.antt =====
-- What the counters of benchmark_base/malloc-lab/clock.c measure.
use jungle_malloc_benchmark.Base.{
  ℕ, ◌+◌, ◌-◌, ◌*◌, ◌%◌, ◌^◌, ◌≤◌, ◌<◌, ◌≡◌, ◌⊎◌, inl, inr, refl, ltb, lt→ltb, le→ltb,
  if◌then◌else◌, le_or_lt, arith, ap,
}
use jungle_malloc_benchmark.Clock.{
  Counter, Clock, sub32, subtract, start_counter, get_counter, ovhd_rounds, ovhd,
}
use jungle_malloc_benchmark.Clock.Alpha.{start_alpha, get_alpha}

-- The 64-bit number of two halves.
abbrev pub cycles : Counter → ℕ
cycles c = c.cyc_hi * 2 ^ 32 + c.cyc_lo

abbrev pub IsCounter : Counter → Type 0
IsCounter c = (c.cyc_hi < 2 ^ 32) × (c.cyc_lo < 2 ^ 32)

sub32-small : (a b : ℕ) → sub32 a b < 2 ^ 32
unfolding sub32
sub32-small a b = omega arith

-- The difference, or its complement.
sub32-cases :
    (a b : ℕ)
    → a < 2 ^ 32
    → b < 2 ^ 32
    → (b ≤ a) × (sub32 a b + b ≡ a) ⊎ (a < b) × (sub32 a b + b ≡ a + 2 ^ 32)
unfolding sub32
sub32-cases a b a_small b_small = elim (le_or_lt b a) [
  | inl le ↦ inl (le, omega arith)
  | inr lt ↦ inr (lt, omega arith)
]

-- The borrow is 1 exactly where the low halves wrap.
borrow-cases :
    (a b : ℕ)
    → a < 2 ^ 32
    → b < 2 ^ 32
    → (borrow : ℕ) × (borrow ≤ 1)
      × ((if ltb a (sub32 a b) then 1 else 0) ≡ borrow)
      × (sub32 a b + b ≡ a + borrow * 2 ^ 32)
borrow-cases a b a_small b_small = elim (sub32-cases a b a_small b_small) [
  | inl (le, sum) ↦ (0, omega arith, rw (le→ltb a (sub32 a b) (omega arith)) refl, omega arith)
  | inr (lt, sum) ↦ (1, omega arith, rw (lt→ltb a (sub32 a b) (omega arith)) refl, omega arith)
]

sub32-twice :
    (a b borrow : ℕ)
    → a < 2 ^ 32
    → b < 2 ^ 32
    → borrow ≤ 1
    → (sub32 (sub32 a b) borrow + (b + borrow) ≡ a)
      ⊎ (sub32 (sub32 a b) borrow + (b + borrow) ≡ a + 2 ^ 32)
sub32-twice a b borrow a_small b_small bit =
    let small = sub32-small a b in
    let result_small = sub32-small (sub32 a b) borrow in
    elim (sub32-cases a b a_small b_small) [
      | inl (_, one) ↦ elim (sub32-cases (sub32 a b) borrow small (omega arith)) [
        | inl (_, two) ↦ inl (omega arith)
        | inr (_, two) ↦ inr (omega arith)
      ]
      | inr (_, one) ↦ elim (sub32-cases (sub32 a b) borrow small (omega arith)) [
        | inl (_, two) ↦ inr (omega arith)
        | inr (_, two) ↦ absurd (omega arith)
      ]
    ]

subtract-cases :
    (n c : Counter)
    → IsCounter n
    → IsCounter c
    → (subtract n c < 2 ^ 64)
      × ((subtract n c + cycles c ≡ cycles n) ⊎ (subtract n c + cycles c ≡ cycles n + 2 ^ 64))
unfolding subtract
subtract-cases n c (nh, nl) (ch, cl) =
    let (borrow, bit, e, low) = borrow-cases n.cyc_lo c.cyc_lo nl cl in
    let high_small = sub32-small (sub32 n.cyc_hi c.cyc_hi) borrow in
    let low_small = sub32-small n.cyc_lo c.cyc_lo in
    let whole : subtract n c
        ≡ sub32 (sub32 n.cyc_hi c.cyc_hi) borrow * 2 ^ 32 + sub32 n.cyc_lo c.cyc_lo =
      rw e refl in
    (
      omega arith,
      elim (sub32-twice n.cyc_hi c.cyc_hi borrow nh ch bit) [
        | inl high ↦ inl (omega arith)
        | inr high ↦ inr (omega arith)
      ],
    )

-- The counter counts modulo 2 ^ 64.
abbrev pub Later : ℕ → Counter → Counter → Type 0
Later d c n = cycles n ≡ (cycles c + d) % 2 ^ 64

subtract-Later :
    (n c : Counter) (d : ℕ)
    → IsCounter n
    → IsCounter c
    → d < 2 ^ 64
    → Later d c n
    → subtract n c ≡ d
subtract-Later n c d n_ok c_ok small later =
    let (bound, sum) = subtract-cases n c n_ok c_ok in
    elim sum [ inl e ↦ omega arith | inr e ↦ omega arith ]

module _ {D : Type 0} (nearest : ℕ → D) (access_counter : ℕ → Counter)
    (halves : (i : ℕ) → IsCounter (access_counter i)) where
  -- Where the halves of each reading are below 2 ^ 32, and from one reading to the next the
  -- 64-bit counter goes on by `d` < 2 ^ 64 cycles, modulo 2 ^ 64, `start_counter` and then
  -- `get_counter` give the double nearest to `d`; the start stays recorded.
  pub get_counter-elapsed :
      (c : Clock) (d : ℕ)
      → d < 2 ^ 64
      → Later d (access_counter c.readings) (access_counter (c.readings + 1))
      → get_counter nearest access_counter (start_counter nearest access_counter c)
        ≡ (nearest d, record { counter = access_counter c.readings; readings = c.readings + 1 + 1 })
  unfolding get_counter start_counter
  get_counter-elapsed c d small later =
      rw
        (subtract-Later (access_counter (c.readings + 1)) (access_counter c.readings) d
          (halves (c.readings + 1)) (halves c.readings) small later)
        refl

  -- Where the halves of each reading are below 2 ^ 32, and from the third reading to the fourth
  -- the 64-bit counter goes on by `e` < 2 ^ 64 cycles, `ovhd` is the double nearest to `e`.
  pub ovhd-elapsed :
      (unset : D) (c : Clock) (e : ℕ)
      → e < 2 ^ 64
      → Later e (access_counter (c.readings + 1 + 1)) (access_counter (c.readings + 1 + 1 + 1))
      → (ovhd nearest access_counter unset c).0 ≡ nearest e
  unfolding ovhd ovhd_rounds get_counter start_counter
  ovhd-elapsed unset c e e_small second =
      ap (λ (q : D × Clock). q.0)
        (get_counter-elapsed
          (record { counter = access_counter c.readings; readings = c.readings + 1 + 1 }) e e_small
          second)

module _ {D : Type 0} (nearest : ℕ → D) (counter : ℕ → ℕ)
    (small : (i : ℕ) → counter i < 2 ^ 32) where
  -- On Alpha, where the counter is below 2 ^ 32 and goes on by `d` < 2 ^ 32 cycles, modulo 2 ^
  -- 32, `start_counter` and then `get_counter` give the double nearest to `d` if the counter did
  -- not wrap, and the one nearest to 2 ^ 64 - 2 ^ 32 + d if it did.
  pub get_alpha-elapsed :
      (c : Clock) (d : ℕ)
      → d < 2 ^ 32
      → counter (c.readings + 1) ≡ (counter c.readings + d) % 2 ^ 32
      → ((counter c.readings + d < 2 ^ 32)
          × ((get_alpha nearest counter (start_alpha nearest counter c)).0 ≡ nearest d))
        ⊎ ((2 ^ 32 ≤ counter c.readings + d)
            × ((get_alpha nearest counter (start_alpha nearest counter c)).0
                ≡ nearest (2 ^ 64 - 2 ^ 32 + d)))
  unfolding get_alpha start_alpha
  get_alpha-elapsed c d d_small later =
      let before : Counter = record { cyc_hi = 0; cyc_lo = counter c.readings } in
      let after : Counter = record { cyc_hi = 0; cyc_lo = counter (c.readings + 1) } in
      let old = small c.readings in
      let new = small (c.readings + 1) in
      let (bound, sum) = subtract-cases after before (omega arith, new) (omega arith, old) in
      elim (le_or_lt (2 ^ 32) (counter c.readings + d)) [
        | inl wraps ↦
            inr
              (wraps, ap nearest (elim sum [ inl e ↦ absurd (omega arith) | inr e ↦ omega arith ]))
        | inr stays ↦
            inl
              (stays, ap nearest (elim sum [ inl e ↦ omega arith | inr e ↦ absurd (omega arith) ]))
      ]

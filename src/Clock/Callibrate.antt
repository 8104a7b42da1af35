-- ===== src/Clock/Callibrate.antt =====
-- What `callibrate` (benchmark_base/malloc-lab/clock.c) records.
use jungle_malloc_benchmark.Base.{
  ℕ, zero, suc, ◌+◌, ◌≤◌, ◌≡◌, ◌⊎◌, refl, inl, inr, true, false, ltb, lt→ltb, le→ltb, le_or_lt,
  if◌then◌else◌, Option, some, List, [], ◌∷◌, length, arith, ap, ◌∙◌, sym, subst,
}
use jungle_malloc_benchmark.Doubles.{Doubles, IsOrder}
use jungle_malloc_benchmark.Clock.{Counter, get_counter}
use jungle_malloc_benchmark.Clock.Compensated.{
  nevent, Compensation, Calibration, zero_rate, record_thresh, lower_rate, round, rounds,
  callibrate, calibration, start_comp_counter, start_now,
}
use jungle_malloc_benchmark.Clock.Least.{lowest, IsLeast, lowest-IsLeast}

module _ {D : Type 0} (n : Doubles D) (access_counter : ℕ → Counter) (utime : ℕ → ℕ) where
  -- The cycles per tick between two states.
  abbrev rate : Calibration D → Calibration D → D
  rate c c' = n.div (n.sub c'.oldt c.oldt) (n.of_int c'.oldc c.oldc)

  -- The state after some rounds.
  abbrev pub after : ℕ → Calibration D → Calibration D
  after zero c = c
  after (suc k) c = after k (round n access_counter utime c)

  -- The rates of the rounds that count an event, up to NEVENT events.
  abbrev pub rates : ℕ → Calibration D → List D
  rates zero c = []
  rates (suc k) c =
      let c' = round n access_counter utime c in
      let rest = rates k c' in
      if ltb c.e nevent then if ltb c.e c'.e then rate c c' ∷ rest else rest else []

  round-cases :
      (c : Calibration D)
      → (((round n access_counter utime c).e ≡ c.e)
          × ((round n access_counter utime c).globals.cyc_per_tick ≡ c.globals.cyc_per_tick))
        ⊎ (((round n access_counter utime c).e ≡ c.e + 1)
            × ((round n access_counter utime c).globals.cyc_per_tick
                ≡ lower_rate n c.globals.cyc_per_tick (rate c (round n access_counter utime c))))
  unfolding round get_counter
  round-cases c = ground arith

  -- The loop ended, and took these rates.
  record Ended (c : Calibration D) (taken : List D) (r : Option (Calibration D)) : Type 0 where
    final : Calibration D
    ends : r ≡ some final
    lowered : final.globals.cyc_per_tick ≡ lowest n c.globals.cyc_per_tick taken
    count : c.e + length taken ≡ nevent

  rounds-stop :
      (k fuel : ℕ) (c : Calibration D)
      → c.e ≡ nevent
      → Ended c (rates k c) (rounds n access_counter utime (suc fuel) c)
  unfolding rounds
  rounds-stop k fuel c e = record {
    final = c;
    ends = rw (le→ltb c.e nevent (omega arith)) refl;
    lowered = ap (λ l. lowest n c.globals.cyc_per_tick l) (sym (rates-none k c e));
    count = rw (rates-none k c e) (omega arith);
  }
    where
      rates-none : (k : ℕ) (c : Calibration D) → c.e ≡ nevent → rates k c ≡ []
      rates-none zero c e = refl
      rates-none (suc k) c e = rw (le→ltb c.e nevent (omega arith)) refl

  rounds-Ended :
      (fuel : ℕ) (c : Calibration D)
      → c.e ≤ nevent
      → nevent ≤ (after fuel c).e
      → Ended c (rates fuel c) (rounds n access_counter utime (suc fuel) c)
  unfolding rounds
  rounds-Ended zero c le enough = rounds-stop 0 0 c (omega arith)
  rounds-Ended (suc fuel) c le enough = elim (le_or_lt nevent c.e) [
    | inl ge ↦ rounds-stop (suc fuel) (suc fuel) c (omega arith)
    | inr lt ↦
        let c1 = round n access_counter utime c in
        elim (round-cases c) [
          | inl (same, kept) ↦
              let r = rounds-Ended fuel c1 (omega arith) enough in
              rw (lt→ltb c.e nevent lt, le→ltb c.e c1.e (omega arith))
                (record {
                  final = r.final;
                  ends = r.ends;
                  lowered = r.lowered ∙ ap (λ m. lowest n m (rates fuel c1)) kept;
                  count = omega (arith, r.count);
                })
          | inr (next, lowered) ↦
              let r = rounds-Ended fuel c1 (omega arith) enough in
              rw (lt→ltb c.e nevent lt, lt→ltb c.e c1.e (omega arith))
                (record {
                  final = r.final;
                  ends = r.ends;
                  lowered = r.lowered ∙ ap (λ m. lowest n m (rates fuel c1)) lowered;
                  count = omega (arith, r.count);
                })
        ]
  ]

  -- Where the comparison of doubles is an order and none above RECORDTHRESH equals 0.0, the first
  -- `start_comp_counter`, while `cyc_per_tick` is 0.0, returns if `fuel` readings of the counter
  -- show NEVENT timer events or more, on one unit of fuel more. It has taken exactly the first
  -- NEVENT events, and `cyc_per_tick` is then the least of their rates (cycles per tick) that are
  -- above RECORDTHRESH, or still 0.0 if none is.
  pub start_comp_counter-IsLeast :
      IsOrder n.less
      → ((x : D) → n.less (record_thresh n) x ≡ true → n.equal x (zero_rate n) ≡ false)
      → (g : Compensation D) (fuel : ℕ) → n.equal g.cyc_per_tick (zero_rate n) ≡ true
      → nevent ≤ (after fuel (calibration n access_counter utime g)).e
      → (g' : Compensation D) × (start_comp_counter n access_counter utime (suc fuel) g ≡ some g')
        × (length (rates fuel (calibration n access_counter utime g)) ≡ nevent)
        × IsLeast n g'.cyc_per_tick (rates fuel (calibration n access_counter utime g))
  unfolding start_comp_counter callibrate
  start_comp_counter-IsLeast o away g fuel none busy =
      let r = rounds-Ended fuel (calibration n access_counter utime g) (omega arith) busy in
      (
        start_now n access_counter utime r.final.globals,
        rw (none, r.ends) refl,
        omega (arith, r.count),
        subst (λ m. IsLeast n m (rates fuel (calibration n access_counter utime g))) (sym r.lowered)
            (lowest-IsLeast n o away g.cyc_per_tick
              (rates fuel (calibration n access_counter utime g)) none),
      )

-- ===== src/Doubles.antt =====
-- The type `double` of C is a parameter.
use jungle_malloc_benchmark.Base.{ℕ, ◌≡◌, Bool, true, false}

pub record Doubles (D : Type 0) : Type 0 where
  -- A literal, as the fraction that it is rounded from.
  pub decimal : ℕ → ℕ → D
  -- An integer, as the difference of two natural numbers.
  pub of_int : ℕ → ℕ → D
  pub add : D → D → D
  pub mul : D → D → D
  pub div : D → D → D
  pub sub : D → D → D
  pub less : D → D → Bool
  pub at_least : D → D → Bool
  pub equal : D → D → Bool

-- The comparisons of numbers: a NaN is none.
pub record IsOrder {D : Type 0} (lt : D → D → Bool) : Type 0 where
  pub asym : (x y : D) → lt x y ≡ true → lt y x ≡ false
  pub trans : (x y z : D) → lt x y ≡ false → lt y z ≡ false → lt x z ≡ false

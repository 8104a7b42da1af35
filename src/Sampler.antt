-- ===== src/Sampler.antt =====
-- benchmark_base/malloc-lab/fcyc.c: the smallest `kbest` of the measured times. A `double` and its
-- comparisons are parameters.
pub mod Ends
pub mod Insert
pub mod Best
pub mod Result
pub mod Cache
pub mod Fcyc
use jungle_malloc_benchmark.Base.{
  ℕ, zero, suc, ◌+◌, ◌-◌, Bool, true, false, not, ◌&&◌, ltb, leb, if◌then◌else◌, Option, none, some,
  List, [], ◌∷◌, length, get_elem?, set,
}

infixl 5 ◌>>=◌
abbrev pub ◌>>=◌ {ℓ κ} : {A : Type ℓ} {B : Type κ} → Option A → (A → Option B) → Option B
none >>= k = none
some a >>= k = k a

-- The array `values` and `samplecount`.
pub record Sampler (D : Type 0) : Type 0 where
  pub values : List D
  pub samplecount : ℕ

module _ {D : Type 0} where
  -- `calloc(kbest, sizeof(double))`.
  abbrev pub zeros : D → ℕ → List D
  zeros z zero = []
  zeros z (suc k) = z ∷ zeros z k

  unfoldable pub init_sampler : (z : D) (kbest : ℕ) → Sampler D
  init_sampler z kbest = record { values = zeros z kbest; samplecount = 0 }

  -- The insertion sort, from `pos` down; none where `pos` is outside of the array.
  unfoldable pub insertion : (D → D → Bool) → ℕ → List D → Option (List D)
  insertion gt zero values = some values
  insertion gt (suc pos) values = do
    left ← get_elem? values pos
    right ← get_elem? values (suc pos)
    let rest = insertion gt pos (set (set values pos right) (suc pos) left) in
        if gt left right then rest else some values

  -- Where the new sample is stored before the sort, and the array after the store.
  unfoldable pub store_sample : (D → D → Bool) → ℕ → Sampler D → D → Option (ℕ × List D)
  store_sample lt kbest s val =
      if ltb s.samplecount kbest then some (s.samplecount, set s.values s.samplecount val) else do
        worst ← get_elem? s.values (kbest - 1)
        if lt val worst then some (kbest - 1, set s.values (kbest - 1) val) else some (0, s.values)

  unfoldable pub add_sample : (D → D → Bool) → ℕ → Sampler D → D → Option (Sampler D)
  add_sample lt kbest s val = do
    (pos, values) ← store_sample lt kbest s val
    sorted ← insertion (λ x y. lt y x) pos values
    some (record { values = sorted; samplecount = s.samplecount + 1 })

  -- `close` is the test `(1 + epsilon)*values[0] >= values[kbest-1]`.
  unfoldable pub has_converged : (D → D → Bool) → ℕ → Sampler D → Option Bool
  has_converged close kbest s = if not (leb kbest s.samplecount) then some false else do
    best ← get_elem? s.values 0
    worst ← get_elem? s.values (kbest - 1)
    some (close best worst)

  -- The loop of `fcyc` on the i-th run, whose time is `measure i`; none also where the fuel is used up.
  unfoldable pub fcyc_loop :
      (lt close : D → D → Bool) (kbest maxsamples : ℕ) (measure : ℕ → D) (fuel : ℕ)
      → Sampler D
      → Option (Sampler D)
  fcyc_loop lt close kbest maxsamples measure zero s = none
  fcyc_loop lt close kbest maxsamples measure (suc fuel) s = do
    s1 ← add_sample lt kbest s (measure s.samplecount)
    converged ← has_converged close kbest s1
    let rest = fcyc_loop lt close kbest maxsamples measure fuel s1 in
        if not converged && ltb s1.samplecount maxsamples then rest else some s1

  -- One round more than `maxsamples` is enough fuel. The result is `values[0]`.
  unfoldable pub fcyc :
      (z : D) (lt close : D → D → Bool) (kbest maxsamples : ℕ) (measure : ℕ → D) → Option D
  fcyc z lt close kbest maxsamples measure = do
    s ← fcyc_loop lt close kbest maxsamples measure (suc maxsamples) (init_sampler z kbest)
    get_elem? s.values 0

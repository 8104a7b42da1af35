-- ===== src/Clock/Least.antt =====
-- The rates that `callibrate` (benchmark_base/malloc-lab/clock.c) takes over, one after the other.
use jungle_malloc_benchmark.Base.{
  ◌≡◌, ◌⊎◌, refl, inl, inr, true, false, Bool-cases, List, [], ◌∷◌, All, arith, sym, subst, Memᴰ,
}
use jungle_malloc_benchmark.Doubles.{Doubles, IsOrder}
use jungle_malloc_benchmark.Clock.Compensated.{zero_rate, record_thresh, lower_rate}

module _ {D : Type 0} (n : Doubles D) where
  abbrev pub lowest : D → List D → D
  lowest m [] = m
  lowest m (r ∷ rs) = lowest (lower_rate n m r) rs

  abbrev Exceeds : D → Type 0
  Exceeds r = n.less (record_thresh n) r ≡ true

  -- The least of the rates above RECORDTHRESH, or 0.0 if there is none.
  abbrev pub IsLeast : D → List D → Type 0
  IsLeast m rs =
      ((n.equal m (zero_rate n) ≡ true) × All (λ r. n.less (record_thresh n) r ≡ false) rs)
      ⊎ ((n.less (record_thresh n) m ≡ true)
          × Memᴰ m rs
          × All (λ r. n.less (record_thresh n) r ≡ true → n.less r m ≡ false) rs)

  -- From `m` on, which is above the threshold, the rates led to `k`.
  abbrev Reaches : D → List D → D → Type 0
  Reaches m rs k =
      (n.less (record_thresh n) k ≡ true)
      × ((k ≡ m) ⊎ Memᴰ k rs)
      × (n.less m k ≡ false)
      × All (λ r. Exceeds r → n.less r k ≡ false) rs

  module _ (o : IsOrder n.less)
      (away : (x : D) → n.less (record_thresh n) x ≡ true → n.equal x (zero_rate n) ≡ false) where
    lower_rate-below :
        (m r : D)
        → n.less (record_thresh n) m ≡ true
        → ((n.less (record_thresh n) r ≡ true) × (n.less r m ≡ true) × (lower_rate n m r ≡ r))
          ⊎ (((n.less (record_thresh n) r ≡ true) → (n.less r m ≡ false)) × (lower_rate n m r ≡ m))
    unfolding lower_rate
    lower_rate-below m r above = elim (Bool-cases (n.less (record_thresh n) r)) [
      | inl a ↦ elim (Bool-cases (n.less r m)) [
        | inl b ↦ inl (a, b, ground (arith, a, b))
        | inr b ↦ inr (λ _. b, ground (arith, a, b, away m above))
      ]
      | inr a ↦ inr (λ h. absurd (cc (h, a)), ground (arith, a))
    ]

    lower_rate-first :
        (m r : D)
        → n.equal m (zero_rate n) ≡ true
        → ((n.less (record_thresh n) r ≡ true) × (lower_rate n m r ≡ r))
          ⊎ ((n.less (record_thresh n) r ≡ false) × (lower_rate n m r ≡ m))
    unfolding lower_rate
    lower_rate-first m r none = elim (Bool-cases (n.less (record_thresh n) r)) [
      | inl a ↦ inl (a, ground (arith, a, none))
      | inr a ↦ inr (a, ground (arith, a))
    ]

    lowest-IsLeast_above :
        (m : D) (rs : List D) → n.less (record_thresh n) m ≡ true → Reaches m rs (lowest m rs)
    lowest-IsLeast_above m [] above =
        (above, inl refl, elim (Bool-cases (n.less m m)) [ inl e ↦ o.asym m m e | inr e ↦ e ], tt)
    lowest-IsLeast_above m (r ∷ rs) above = elim (lower_rate-below m r above) [
      | inl (a, b, e) ↦
          let (p, q, l, all) = lowest-IsLeast_above r rs a in
          subst (λ x. Reaches m (r ∷ rs) (lowest x rs)) (sym e)
            (
              p,
              inr (elim q [ inl f ↦ Memᴰ.head f | inr h ↦ Memᴰ.tail h ]),
              o.trans m r (lowest r rs) (o.asym r m b) l,
              (λ _. l, all),
            )
      | inr (f, e) ↦
          let (p, q, l, all) = lowest-IsLeast_above m rs above in
          subst (λ x. Reaches m (r ∷ rs) (lowest x rs)) (sym e)
            (
              p,
              elim q [ inl g ↦ inl g | inr h ↦ inr (Memᴰ.tail h) ],
              l,
              (λ h. o.trans r m (lowest m rs) (f h) l, all),
            )
    ]

    pub lowest-IsLeast :
        (m : D) (rs : List D) → n.equal m (zero_rate n) ≡ true → IsLeast (lowest m rs) rs
    lowest-IsLeast m [] none = inl (none, tt)
    lowest-IsLeast m (r ∷ rs) none = elim (lower_rate-first m r none) [
      | inl (a, e) ↦
          let (p, q, l, all) = lowest-IsLeast_above r rs a in
          subst (λ x. IsLeast (lowest x rs) (r ∷ rs)) (sym e)
            (inr (p, elim q [ inl f ↦ Memᴰ.head f | inr h ↦ Memᴰ.tail h ], (λ _. l, all)))
      | inr (a, e) ↦
          subst (λ x. IsLeast (lowest x rs) (r ∷ rs)) (sym e)
            (elim (lowest-IsLeast m rs none) [
              | inl (z, all) ↦ inl (z, (a, all))
              | inr (p, h, all) ↦ inr (p, Memᴰ.tail h, (λ b. absurd (cc (a, b)), all))
            ])
    ]

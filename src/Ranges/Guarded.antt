-- ===== src/Ranges/Guarded.antt =====
-- What the tests of `add_range` and `remove_range` (mdriver.c) keep true of the range list.
use jungle_malloc_benchmark.Base.{
  ℕ, ◌+◌, ◌-◌, ◌%◌, ◌≤◌, ◌<◌, ◌≡◌, ◌⊎◌, inl, inr, true, false, ◌==◌, Bool-cases, List, [], ◌∷◌,
  arith, All, All-map, subst, sym,
}
use jungle_malloc_benchmark.Memory.{Ptr}
use jungle_malloc_benchmark.Memlib.{Memlib}
use jungle_malloc_benchmark.Ranges.{Range, added, is_aligned, any_touches, add_range, remove_range}
use jungle_malloc_benchmark.Ranges.Checks.{
  range, EndsOutside, Disjoint, Covers, any_touches_iff, is_aligned_iff, apart_or_Covers,
}

-- Each range is aligned and not empty, and neither of its ends lies in an older one.
abbrev pub Guarded : List Range → Type 0
Guarded [] = Unit
Guarded (p ∷ ranges) =
    (p.lo % 8 ≡ 0) × (p.lo ≤ p.hi) × All (EndsOutside p.lo p.hi) ranges × Guarded ranges

-- The tests that do not look at the heap.
pub tested :
    (m : Memlib) (ranges : List Range) (lo size : ℕ) (ranges' : List Range)
    → add_range m ranges lo size ≡ added ranges'
    → (0 < size)
      × (is_aligned lo ≡ true)
      × (any_touches lo (lo + size - 1) ranges ≡ false)
      × (ranges' ≡ range lo (lo + size - 1) ∷ ranges)
unfolding add_range
tested m ranges lo size ranges' e = ground arith

pub add_range-Guarded :
    (m : Memlib) (ranges : List Range) (lo size : ℕ) (ranges' : List Range)
    → add_range m ranges lo size ≡ added ranges'
    → Guarded ranges
    → Guarded ranges'
add_range-Guarded m ranges lo size ranges' e g =
    let (pos, aligned, apart, new) = tested m ranges lo size ranges' e in
    subst Guarded (sym new) (
      (is_aligned_iff lo).0 aligned,
      omega arith,
      (any_touches_iff lo (lo + size - 1) ranges).0 apart,
      g,
    )

All-remove_range :
    (P : Range → Type 0) (ranges : List Range) (lo : Ptr)
    → All P ranges
    → All P (remove_range ranges lo)
unfolding remove_range
All-remove_range P [] lo all = tt
All-remove_range P (p ∷ ranges) lo (h, all) = elim (Bool-cases (p.lo == lo)) [
  | inl same ↦ rw same all
  | inr other ↦ rw other (h, All-remove_range P ranges lo all)
]

pub remove_range-Guarded :
    (ranges : List Range) (lo : Ptr) → Guarded ranges → Guarded (remove_range ranges lo)
unfolding remove_range
remove_range-Guarded [] lo g = tt
remove_range-Guarded (p ∷ ranges) lo (aligned, order, ends, g) = elim (Bool-cases (p.lo == lo)) [
  | inl same ↦ rw same g
  | inr other ↦ rw other (
    aligned,
    order,
    All-remove_range (EndsOutside p.lo p.hi) ranges lo ends,
    remove_range-Guarded ranges lo g,
  )
]

-- Each range is aligned and not empty, and disjoint from each older one, unless it covers that one
-- and more on both sides.
abbrev pub Parted : List Range → Type 0
Parted [] = Unit
Parted (p ∷ ranges) =
    (p.lo % 8 ≡ 0)
    × (p.lo ≤ p.hi)
    × All (λ q. Disjoint p.lo p.hi q ⊎ Covers p.lo p.hi q) ranges
    × Parted ranges

pub Guarded-Parted : (ranges : List Range) → Guarded ranges → Parted ranges
Guarded-Parted [] g = tt
Guarded-Parted (p ∷ ranges) (aligned, order, ends, g) = (
  aligned,
  order,
  All-map ranges (λ q h. apart_or_Covers p.lo p.hi q h) ends,
  Guarded-Parted ranges g,
)

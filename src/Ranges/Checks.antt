-- ===== src/Ranges/Checks.antt =====
-- The tests of `add_range` and the ranges that `remove_range` keeps.
use jungle_malloc_benchmark.Base.{
  ℕ, ◌+◌, ◌-◌, ◌%◌, ◌≤◌, ◌<◌, ◌≡◌, ◌≢◌, ◌↔◌, ◌⊎◌, refl, inl, inr, true, false, ◌==◌, Bool-cases,
  List, [], ◌∷◌, arith, All, ap, sym, subst, ◌∙◌,
}
use jungle_malloc_benchmark.Memory.{Ptr}
use jungle_malloc_benchmark.Memlib.{Memlib, mem_heap_lo, mem_heap_hi}
use jungle_malloc_benchmark.Ranges.{Range, added, is_aligned, any_touches, add_range, remove_range}

abbrev pub range : Ptr → Ptr → Range
range lo hi = record { lo = lo; hi = hi }

-- Neither end of the new payload lies in the range.
abbrev pub EndsOutside : Ptr → Ptr → Range → Type 0
EndsOutside lo hi p = ((lo < p.lo) ⊎ (p.hi < lo)) × ((hi < p.lo) ⊎ (p.hi < hi))

-- No byte is common.
abbrev pub Disjoint : Ptr → Ptr → Range → Type 0
Disjoint lo hi p = (hi < p.lo) ⊎ (p.hi < lo)

-- The new payload covers the whole range and more, on both sides.
abbrev pub Covers : Ptr → Ptr → Range → Type 0
Covers lo hi p = (lo < p.lo) × (p.hi < hi)

pub any_touches_iff :
    (lo hi : Ptr) (ranges : List Range)
    → (any_touches lo hi ranges ≡ false) ↔ All (EndsOutside lo hi) ranges
unfolding any_touches
any_touches_iff lo hi [] = (λ _. tt, λ _. refl)
any_touches_iff lo hi (p ∷ ranges) =
    let both = any_touches_iff lo hi ranges in
    (λ e. ground (arith, both.0), λ h. ground (arith, both.1, h.0, h.1))

pub is_aligned_iff : (p : Ptr) → (is_aligned p ≡ true) ↔ (p % 8 ≡ 0)
unfolding is_aligned
is_aligned_iff p = ground arith

-- What `add_range` asks of a payload.
pub record Acceptable (m : Memlib) (ranges : List Range) (lo size : ℕ) : Type 0 where
  pub nonempty : 0 < size
  pub aligned : lo % 8 ≡ 0
  pub above : m.start_brk ≤ lo
  pub below : lo + size ≤ m.brk
  pub ends : All (EndsOutside lo (lo + size - 1)) ranges

pub add_range-added :
    (m : Memlib) (ranges : List Range) (lo size : ℕ)
    → Acceptable m ranges lo size
    → add_range m ranges lo size ≡ added (range lo (lo + size - 1) ∷ ranges)
unfolding add_range mem_heap_lo mem_heap_hi
add_range-added m ranges lo size a = ground (
  arith,
  a.nonempty,
  a.above,
  a.below,
  (is_aligned_iff lo).1 a.aligned,
  (any_touches_iff lo (lo + size - 1) ranges).1 a.ends,
)

-- The tests that an accepted payload has passed.
passed :
    (m : Memlib) (ranges : List Range) (lo size : ℕ) (ranges' : List Range)
    → 0 < m.brk
    → add_range m ranges lo size ≡ added ranges'
    → (0 < size)
      × (is_aligned lo ≡ true)
      × (m.start_brk ≤ lo)
      × (lo + size ≤ m.brk)
      × (any_touches lo (lo + size - 1) ranges ≡ false)
      × (ranges' ≡ range lo (lo + size - 1) ∷ ranges)
unfolding add_range mem_heap_lo mem_heap_hi
passed m ranges lo size ranges' pos e = ground arith

added-Acceptable :
    (m : Memlib) (ranges : List Range) (lo size : ℕ) (ranges' : List Range)
    → 0 < m.brk
    → add_range m ranges lo size ≡ added ranges'
    → Acceptable m ranges lo size × (ranges' ≡ range lo (lo + size - 1) ∷ ranges)
added-Acceptable m ranges lo size ranges' pos e =
    let (nonempty, aligned, above, below, ends, new) = passed m ranges lo size ranges' pos e in
    (
      record {
        nonempty = nonempty;
        aligned = (is_aligned_iff lo).0 aligned;
        above = above;
        below = below;
        ends = (any_touches_iff lo (lo + size - 1) ranges).0 ends;
      },
      new,
    )

-- `add_range` accepts a payload exactly when it is aligned, not empty, inside the heap, and
-- neither of its ends lies in a stored range; the new range then stands in front. The brk is not
-- at address 0.
pub add_range_iff :
    (m : Memlib) (ranges : List Range) (lo size : ℕ) (ranges' : List Range)
    → 0 < m.brk
    → (add_range m ranges lo size ≡ added ranges')
      ↔ Acceptable m ranges lo size × (ranges' ≡ range lo (lo + size - 1) ∷ ranges)
add_range_iff m ranges lo size ranges' pos = (
  added-Acceptable m ranges lo size ranges' pos,
  λ (a, new). add_range-added m ranges lo size a ∙ ap added (sym new),
)

-- Where no end of the payload lies in the range, the two are apart or the payload covers the range.
pub apart_or_Covers :
    (lo hi : Ptr) (p : Range) → EndsOutside lo hi p → Disjoint lo hi p ⊎ Covers lo hi p
apart_or_Covers lo hi p ends = ground arith

ends-Disjoint :
    (lo hi : Ptr) (ranges : List Range)
    → All (EndsOutside lo hi) ranges
    → All (λ p. ¬ Covers lo hi p) ranges
    → All (Disjoint lo hi) ranges
ends-Disjoint lo hi [] ends covers = tt
ends-Disjoint lo hi (p ∷ ranges) (end, ends) (cover, covers) = (
  elim (apart_or_Covers lo hi p end) [ inl d ↦ d | inr c ↦ absurd (cover c) ],
  ends-Disjoint lo hi ranges ends covers,
)

-- An accepted payload that covers no stored range on both sides is disjoint from all of them. The
-- brk is not at address 0.
add_range-Disjoint :
    (m : Memlib) (ranges : List Range) (lo size : ℕ) (ranges' : List Range)
    → 0 < m.brk
    → add_range m ranges lo size ≡ added ranges'
    → All (λ p. ¬ Covers lo (lo + size - 1) p) ranges
    → All (Disjoint lo (lo + size - 1)) ranges
add_range-Disjoint m ranges lo size ranges' pos e covers =
    let (a, _) = added-Acceptable m ranges lo size ranges' pos e in
    ends-Disjoint lo (lo + size - 1) ranges a.ends covers

-- A payload that covers the only stored range on both sides is accepted, if it is aligned, not
-- empty and inside the heap, although the two overlap.
pub add_range-Covers :
    (m : Memlib) (p : Range) (lo size : ℕ)
    → 0 < size
    → lo % 8 ≡ 0
    → m.start_brk ≤ lo
    → lo + size ≤ m.brk
    → p.lo ≤ p.hi
    → Covers lo (lo + size - 1) p
    → (add_range m (p ∷ []) lo size ≡ added (range lo (lo + size - 1) ∷ p ∷ []))
      × ¬ Disjoint lo (lo + size - 1) p
add_range-Covers m p lo size pos aligned above below order (left, right) = (
  add_range-added m (p ∷ []) lo size (record {
    nonempty = pos;
    aligned = aligned;
    above = above;
    below = below;
    ends = ((inl left, inr right), tt);
  }),
  λ d. ground arith,
)

-- `r` is stored.
abbrev pub Stored : Range → List Range → Type 0
Stored r [] = ⊥
Stored r (p ∷ ranges) = (r ≡ p) ⊎ Stored r ranges

-- No two ranges start at one address.
abbrev pub Distinct : List Range → Type 0
Distinct [] = Unit
Distinct (p ∷ ranges) = All (λ q. q.lo ≢ p.lo) ranges × Distinct ranges

pub All-Stored {ℓ} :
    (P : Range → Type ℓ) (ranges : List Range) (r : Range) → All P ranges → Stored r ranges → P r
All-Stored P [] r all h = absurd h
All-Stored P (p ∷ ranges) r all (inl e) = subst P (sym e) all.0
All-Stored P (p ∷ ranges) r all (inr h) = All-Stored P ranges r all.1 h

-- Where no two ranges start at one address, `remove_range` drops the range that starts at `lo`,
-- if there is one, and keeps all others.
pub remove_range_iff :
    (ranges : List Range) (lo : Ptr) (r : Range)
    → Distinct ranges
    → Stored r (remove_range ranges lo) ↔ Stored r ranges × (r.lo ≢ lo)
unfolding remove_range
remove_range_iff [] lo r d = (λ h. absurd h, λ h. absurd h.0)
remove_range_iff (p ∷ ranges) lo r (away, d) = elim (Bool-cases (p.lo == lo)) [
  | inl same ↦
      let e : p.lo ≡ lo = ground arith in
      rw same (
        λ h. (inr h, λ f. All-Stored (λ q. q.lo ≢ p.lo) ranges r away h (f ∙ sym e)),
        λ (h, ne). elim h [ inl f ↦ absurd (ne (ap (λ (q : Range). q.lo) f ∙ e)) | inr g ↦ g ],
      )
  | inr other ↦
      let ne : p.lo ≢ lo = ground arith in
      let both = remove_range_iff ranges lo r d in
      rw other (
        elim [
          | inl f ↦ (inl f, λ e. ne (sym (ap (λ (q : Range). q.lo) f) ∙ e))
          | inr h ↦ (inr (both.0 h).0, (both.0 h).1)
        ],
        λ (h, away'). elim h [ inl f ↦ inl f | inr g ↦ inr (both.1 (g, away')) ],
      )
]

-- ===== src/Sampler/Insert.antt =====
-- The insertion sort of `add_sample` (benchmark_base/malloc-lab/fcyc.c) on an array that is sorted
-- below the new sample. The sorted part is written from its end down.
use jungle_malloc_benchmark.Base.{
  ℕ, suc, ◌+◌, ◌≡◌, refl, inl, inr, Bool, false, Bool-cases, if◌then◌else◌, some, List, [], ◌∷◌,
  length, get_elem?, set, arith, ap, ◌∙◌, All, All-map, Perm,
}
use mathlib.Core.List.Perm
use jungle_malloc_benchmark.Sampler.{insertion}
use jungle_malloc_benchmark.Doubles.{IsOrder}

module _ {D : Type 0} where
  -- A descending list, and what stands behind it, as an array.
  abbrev pub onto : List D → List D → List D
  onto [] rest = rest
  onto (x ∷ xs) rest = onto xs (x ∷ rest)

  pub length-onto : (xs rest : List D) → length (onto xs rest) ≡ length xs + length rest
  length-onto [] rest = omega arith
  length-onto (x ∷ xs) rest = omega (arith, length-onto xs (x ∷ rest))

  pub get_elem?-onto :
      (xs rest : List D) (i n : ℕ)
      → n ≡ i + length xs
      → get_elem? (onto xs rest) n ≡ get_elem? rest i
  get_elem?-onto [] rest i n e = let same : n ≡ i = omega arith in ap (get_elem? rest) same
  get_elem?-onto (x ∷ xs) rest i n e = get_elem?-onto xs (x ∷ rest) (suc i) n (omega arith)

  pub set-onto :
      (xs rest : List D) (i n : ℕ) (v : D)
      → n ≡ i + length xs
      → set (onto xs rest) n v ≡ onto xs (set rest i v)
  set-onto [] rest i n v e = let same : n ≡ i = omega arith in ap (λ k. set rest k v) same
  set-onto (x ∷ xs) rest i n v e = set-onto xs (x ∷ rest) (suc i) n v (omega arith)

module _ {D : Type 0} (lt : D → D → Bool) where
  abbrev pub insert_down : D → List D → List D
  insert_down val [] = val ∷ []
  insert_down val (y ∷ ys) = if lt val y then y ∷ insert_down val ys else val ∷ y ∷ ys

  pub insertion-insert_down :
      (val : D) (xs rest : List D)
      → insertion (λ x y. lt y x) (length xs) (onto xs (val ∷ rest))
        ≡ some (onto (insert_down val xs) rest)
  unfolding insertion
  insertion-insert_down val [] rest = refl
  insertion-insert_down val (y ∷ ys) rest =
      let n = length ys in
      let left = get_elem?-onto ys (y ∷ val ∷ rest) 0 n (omega arith) in
      let right = get_elem?-onto ys (y ∷ val ∷ rest) 1 (suc n) (omega arith) in
      let swapped =
        ap (λ l. set l (suc n) y) (set-onto ys (y ∷ val ∷ rest) 0 n val (omega arith))
        ∙ set-onto ys (val ∷ val ∷ rest) 1 (suc n) y (omega arith) in
      elim (Bool-cases (lt val y)) [
        | inl e ↦ rw (left, right, e, swapped) (insertion-insert_down val ys (y ∷ rest))
        | inr e ↦ rw (left, right, e) refl
      ]

  pub length-insert_down : (val : D) (xs : List D) → length (insert_down val xs) ≡ suc (length xs)
  length-insert_down val [] = refl
  length-insert_down val (y ∷ ys) = elim (Bool-cases (lt val y)) [
    | inl e ↦ rw e (ap suc (length-insert_down val ys))
    | inr e ↦ rw e refl
  ]

  pub insert_down-perm : (val : D) (xs : List D) → Perm (insert_down val xs) (val ∷ xs)
  insert_down-perm val [] = Perm.rfl
  insert_down-perm val (y ∷ ys) = elim (Bool-cases (lt val y)) [
    | inl e ↦ rw e (Perm.trans (Perm.cons y (insert_down-perm val ys)) (Perm.swap val y ys))
    | inr e ↦ rw e Perm.rfl
  ]

  pub All-insert_down :
      (P : D → Type 0) (val : D) (xs : List D) → P val → All P xs → All P (insert_down val xs)
  All-insert_down P val [] here all = (here, tt)
  All-insert_down P val (y ∷ ys) here all = elim (Bool-cases (lt val y)) [
    | inl e ↦ rw e (all.0, All-insert_down P val ys here all.1)
    | inr e ↦ rw e (here, all)
  ]

  -- No element is less than one after it.
  abbrev pub IsDescending : List D → Type 0
  IsDescending [] = Unit
  IsDescending (x ∷ xs) = All (λ y. lt x y ≡ false) xs × IsDescending xs

  pub insert_down-IsDescending :
      IsOrder lt → (val : D) (xs : List D) → IsDescending xs → IsDescending (insert_down val xs)
  insert_down-IsDescending o val [] desc = (tt, tt)
  insert_down-IsDescending o val (y ∷ ys) (below, desc) = elim (Bool-cases (lt val y)) [
    | inl e ↦ rw e (
      All-insert_down (λ z. lt y z ≡ false) val ys (o.asym val y e) below,
      insert_down-IsDescending o val ys desc,
    )
    | inr e ↦ rw e ((e, All-map ys (λ z. o.trans val y z e) below), (below, desc))
  ]

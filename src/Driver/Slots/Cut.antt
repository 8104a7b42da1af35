-- ===== src/Driver/Slots/Cut.antt =====
-- The entry that a request of a trace names, and the others.
use jungle_malloc_benchmark.Base.{
  ℕ, ◌<◌, ◌≡◌, ◌≢◌, some, get_elem?, get_elem?-some_lt, List, [], ◌∷◌, ◌++◌, arith, subst, All,
  All-cut, map,
}
use jungle_malloc_benchmark.Mm.Block.{Block}
use jungle_malloc_benchmark.Driver.{Driver}
use jungle_malloc_benchmark.Driver.Slots.{Slot, Keeps, Other, Separate, Separate-cut, Steady}
use jungle_malloc_benchmark.Driver.Valid.Proper.{Keys, key, Found}

-- None of the entries has this index.
pub away_of_keys :
    (index : ℕ) (xs : List Slot)
    → All (λ (k : ℕ × ℕ). k.0 ≢ index) (map key xs)
    → All (λ (x : Slot). (x.index ≢ index) × Unit {0}) xs
away_of_keys index [] all = tt
away_of_keys index (x ∷ xs) all = ((all.0, tt), away_of_keys index xs all.1)

module _ {d : Driver} {bs : List Block} {ids : ℕ} {live : List Slot} (s : Steady d bs ids live)
    {before : Keys} {i n : ℕ} {after : Keys} (f : Found live before i n after) where
  pub cut_Keeps : Keeps d bs f.slot × All (Keeps d bs) (f.front ++ f.back)
  cut_Keeps =
      All-cut (Keeps d bs) f.front f.slot f.back (subst (λ l. All (Keeps d bs) l) f.parts s.held)

  pub cut_Separate : All (Other f.slot) (f.front ++ f.back) × Separate (f.front ++ f.back)
  cut_Separate = Separate-cut f.front f.slot f.back (subst (λ l. Separate l) f.parts s.separate)

  pub named : get_elem? d.blocks i ≡ some f.slot.ptr
  named = subst (λ k. get_elem? d.blocks k ≡ some f.slot.ptr) f.same_index cut_Keeps.0.block

  pub named_size : get_elem? d.block_sizes i ≡ some n
  named_size =
      subst (λ m. get_elem? d.block_sizes i ≡ some m) f.same_size
        (subst (λ k. get_elem? d.block_sizes k ≡ some f.slot.size) f.same_index
          cut_Keeps.0.block_size)

  pub index_inside : i < ids
  index_inside =
      omega (
        arith,
        get_elem?-some_lt d.blocks f.slot.index cut_Keeps.0.block,
        f.same_index,
        s.in_blocks,
      )

  pub others_away :
      (xs : List Slot) → All (Other f.slot) xs → All (λ x. (x.index ≢ i) × (x.ptr ≢ f.slot.ptr)) xs
  others_away [] all = tt
  others_away (x ∷ xs) (o, all) =
      ((subst (λ k. x.index ≢ k) f.same_index o.0, o.1), others_away xs all)

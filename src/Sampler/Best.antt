-- ===== src/Sampler/Best.antt =====
-- The array of `fcyc` (benchmark_base/malloc-lab/fcyc.c) holds the smallest samples in order.
use jungle_malloc_benchmark.Base.{
  ℕ, suc, ◌+◌, ◌-◌, ◌<◌, Option, ◌≡◌, ◌⊎◌, refl, inl, inr, Bool, false, lt→ltb, le→ltb, Bool-cases,
  some, List, [], ◌∷◌, ◌++◌, length, arith, ap, sym, ◌∙◌, subst, All, All-map, Perm,
}
use mathlib.Core.List.Perm
use mathlib.Core.List.{perm_middle}
use jungle_malloc_benchmark.Sampler.{
  Sampler, zeros, init_sampler, insertion, store_sample, add_sample,
}
use jungle_malloc_benchmark.Doubles.{IsOrder}
use jungle_malloc_benchmark.Sampler.Insert.{
  onto, length-onto, get_elem?-onto, set-onto, insert_down, insertion-insert_down,
  length-insert_down, insert_down-perm, All-insert_down, IsDescending, insert_down-IsDescending,
}
use jungle_malloc_benchmark.Sampler.Ends.{length-zeros}

module _ {D : Type 0} (lt : D → D → Bool) (kbest : ℕ) where
  abbrev sampler_of : (kept unused dropped : List D) → Sampler D
  sampler_of kept unused dropped = record {
    values = onto kept unused;
    samplecount = length kept + length dropped;
  }

  -- The samples are the kept ones and the dropped ones; the array holds the kept ones in ascending
  -- order and then what is not used yet. None is dropped before the array is full, and none of
  -- the dropped is less than a kept one.
  pub record IsBest (s : Sampler D) (samples : List D) : Type 0 where
    pub kept : List D
    pub unused : List D
    pub dropped : List D
    pub same : s ≡ sampler_of kept unused dropped
    pub size : length kept + length unused ≡ kbest
    pub full : (length dropped ≡ 0) ⊎ (length unused ≡ 0)
    pub descending : IsDescending lt kept
    pub perm : Perm (kept ++ dropped) samples
    pub above : All (λ d. All (λ k. lt d k ≡ false) kept) dropped

  -- The sampler after one more sample.
  abbrev pub Added : Sampler D → D → List D → Type 0
  Added s val samples =
      (s' : Sampler D) × (add_sample lt kbest s val ≡ some s')
      × (s'.samplecount ≡ s.samplecount + 1)
      × IsBest s' (val ∷ samples)

  counted :
      (values : List D) {a b : ℕ}
      → a ≡ b
      → Path
          (Option (Sampler D))
          (some (record { values = values; samplecount = a }))
          (some (record { values = values; samplecount = b }))
  counted values e = ap (λ (n : ℕ). some (record { values = values; samplecount = n })) e

  add_sample-filling :
      IsOrder lt
      → (val : D) (kept : List D) (u : D) (unused samples : List D)
      → length kept + suc (length unused) ≡ kbest
      → IsDescending lt kept
      → Perm (kept ++ []) samples
      → Added (sampler_of kept (u ∷ unused) []) val samples
  unfolding add_sample store_sample
  add_sample-filling o val kept u unused samples size desc perm =
      let n = length kept + 0 in
      let here : n ≡ length kept = omega arith in
      let stored = set-onto kept (u ∷ unused) 0 n val (omega arith) in
      let grown = length-insert_down lt val kept in
      (
        sampler_of (insert_down lt val kept) unused [],
        rw
            (
              lt→ltb n kbest (omega arith),
              stored,
              here,
              insertion-insert_down lt val kept unused,
              grown,
            )
            (counted _ (omega arith)),
        omega arith,
        record {
          kept = insert_down lt val kept;
          unused = unused;
          dropped = [];
          same = refl;
          size = omega arith;
          full = inl refl;
          descending = insert_down-IsDescending lt o val kept desc;
          perm =
              Perm.trans (Perm.append_right [] (insert_down-perm lt val kept)) (Perm.cons val perm);
          above = tt;
        },
      )

  add_sample-full :
      IsOrder lt
      → (val y : D) (ys dropped samples : List D) → suc (length ys) ≡ kbest
      → IsDescending lt (y ∷ ys)
      → Perm (y ∷ ys ++ dropped) samples
      → All (λ d. All (λ k. lt d k ≡ false) (y ∷ ys)) dropped
      → Added (sampler_of (y ∷ ys) [] dropped) val samples
  unfolding add_sample store_sample insertion
  add_sample-full o val y ys dropped samples size (below, desc) perm above =
      let n = suc (length ys) + length dropped in
      let last : kbest - 1 ≡ length ys = omega arith in
      let worst = get_elem?-onto ys (y ∷ []) 0 (length ys) (omega arith) in
      let stored = set-onto ys (y ∷ []) 0 (length ys) val (omega arith) in
      let grown = length-insert_down lt val ys in
      let no_room = le→ltb n kbest (omega arith) in
      elim (Bool-cases (lt val y)) [
        | inl e ↦ (
          sampler_of (insert_down lt val ys) [] (y ∷ dropped),
          rw (no_room, last, worst, e, stored, insertion-insert_down lt val ys [], grown)
              (counted _ (omega arith)),
          omega arith,
          record {
            kept = insert_down lt val ys;
            unused = [];
            dropped = y ∷ dropped;
            same = refl;
            size = omega arith;
            full = inr refl;
            descending = insert_down-IsDescending lt o val ys desc;
            perm =
                Perm.trans (Perm.append_right (y ∷ dropped) (insert_down-perm lt val ys))
                  (Perm.cons val (Perm.trans (perm_middle ys dropped) perm));
            above = (
              All-insert_down lt (λ k. lt y k ≡ false) val ys (o.asym val y e) below,
              All-map dropped
                  (λ d all.
                    All-insert_down lt (λ k. lt d k ≡ false) val ys
                      (o.trans d y val all.0 (o.asym val y e)) all.1)
                  above,
            );
          },
        )
        | inr e ↦ (
          sampler_of (y ∷ ys) [] (val ∷ dropped),
          rw (no_room, last, worst, e) (counted _ (omega arith)),
          omega arith,
          record {
            kept = y ∷ ys;
            unused = [];
            dropped = val ∷ dropped;
            same = refl;
            size = omega arith;
            full = inr refl;
            descending = (below, desc);
            perm = Perm.trans (perm_middle (y ∷ ys) dropped) (Perm.cons val perm);
            above = ((e, All-map ys (λ z. o.trans val y z e) below), above);
          },
        )
      ]

  pub add_sample-IsBest :
      IsOrder lt
      → 0 < kbest
      → (s : Sampler D) (val : D) (samples : List D) → IsBest s samples
      → Added s val samples
  add_sample-IsBest o pos s val samples best =
      subst (λ t. Added t val samples) (sym best.same)
        (by_lists best.kept best.unused best.dropped best.size best.full best.descending best.perm
          best.above)
    where
      by_lists :
          (kept unused dropped : List D)
          → length kept + length unused ≡ kbest
          → (length dropped ≡ 0) ⊎ (length unused ≡ 0)
          → IsDescending lt kept
          → Perm (kept ++ dropped) samples
          → All (λ d. All (λ k. lt d k ≡ false) kept) dropped
          → Added (sampler_of kept unused dropped) val samples
      by_lists kept (u ∷ unused) [] size full desc perm above =
          add_sample-filling o val kept u unused samples size desc perm
      by_lists kept (u ∷ unused) (d ∷ dropped) size (inl e) desc perm above =
          absurd (omega (arith, e))
      by_lists kept (u ∷ unused) (d ∷ dropped) size (inr e) desc perm above =
          absurd (omega (arith, e))
      by_lists [] [] dropped size full desc perm above = absurd (omega arith)
      by_lists (y ∷ ys) [] dropped size full desc perm above =
          add_sample-full o val y ys dropped samples (omega arith) desc perm above

  pub length-IsBest :
      (s : Sampler D) (samples : List D) → IsBest s samples → length s.values ≡ kbest
  length-IsBest s samples best =
      ap (λ (t : Sampler D). length t.values) best.same
      ∙ length-onto best.kept best.unused
      ∙ best.size

  pub init_sampler-IsBest : (z : D) → IsBest (init_sampler z kbest) []
  unfolding init_sampler
  init_sampler-IsBest z = record {
    kept = [];
    unused = zeros z kbest;
    dropped = [];
    same = refl;
    size = omega (arith, length-zeros z kbest);
    full = inl refl;
    descending = tt;
    perm = Perm.rfl;
    above = tt;
  }

-- ===== src/Mm/Spec/Grow.antt =====
-- Growing a heap by `z` bytes: `release bs z []`.
use jungle_malloc_benchmark.Base.{
  ℕ, ◌+◌, ◌%◌, ◌≤◌, ◌≡◌, ◌⊎◌, refl, inl, inr, List, [], ◌∷◌, ◌++◌, arith, All, ap,
}
use jungle_malloc_benchmark.Mm.Block.{Block, used, free}
use jungle_malloc_benchmark.Mm.Spec.{total, release, slack, IsBlock, Coalesced}

-- The free bytes at the end of a heap.
abbrev pub last_slack : List Block → ℕ
last_slack [] = 0
last_slack (b ∷ []) = slack b
last_slack (b ∷ c ∷ bs) = last_slack (c ∷ bs)

pub last_slack-append : (init : List Block) (p : Block) → last_slack (init ++ (p ∷ [])) ≡ slack p
last_slack-append [] p = refl
last_slack-append (q ∷ []) p = refl
last_slack-append (q ∷ r ∷ init) p = last_slack-append (r ∷ init) p

pub last_slack-prologue : (bs : List Block) → last_slack (used 8 ∷ bs) ≡ last_slack bs
last_slack-prologue [] = refl
last_slack-prologue (b ∷ bs) = refl

-- The grown list ends in a free block.
pub record Ends (bs : List Block) (z : ℕ) (grown : List Block) : Type 0 where
  pub before : List Block
  pub parts : grown ≡ before ++ (free (z + last_slack bs) ∷ [])
  pub sum : total before + last_slack bs ≡ total bs

pub release-Ends : (bs : List Block) (z : ℕ) → Ends bs z (release bs z [])
release-Ends [] z =
    let e : z ≡ z + 0 = omega arith in
    record { before = []; parts = ap (λ k. free k ∷ []) e; sum = omega arith }
release-Ends (used m ∷ []) z =
    let e : z ≡ z + 0 = omega arith in
    record { before = used m ∷ []; parts = ap (λ k. used m ∷ free k ∷ []) e; sum = omega arith }
release-Ends (free m ∷ []) z = record { before = []; parts = refl; sum = omega arith }
release-Ends (b ∷ c ∷ bs) z =
    let inner = release-Ends (c ∷ bs) z in
    record {
      before = b ∷ inner.before;
      parts = ap (λ l. b ∷ l) inner.parts;
      sum = omega (arith, inner.sum);
    }

-- A block in use at the end keeps a list in shape, so that `release` applies to it.
pub snoc-IsBlock :
    (bs : List Block) (z : ℕ)
    → z % 8 ≡ 0
    → 16 ≤ z
    → All IsBlock bs
    → All IsBlock (bs ++ (used z ∷ []))
snoc-IsBlock [] z mult least all = ((mult, least), tt)
snoc-IsBlock (b ∷ bs) z mult least all = (all.0, snoc-IsBlock bs z mult least all.1)

pub snoc-Coalesced : (bs : List Block) (z : ℕ) → Coalesced bs → Coalesced (bs ++ (used z ∷ []))
snoc-Coalesced [] z c = (tt, tt)
snoc-Coalesced (used m ∷ bs) z c = (tt, snoc-Coalesced bs z c.1)
snoc-Coalesced (free m ∷ []) z c = (tt, (tt, tt))
snoc-Coalesced (free m ∷ used j ∷ bs) z c = (tt, snoc-Coalesced (used j ∷ bs) z c.1)
snoc-Coalesced (free m ∷ free j ∷ bs) z c = absurd c.0

pub last_slack-IsBlock :
    (bs : List Block)
    → All IsBlock bs
    → (last_slack bs % 8 ≡ 0) × ((last_slack bs ≡ 0) ⊎ (16 ≤ last_slack bs))
last_slack-IsBlock [] all = (refl, inl refl)
last_slack-IsBlock (used m ∷ []) all = (refl, inl refl)
last_slack-IsBlock (free m ∷ []) all = (all.0.0, inr all.0.1)
last_slack-IsBlock (b ∷ c ∷ bs) all = last_slack-IsBlock (c ∷ bs) all.1

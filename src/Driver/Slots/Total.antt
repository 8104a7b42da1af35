-- ===== src/Driver/Slots/Total.antt =====
-- The entries of a run are disjoint blocks: their sizes add up to at most the size of the heap.
use jungle_malloc_benchmark.Base.{
  ℕ, ◌+◌, ◌≤◌, ◌≡◌, ◌≢◌, refl, inl, inr, List, [], ◌∷◌, ◌++◌, arith, sym, ◌∙◌, All,
}
use jungle_malloc_benchmark.Memory.{Ptr}
use jungle_malloc_benchmark.Mm.Block.{Block, size}
use jungle_malloc_benchmark.Mm.Spec.{UsedAt, total}
use jungle_malloc_benchmark.Mm.Chain.{Chain-head, Chain-total}
use jungle_malloc_benchmark.Mm.Heap.{first}
use jungle_malloc_benchmark.Driver.{Driver}
use jungle_malloc_benchmark.Driver.Slots.{Slot, Keeps, Other, Separate, Steady}

abbrev pub sizes_of : List Slot → ℕ
sizes_of [] = 0
sizes_of (x ∷ xs) = x.size + sizes_of xs

pub sizes_of-cut :
    (xs : List Slot) (x : Slot) (ys : List Slot)
    → sizes_of (xs ++ (x ∷ ys)) ≡ x.size + sizes_of (xs ++ ys)
sizes_of-cut [] x ys = refl
sizes_of-cut (y ∷ xs) x ys = omega (arith, sizes_of-cut xs x ys)

abbrev Within : Ptr → List Block → Slot → Type 0
Within lo bs x = (i : ℕ) × UsedAt lo bs x.ptr i × (x.size ≤ i)

Within-tail :
    (lo : Ptr) (b : Block) (bs : List Block) (xs : List Slot)
    → All (λ (x : Slot). x.ptr ≢ lo) xs
    → All (Within lo (b ∷ bs)) xs
    → All (Within (lo + size b) bs) xs
Within-tail lo b bs [] away all = tt
Within-tail lo b bs (x ∷ xs) (ne, away) ((i, inl (e, f), fits), all) = absurd (ne (sym e))
Within-tail lo b bs (x ∷ xs) (ne, away) ((i, inr u, fits), all) =
    ((i, u, fits), Within-tail lo b bs xs away all)

-- The entries behind the first block.
record Behind (lo : Ptr) (b : Block) (bs : List Block) (xs : List Slot) : Type 1 where
  rest : List Slot
  sum : sizes_of xs ≤ size b + sizes_of rest
  within : All (Within (lo + size b) bs) rest
  separate : Separate rest
  subset : (P : Slot → Type 0) → All P xs → All P rest

behind :
    (lo : Ptr) (b : Block) (bs : List Block) (xs : List Slot)
    → Separate xs
    → All (Within lo (b ∷ bs)) xs
    → Behind lo b bs xs
behind lo b bs [] s all = record {
  rest = [];
  sum = omega arith;
  within = tt;
  separate = tt;
  subset = λ P h. h;
}
behind lo b bs (x ∷ xs) (others, s) ((i, inl (e, f), fits), all) = record {
  rest = xs;
  sum = rw f (omega arith);
  within = Within-tail lo b bs xs (away xs others) all;
  separate = s;
  subset = λ P h. h.1;
}
  where
    away : (ys : List Slot) → All (Other x) ys → All (λ (y : Slot). y.ptr ≢ lo) ys
    away [] h = tt
    away (y ∷ ys) (o, h) = (λ q. o.1 (q ∙ e), away ys h)
behind lo b bs (x ∷ xs) (others, s) ((i, inr u, fits), all) =
    let inner = behind lo b bs xs s all in
    record {
      rest = x ∷ inner.rest;
      sum = omega (arith, inner.sum);
      within = ((i, u, fits), inner.within);
      separate = (inner.subset (Other x) others, inner.separate);
      subset = λ P h. (h.0, inner.subset P h.1);
    }

sizes_of-le :
    (lo : Ptr) (bs : List Block) (xs : List Slot)
    → Separate xs
    → All (Within lo bs) xs
    → sizes_of xs ≤ total bs
sizes_of-le lo [] [] s all = omega arith
sizes_of-le lo [] (x ∷ xs) s ((i, u, fits), all) = absurd u
sizes_of-le lo (b ∷ bs) xs s all =
    let r = behind lo b bs xs s all in
    omega (arith, r.sum, sizes_of-le (lo + size b) bs r.rest r.separate r.within)

Keeps-Within :
    (d : Driver) (bs : List Block) (xs : List Slot)
    → All (Keeps d bs) xs
    → All (Within (first d.machine) bs) xs
Keeps-Within d bs [] held = tt
Keeps-Within d bs (x ∷ xs) (h, held) =
    ((h.bytes, h.in_use, omega (arith, h.fits)), Keeps-Within d bs xs held)

-- The sizes of the entries lie between the prologue and the brk.
pub sizes_of-bounds :
    {d : Driver} {bs : List Block} {ids : ℕ} {live : List Slot}
    → Steady d bs ids live
    → sizes_of live + d.machine.lib.start_brk + 16 ≤ d.machine.lib.brk
sizes_of-bounds {d} {bs} {live} s =
    let (_, c) = Chain-head s.heap.chain in
    let reach = Chain-total c in
    omega (arith, sizes_of-le (first d.machine) bs live s.separate (Keeps-Within d bs live s.held))

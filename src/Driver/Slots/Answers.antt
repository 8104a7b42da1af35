-- ===== src/Driver/Slots/Answers.antt =====
-- What `mm_malloc` and `mm_realloc` answer, stored in the arrays of a trace.
use jungle_malloc_benchmark.Base.{ℕ, ◌+◌, ◌≢◌, refl, inl, inr, set, List, sym, subst}
use jungle_malloc_benchmark.Memory.{Ptr}
use jungle_malloc_benchmark.Machine.{State}
use jungle_malloc_benchmark.Mm.{adjust}
use jungle_malloc_benchmark.Mm.Block.{Block}
use jungle_malloc_benchmark.Mm.Spec.{UsedAt}
use jungle_malloc_benchmark.Mm.Heap.{first}
use jungle_malloc_benchmark.Mm.Contract.{Granted}
use jungle_malloc_benchmark.Mm.Realloc.{Moved}
use jungle_malloc_benchmark.Driver.{Driver}
use jungle_malloc_benchmark.Driver.Slots.{Puts}

-- The driver after a block is stored.
abbrev pub stored : Driver → State → (index n : ℕ) → Ptr → Driver
stored d s index n at = record d {
  machine = s;
  blocks = set d.blocks index at;
  block_sizes = set d.block_sizes index n;
}

pub granted-Puts :
    (d : Driver) {bs : List Block} {n : ℕ} {at : Ptr} {s : State} {bs' : List Block} (index : ℕ)
    → Granted d.machine bs n at s bs'
    → Puts d bs index n at (λ _. Unit {0}) (stored d s index n at) bs'
granted-Puts d {bs} {n} {at} {s} {bs'} index g =
    let moved : (a i : ℕ) → UsedAt (first d.machine) bs' a i → UsedAt (first s) bs' a i =
      λ a i. subst (λ q. UsedAt (q + 8 + 8) bs' a i) (sym g.same_start) in
    record {
      heap = g.heap;
      places = refl;
      sizes = refl;
      new = moved at (adjust n) ((g.uses at (adjust n)).1 (inl (refl, refl)));
      uses = λ a i v _. moved a i ((g.uses a i).1 (inr v));
      apart = g.apart;
      grows = g.grows;
      rises = g.rises;
      even = g.even;
      same_start = g.same_start;
    }

pub Moved-Puts :
    (d : Driver) {bs : List Block} {p k n : ℕ} {at : Ptr} (index : ℕ)
    → at ≢ p
    → (v : Moved d.machine bs p k n at)
    → Puts d bs index n at (λ a. a ≢ p) (stored d v.final index n at) v.blocks
Moved-Puts d {n} {at} index ne v =
    let moved : (a i : ℕ)
        → UsedAt (first d.machine) v.blocks a i
        → UsedAt (first v.final) v.blocks a i =
      λ a i. subst (λ q. UsedAt (q + 8 + 8) v.blocks a i) (sym v.same_start) in
    record {
      heap = v.heap;
      places = refl;
      sizes = refl;
      new = moved at (adjust n) ((v.uses at (adjust n)).1 (inl (refl, refl), ne));
      uses = λ a i w away. moved a i ((v.uses a i).1 (inr w, away));
      apart = v.apart;
      grows = v.grows;
      rises = v.rises;
      even = v.even;
      same_start = v.same_start;
    }

-- ===== src/Mm/Freed.antt =====
-- The client's view of `mm_free` of mm.c: exactly one block is no longer in use.
use jungle_malloc_benchmark.Base.{ℕ, ◌≡◌, ◌≢◌, ◌↔◌, sym, subst, List, All}
use jungle_malloc_benchmark.Memory.{Ptr, Bytes}
use jungle_malloc_benchmark.Machine.{State, ok}
use jungle_malloc_benchmark.Mm.{mm_free}
use jungle_malloc_benchmark.Mm.Block.{Block, used, with_bytes}
use jungle_malloc_benchmark.Mm.Spec.{UsedAt, IsBlock, release}
use jungle_malloc_benchmark.Mm.Spec.Even.{IsEven, All-parts, release-IsEven}
use jungle_malloc_benchmark.Mm.Heap.{Heap, Kept, first}
use jungle_malloc_benchmark.Mm.Contract.{free-uses}
use jungle_malloc_benchmark.Mm.Free.{free-Heap}
use jungle_malloc_benchmark.Mm.Payload.{UsedAt-parts}

-- The state after the block at `p` is freed.
pub record Freed (s : State) (bs : List Block) (p : Ptr) : Type 0 where
  pub bytes : Bytes
  pub blocks : List Block
  pub runs : mm_free p s ≡ ok tt (with_bytes s bytes)
  pub heap : Heap (with_bytes s bytes) blocks
  pub uses : (a i : ℕ) → UsedAt (first s) blocks a i ↔ UsedAt (first s) bs a i × (a ≢ p)
  pub kept : Kept s.bytes bytes (first s) blocks
  pub even : All IsEven bs → All IsEven blocks

pub free-Freed :
    {s : State} {bs : List Block} (p k : ℕ) → Heap s bs → UsedAt (first s) bs p k → Freed s bs p
free-Freed {s} {bs} p k h u =
    let lo = first s in
    let (before, after, e, place) = UsedAt-parts lo bs p k u in
    let f = free-Heap before k after (subst (λ l. Heap s l) e h) in
    let all = subst (λ l. All IsBlock l) e h.blocks in
    record {
      bytes = f.bytes;
      blocks = release before k after;
      runs = subst (λ q. mm_free q s ≡ ok tt (with_bytes s f.bytes)) (sym place) f.runs;
      heap = f.heap;
      uses = λ a i. rw (e, place) (free-uses lo before k after a i all);
      kept = f.kept;
      even = λ evens.
          let (front, here, back) =
            All-parts IsEven before (used k) after (subst (λ l. All IsEven l) e evens) in
          release-IsEven before k after here front back;
    }

-- ===== src/Driver/Valid/Calls.antt =====
-- The request that a line of the trace is, as `eval_mm_valid` (mdriver.c) makes it.
use jungle_malloc_benchmark.Base.{◌≡◌, refl, Bool}
use jungle_malloc_benchmark.Driver.{Allocator, Kind, Traceop, Driver}
use jungle_malloc_benchmark.Driver.Valid.{valid_alloc, valid_realloc, valid_free, valid_op}

module _ (a : Allocator) (char_signed : Bool) (op : Traceop) (d : Driver) where
  pub op-alloc :
      op.kind ≡ Kind.alloc
      → valid_op a char_signed op d ≡ valid_alloc a char_signed op.index op.size d
  unfolding valid_op
  op-alloc kind = rw kind refl

  pub op-realloc :
      op.kind ≡ Kind.realloc
      → valid_op a char_signed op d ≡ valid_realloc a char_signed op.index op.size d
  unfolding valid_op
  op-realloc kind = rw kind refl

  pub op-free :
      op.kind ≡ Kind.free → valid_op a char_signed op d ≡ valid_free a char_signed op.index d
  unfolding valid_op
  op-free kind = rw kind refl

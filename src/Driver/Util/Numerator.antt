-- ===== src/Driver/Util/Numerator.antt =====
-- The numerator of `eval_mm_util`, and the bytes that a trace has in use.
use jungle_malloc_benchmark.Base.{
  ℕ, ◌+◌, ◌-◌, ◌≡◌, not, ltb, if◌then◌else◌, none, some, List, [], ◌∷◌, get_elem?, set, arith, ap,
  ◌∙◌, sym,
}
use jungle_malloc_benchmark.Driver.{
  Allocator, Kind, Traceop, Trace, Driver, Step, going, exited, then_step,
}
use jungle_malloc_benchmark.Driver.Inversion.{then_step-going, call-going, unless_exited}
use jungle_malloc_benchmark.Driver.Util.{
  Tally, int_zero, util_op, util_ops, eval_mm_util, reset, start_tally, quotient,
}

-- What a run keeps of the sizes: the array, the total and its peak.
pub record Sizes : Type 0 where
  pub array : List ℕ
  pub total : ℕ
  pub peak : ℕ

abbrev pub size_at : List ℕ → ℕ → ℕ
size_at xs index = elim (get_elem? xs index) [ none ↦ 0 | some x ↦ x ]

abbrev pub higher : ℕ → ℕ → ℕ
higher total peak = if ltb peak total then total else peak

-- One request, without an allocator.
unfoldable pub after : Traceop → Sizes → Sizes
after op z = elim op.kind [
  | Kind.alloc ↦ record {
    array = set z.array op.index op.size;
    total = z.total + op.size - 0;
    peak = higher (z.total + op.size - 0) z.peak;
  }
  | Kind.realloc ↦ record {
    array = set z.array op.index op.size;
    total = z.total + op.size - size_at z.array op.index;
    peak = higher (z.total + op.size - size_at z.array op.index) z.peak;
  }
  | Kind.free ↦ record z { total = z.total + 0 - size_at z.array op.index }
]

-- A whole trace, from an array of sizes and no bytes in use.
abbrev pub demand : List Traceop → Sizes → Sizes
demand [] z = z
demand (op ∷ ops) z = demand ops (after op z)

abbrev pub idle : List ℕ → Sizes
idle array = record { array = array; total = int_zero; peak = int_zero }

sizes : Tally → Sizes
sizes t = record { array = t.driver.block_sizes; total = t.total_size; peak = t.max_total_size }

module _ (a : Allocator) where
  after-util_op :
      (op : Traceop) (t t' : Tally) → util_op a op t ≡ going t' → sizes t' ≡ after op (sizes t)
  unfolding util_op after sizes
  after-util_op op t t' e = ground (arith, e)

  demand-util_ops :
      (ops : List Traceop) (t t' : Tally)
      → util_ops a ops t ≡ going t'
      → sizes t' ≡ demand ops (sizes t)
  unfolding util_ops
  demand-util_ops [] t t' e = cc e
  demand-util_ops (op ∷ ops) t t' e =
      let (t1, first, rest) = then_step-going (util_op a op t) (util_ops a ops) t' e in
      demand-util_ops ops t1 t' rest ∙ ap (demand ops) (after-util_op op t t1 first)

  -- Over every allocator, if `eval_mm_util` returns a result, its numerator is the peak of the
  -- bytes that the trace alone has in use: sizes of blocks, added and taken away request by
  -- request.
  pub demand-eval_mm_util :
      (trace : Trace) (d : Driver) (high heapsize : ℕ) (final : Driver)
      → eval_mm_util a trace d ≡ going (high, heapsize, final)
      → high ≡ (demand trace.ops (idle trace.block_sizes)).peak
  unfolding eval_mm_util sizes
  demand-eval_mm_util trace d high heapsize final e =
      let d1 = reset trace d in
      let run : Driver → Step (ℕ × ℕ × Driver) =
        λ d2. then_step (util_ops a trace.ops (start_tally d2)) quotient in
      let (done, s, init_runs, started) =
        call-going d1 (a.init d1.machine) (λ done d2. if not done then exited else run d2)
          (high, heapsize, final) e in
      let d2 = record d1 { machine = s } in
      let (_, runs) = unless_exited done (run d2) (high, heapsize, final) started in
      let (t, ops_run, result) =
        then_step-going (util_ops a trace.ops (start_tally d2)) quotient (high, heapsize, final)
          runs in
      let high_t : t.max_total_size ≡ high = cc result in
      sym high_t ∙ ap (λ (z : Sizes). z.peak) (demand-util_ops trace.ops (start_tally d2) t ops_run)

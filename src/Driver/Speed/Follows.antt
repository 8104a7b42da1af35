-- ===== src/Driver/Speed/Follows.antt =====
-- `eval_mm_speed` makes the calls of `eval_mm_util`, over every allocator.
use jungle_malloc_benchmark.Base.{ℕ, ◌≡◌, not, if◌then◌else◌, List, [], ◌∷◌, arith, ap, ◌∙◌}
use jungle_malloc_benchmark.Driver.{
  Allocator, Traceop, Trace, Driver, Step, going, exited, then_step,
}
use jungle_malloc_benchmark.Driver.Inversion.{then_step-going, call-going, unless_exited}
use jungle_malloc_benchmark.Driver.Speed.{speed_op, speed_ops, eval_mm_speed}
use jungle_malloc_benchmark.Driver.Util.{
  Tally, util_op, util_ops, eval_mm_util, reset, start_tally, quotient,
}

-- The machine and the array of blocks of one driver, the rest of another.
abbrev pub along : Driver → Driver → Driver
along d x = record d { machine = x.machine; blocks = x.blocks }

module _ (a : Allocator) where
  speed_op-follows :
      (op : Traceop) (t t' : Tally) (d : Driver)
      → util_op a op t ≡ going t'
      → speed_op a op (along d t.driver) ≡ going (along d t'.driver)
  unfolding util_op speed_op
  speed_op-follows op t t' d e = ground (arith, e)

  speed_ops-follows :
      (ops : List Traceop) (t t' : Tally) (d : Driver)
      → util_ops a ops t ≡ going t'
      → speed_ops a ops (along d t.driver) ≡ going (along d t'.driver)
  unfolding util_ops speed_ops
  speed_ops-follows [] t t' d e =
      let same : t ≡ t' = cc e in ap (λ (x : Tally). going (along d x.driver)) same
  speed_ops-follows (op ∷ ops) t t' d e =
      let (t1, first, rest) = then_step-going (util_op a op t) (util_ops a ops) t' e in
      rw (speed_op-follows op t t1 d first) (speed_ops-follows ops t1 t' d rest)

  -- Over every allocator, if `eval_mm_util` of a trace returns a result, `eval_mm_speed` from the
  -- same driver goes through and ends with the same machine and the same array of blocks; the
  -- sizes are those of the trace, and the ranges and the error count stay.
  pub eval_mm_speed-follows :
      (trace : Trace) (d : Driver) (high heapsize : ℕ) (final : Driver)
      → eval_mm_util a trace d ≡ going (high, heapsize, final)
      → eval_mm_speed a trace d
        ≡ going (record d {
          machine = final.machine;
          blocks = final.blocks;
          block_sizes = trace.block_sizes;
        })
  unfolding eval_mm_util eval_mm_speed
  eval_mm_speed-follows trace d high heapsize final e =
      let d1 = reset trace d in
      let run : Driver → Step (ℕ × ℕ × Driver) =
        λ d2. then_step (util_ops a trace.ops (start_tally d2)) quotient in
      let (done, s, init_runs, started) =
        call-going d1 (a.init d1.machine) (λ done d2. if not done then exited else run d2)
          (high, heapsize, final) e in
      let d2 = record d1 { machine = s } in
      let (ready, runs) = unless_exited done (run d2) (high, heapsize, final) started in
      let (t, ops_run, result) =
        then_step-going (util_ops a trace.ops (start_tally d2)) quotient (high, heapsize, final)
          runs in
      let last : t.driver ≡ final = cc result in
      rw (init_runs, ready)
        (speed_ops-follows trace.ops (start_tally d2) t d1 ops_run
          ∙ ap (λ (x : Driver). going (along d1 x)) last)

-- ===== src/Driver/Reader.antt =====
-- `read_trace`: a trace file becomes a trace. The file is read by `fscanf`, a parameter.
pub mod RoundTrip
use jungle_malloc_benchmark.Base.{
  ℕ, zero, suc, ◌+◌, ◌-◌, ◌%◌, ◌^◌, Option, none, some, ltb, ◌==◌, if◌then◌else◌, List, [], ◌∷◌,
  ◌++◌, length,
}
use jungle_malloc_benchmark.Memory.{Ptr}
use jungle_malloc_benchmark.Driver.{
  Kind, Traceop, Trace, Step, going, exited, crashed, unfinished, then_step,
}

-- `fscanf` on an open file: the first character of the word that "%s" reads, none at the end; the
-- number that "%u" or "%d" reads, none where there is none; and a literal `d` in the format.
pub record Scanner (F : Type 0) : Type 0 where
  pub word : F → Option ℕ × F
  pub number : F → Option ℕ × F
  pub literal_d : F → F

-- The variables of the loop. `ops` is the part of the array that is written.
pub record Reading : Type 0 where
  pub index : ℕ
  pub size : ℕ
  pub max_index : ℕ
  pub ops : List Traceop

abbrev pub initial_reading : Reading
initial_reading = record { index = 0; size = 0; max_index = 0; ops = [] }

-- A conversion that fails leaves the variable as it is.
abbrev pub assigned : Option ℕ → ℕ → ℕ
assigned none old = old
assigned (some n) old = n

-- An `unsigned` that is stored in an `int` field: the `int` has its low 32 bits.
abbrev pub to_int : ℕ → ℕ
to_int n = n % 2 ^ 32

abbrev pub higher_index : ℕ → ℕ → ℕ
higher_index index max_index = if ltb max_index index then index else max_index

-- `trace->ops[op_index++] = op`, undefined behind the end of the array.
abbrev pub append_op : ℕ → Traceop → Reading → Step Reading
append_op num_ops op r =
    if ltb (length r.ops) num_ops then going (record r { ops = r.ops ++ (op ∷ []) }) else crashed

-- What `malloc` leaves in an array.
abbrev pub fresh_array : (ℕ → ℕ) → ℕ → List ℕ
fresh_array garbage zero = []
fresh_array garbage (suc n) = garbage n ∷ fresh_array garbage n

-- The two assertions compare an `unsigned` with an `int`.
abbrev pub checked : (ℕ → ℕ) → (num_ids num_ops : ℕ) → Reading → Step Trace
checked garbage num_ids num_ops r =
    if r.max_index == (num_ids + 2 ^ 32 - 1) % 2 ^ 32
    then if num_ops == length r.ops
      then going (record {
        ops = r.ops;
        blocks = fresh_array garbage num_ids;
        block_sizes = fresh_array garbage num_ids;
      })
      else exited
    else exited

module _ {F : Type 0} (scan : Scanner F) where
  -- The second conversion of "%u %u", made only after the first.
  abbrev pub second : Option ℕ → F → Option ℕ × F
  second none f = (none, f)
  second (some _) f = scan.number f

  -- The literal of "%ud".
  abbrev pub trailing_d : Option ℕ → F → F
  trailing_d none f = f
  trailing_d (some _) f = scan.literal_d f

  -- The cases 'a' and 'r'.
  unfoldable pub read_sized : Kind → ℕ → F → Reading → Step (F × Reading)
  read_sized kind num_ops f r =
      let (i, f1) = scan.number f in
      let (n, f2) = second i f1 in
      let index = assigned i r.index in
      let size = assigned n r.size in
      then_step
        (append_op num_ops (record { kind = kind; index = to_int index; size = to_int size })
          (record r { index = index; size = size }))
        λ r1. going (f2, record r1 { max_index = higher_index index r1.max_index })

  -- The case 'f'. The size of the operation stays unset, and is not read.
  unfoldable pub read_free : ℕ → F → Reading → Step (F × Reading)
  read_free num_ops f r =
      let (i, f1) = scan.number f in
      let f2 = trailing_d i f1 in
      let index = assigned i r.index in
      then_step
        (append_op num_ops (record { kind = Kind.free; index = to_int index; size = 0 })
          (record r { index = index }))
        λ r1. going (f2, r1)

  unfoldable pub read_op : ℕ → ℕ → F → Reading → Step (F × Reading)
  read_op num_ops type f r =
      if type == b'a'
      then read_sized Kind.alloc num_ops f r
      else if type == b'r'
      then read_sized Kind.realloc num_ops f r
      else if type == b'f'
      then read_free num_ops f r
      else exited

  -- One round for each unit of fuel.
  unfoldable pub read_ops : (fuel num_ops : ℕ) → F → Reading → Step Reading
  read_ops zero num_ops f r = unfinished
  read_ops (suc fuel) num_ops f r =
      let (w, f1) = scan.word f in
      elim w [
        | none ↦ going r
        | some type ↦ then_step (read_op num_ops type f1 r) λ (f2, r1). read_ops fuel num_ops f2 r1
      ]

  -- A count of the header; where it is missing, the field is used with no value.
  abbrev pub header : {A : Type 0} → F → (ℕ → F → Step A) → Step A
  header f k = let (count, f1) = scan.number f in elim count [ none ↦ crashed | some n ↦ k n f1 ]

  -- A number of the header that nothing uses.
  abbrev pub skip_number : F → F
  skip_number f = (scan.number f).1

  unfoldable pub read_trace : (fuel : ℕ) (garbage : ℕ → ℕ) → F → Step Trace
  read_trace fuel garbage f = header (skip_number f) λ num_ids f1. header f1 λ num_ops f2.
      then_step (read_ops fuel num_ops (skip_number f2) initial_reading)
        (checked garbage num_ids num_ops)

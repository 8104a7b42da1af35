-- ===== src/Driver/Reader/RoundTrip.antt =====
-- `read_trace` on the text of a trace, with `fscanf` as it is documented.
use jungle_malloc_benchmark.Base.{
  ℕ, zero, suc, ◌+◌, ◌-◌, ◌%◌, ◌^◌, ◌≤◌, ◌<◌, ◌≡◌, refl, Option, none, some, lt→ltb, le→ltb,
  le_or_lt, inl, inr, eq→==, List, [], ◌∷◌, ◌++◌, append_assoc, append-nil, length, length-append,
  map, arith, All, ap, sym, ◌∙◌,
}
use jungle_malloc_benchmark.Driver.{Kind, Traceop, Trace, Step, going, crashed, then_step}
use jungle_malloc_benchmark.Driver.Reader.{
  Scanner, Reading, initial_reading, to_int, higher_index, read_sized, read_free, read_op, read_ops,
  fresh_array, checked, header, skip_number, read_trace,
}

-- What `fscanf` meets: a word, by its first character, or a number.
pub data Token : Type 0 where
  word : ℕ → Token
  number : ℕ → Token

-- A file with these tokens left: `fscanf` reads them in turn, and reports the end.
pub record IsScanner {F : Type 0} (scan : Scanner F) (file : List Token → F) : Type 0 where
  pub at_end : (scan.word (file [])).0 ≡ none
  pub at_word : (c : ℕ) (ts : List Token) → scan.word (file (word c ∷ ts)) ≡ (some c, file ts)
  pub at_number : (n : ℕ) (ts : List Token) → scan.number (file (number n ∷ ts)) ≡ (some n, file ts)
  pub no_d : (ts : List Token) → scan.literal_d (file ts) ≡ file ts

abbrev pub print_op : Traceop → List Token → List Token
print_op op ts = elim op.kind [
  | Kind.alloc ↦ word b'a' ∷ number op.index ∷ number op.size ∷ ts
  | Kind.realloc ↦ word b'r' ∷ number op.index ∷ number op.size ∷ ts
  | Kind.free ↦ word b'f' ∷ number op.index ∷ ts
]

abbrev pub print_ops : List Traceop → List Token
print_ops [] = []
print_ops (op ∷ ops) = print_op op (print_ops ops)

-- A `free` has no size in the file.
abbrev pub stored : Traceop → Traceop
stored op = elim op.kind [
  | Kind.alloc ↦ op
  | Kind.realloc ↦ op
  | Kind.free ↦ record op { size = 0 }
]

-- The numbers fit in the `int`s of a request and are not negative.
abbrev pub IsInt : Traceop → Type 0
IsInt op = (op.index < 2 ^ 31) × (op.size < 2 ^ 31)

-- The request with the numbers that are stored.
abbrev narrowed : Traceop → Traceop
narrowed op = record op { index = to_int op.index; size = to_int op.size }

narrowed-IsInt : (ops : List Traceop) → All IsInt ops → map narrowed ops ≡ ops
narrowed-IsInt [] ints = refl
narrowed-IsInt (op ∷ ops) ((index, size), ints) =
    let same_index : to_int op.index ≡ op.index = omega arith in
    let same_size : to_int op.size ≡ op.size = omega arith in
    cc (same_index, same_size, narrowed-IsInt ops ints)

-- The highest index of an `alloc` or a `realloc`.
abbrev pub raise_index : Traceop → ℕ → ℕ
raise_index op max_index = elim op.kind [
  | Kind.alloc ↦ higher_index op.index max_index
  | Kind.realloc ↦ higher_index op.index max_index
  | Kind.free ↦ max_index
]

abbrev pub highest : ℕ → List Traceop → ℕ
highest max_index [] = max_index
highest max_index (op ∷ ops) = highest (raise_index op max_index) ops

abbrev pub print_trace : (sugg_heapsize num_ids num_ops weight : ℕ) → List Traceop → List Token
print_trace sugg_heapsize num_ids num_ops weight ops =
    number sugg_heapsize ∷ number num_ids ∷ number num_ops ∷ number weight ∷ print_ops ops

abbrev op_of : Kind → ℕ → ℕ → Traceop
op_of kind index size = record { kind = kind; index = index; size = size }

length-stored : (ops : List Traceop) → length (map stored ops) ≡ length ops
length-stored [] = refl
length-stored (op ∷ ops) = ap suc (length-stored ops)

module _ {F : Type 0} (scan : Scanner F) (file : List Token → F) (s : IsScanner scan file) where
  read_sized-print :
      (kind : Kind) (num_ops index size : ℕ) (ts : List Token) (r : Reading)
      → length r.ops < num_ops
      → read_sized scan kind num_ops (file (number index ∷ number size ∷ ts)) r
        ≡ going (
          file ts,
          record {
            index = index;
            size = size;
            max_index = higher_index index r.max_index;
            ops = r.ops ++ (op_of kind (to_int index) (to_int size) ∷ []);
          },
        )
  unfolding read_sized
  read_sized-print kind num_ops index size ts r room =
      rw (s.at_number index (number size ∷ ts))
        (rw (s.at_number size ts) (rw (lt→ltb (length r.ops) num_ops room) refl))

  read_free-print :
      (num_ops index : ℕ) (ts : List Token) (r : Reading)
      → length r.ops < num_ops
      → read_free scan num_ops (file (number index ∷ ts)) r
        ≡ going (
          file ts,
          record r { index = index; ops = r.ops ++ (op_of Kind.free (to_int index) 0 ∷ []) },
        )
  unfolding read_free
  read_free-print num_ops index ts r room =
      rw (s.at_number index ts) (rw (s.no_d ts) (rw (lt→ltb (length r.ops) num_ops room) refl))

  read_ops-word :
      (c : ℕ) (ts : List Token) (fuel num_ops : ℕ) (r : Reading)
      → read_ops scan (suc fuel) num_ops (file (word c ∷ ts)) r
        ≡ then_step
            (read_op scan num_ops c (file ts) r)
            (λ (f, r1). read_ops scan fuel num_ops f r1)
  unfolding read_ops
  read_ops-word c ts fuel num_ops r =
      ap
        (λ (q : Option ℕ × F). elim q.0 [
          | none ↦ going r
          | some type ↦
              then_step (read_op scan num_ops type q.1 r)
                (λ (f2, r1). read_ops scan fuel num_ops f2 r1)
        ])
        (s.at_word c ts)

  header-number :
      {A : Type 0} (n : ℕ) (ts : List Token) (k : ℕ → F → Step A)
      → header scan (file (number n ∷ ts)) k ≡ k n (file ts)
  header-number {A} n ts k =
      ap (λ (q : Option ℕ × F). elim q.0 as (λ x. Step A) [ none ↦ crashed | some m ↦ k m q.1 ])
        (s.at_number n ts)

  skip-number : (n : ℕ) (ts : List Token) → skip_number scan (file (number n ∷ ts)) ≡ file ts
  skip-number n ts = ap (λ (q : Option ℕ × F). q.1) (s.at_number n ts)

  -- One round of the loop.
  abbrev Reads : Traceop → List Token → ℕ → ℕ → Reading → Type 0
  Reads op ts fuel num_ops r =
      (r1 : Reading) × (read_ops scan (suc fuel) num_ops (file (print_op op ts)) r
        ≡ read_ops scan fuel num_ops (file ts) r1)
      × (r1.ops ≡ r.ops ++ (narrowed (stored op) ∷ []))
      × (r1.max_index ≡ raise_index op r.max_index)

  read_op-print :
      (kind : Kind) (index size : ℕ) (ts : List Token) (fuel num_ops : ℕ) (r : Reading)
      → length r.ops < num_ops
      → Reads (op_of kind index size) ts fuel num_ops r
  unfolding read_ops read_op
  read_op-print Kind.alloc index size ts fuel num_ops r room = (
    record {
      index = index;
      size = size;
      max_index = higher_index index r.max_index;
      ops = r.ops ++ (op_of Kind.alloc (to_int index) (to_int size) ∷ []);
    },
    read_ops-word b'a' (number index ∷ number size ∷ ts) fuel num_ops r
        ∙ ap (λ step. then_step step (λ (f, r1). read_ops scan fuel num_ops f r1))
            (read_sized-print Kind.alloc num_ops index size ts r room),
    refl,
    refl,
  )
  read_op-print Kind.realloc index size ts fuel num_ops r room = (
    record {
      index = index;
      size = size;
      max_index = higher_index index r.max_index;
      ops = r.ops ++ (op_of Kind.realloc (to_int index) (to_int size) ∷ []);
    },
    read_ops-word b'r' (number index ∷ number size ∷ ts) fuel num_ops r
        ∙ ap (λ step. then_step step (λ (f, r1). read_ops scan fuel num_ops f r1))
            (read_sized-print Kind.realloc num_ops index size ts r room),
    refl,
    refl,
  )
  read_op-print Kind.free index size ts fuel num_ops r room = (
    record r { index = index; ops = r.ops ++ (op_of Kind.free (to_int index) 0 ∷ []) },
    read_ops-word b'f' (number index ∷ ts) fuel num_ops r
        ∙ ap (λ step. then_step step (λ (f, r1). read_ops scan fuel num_ops f r1))
            (read_free-print num_ops index ts r room),
    refl,
    refl,
  )

  read_ops-print :
      (ops : List Traceop) (fuel num_ops : ℕ) (r : Reading)
      → length ops < fuel
      → length r.ops + length ops ≤ num_ops
      → (r' : Reading) × (read_ops scan fuel num_ops (file (print_ops ops)) r ≡ going r')
        × (r'.ops ≡ r.ops ++ map narrowed (map stored ops))
        × (r'.max_index ≡ highest r.max_index ops)
  unfolding read_ops
  read_ops-print ops zero num_ops r enough room = absurd (omega arith)
  read_ops-print [] (suc fuel) num_ops r enough room =
      (r, rw (read_ops, s.at_end) refl, sym (append-nil r.ops), refl)
  read_ops-print (op ∷ ops) (suc fuel) num_ops r enough room =
      let (r1, first, ops1, max1) =
        read_op-print op.kind op.index op.size (print_ops ops) fuel num_ops r (omega arith) in
      let grown : length r1.ops ≡ length r.ops + 1 =
        ap length ops1 ∙ length-append r.ops (narrowed (stored op) ∷ []) in
      let (r', rest, ops', max') = read_ops-print ops fuel num_ops r1 (omega arith) (omega arith) in
      (
        r',
        first ∙ rest,
        ops'
            ∙ ap (λ l. l ++ map narrowed (map stored ops)) ops1
            ∙ append_assoc r.ops (narrowed (stored op) ∷ []) (map narrowed (map stored ops)),
        max' ∙ ap (λ m. highest m ops) max1,
      )

  read_trace-header :
      (sugg_heapsize num_ids num_ops weight : ℕ) (ops : List Traceop) (fuel : ℕ) (garbage : ℕ → ℕ)
      → read_trace scan fuel garbage (file (print_trace sugg_heapsize num_ids num_ops weight ops))
        ≡ then_step
            (read_ops scan fuel num_ops (file (print_ops ops)) initial_reading)
            (checked garbage num_ids num_ops)
  unfolding read_trace
  read_trace-header sugg_heapsize num_ids num_ops weight ops fuel garbage =
      let after : ℕ → ℕ → F → Step Trace = λ ids count f.
        then_step (read_ops scan fuel count (skip_number scan f) initial_reading)
          (checked garbage ids count) in
      let counts = number num_ops ∷ number weight ∷ print_ops ops in
      ap (λ f. header scan f (λ ids f1. header scan f1 (after ids)))
        (skip-number sugg_heapsize (number num_ids ∷ counts))
      ∙ header-number num_ids counts (λ ids f1. header scan f1 (after ids))
      ∙ header-number num_ops (number weight ∷ print_ops ops) (after num_ids)
      ∙ ap
          (λ f.
            then_step (read_ops scan fuel num_ops f initial_reading)
              (checked garbage num_ids num_ops))
          (skip-number weight (print_ops ops))

  -- `read_trace` on a file that `fscanf` reads as the text of a list of requests, with their
  -- number and `num_ids` in the header: if `num_ids - 1`, in 32 bits, is the highest index of an
  -- `alloc` or a `realloc` (0 if there is none), the indices and sizes are below 2 ^ 31, and with
  -- one unit of fuel more than there are requests, it returns exactly these requests in order,
  -- the size of a `free` unset, and two arrays of `num_ids` elements that are not initialised.
  pub read_trace-print :
      (sugg_heapsize num_ids weight : ℕ) (ops : List Traceop) (fuel : ℕ) (garbage : ℕ → ℕ)
      → length ops < fuel
      → All IsInt (map stored ops)
      → highest 0 ops ≡ (num_ids + 2 ^ 32 - 1) % 2 ^ 32
      → read_trace scan fuel garbage
          (file (print_trace sugg_heapsize num_ids (length ops) weight ops))
        ≡ going (record {
          ops = map stored ops;
          blocks = fresh_array garbage num_ids;
          block_sizes = fresh_array garbage num_ids;
        })
  unfolding read_trace
  read_trace-print sugg_heapsize num_ids weight ops fuel garbage enough ints index =
      let (r, runs, kept, top) =
        read_ops-print ops fuel (length ops) initial_reading enough (omega arith) in
      let same : r.ops ≡ map stored ops = kept ∙ narrowed-IsInt (map stored ops) ints in
      let count : length r.ops ≡ length ops = ap length same ∙ length-stored ops in
      read_trace-header sugg_heapsize num_ids (length ops) weight ops fuel garbage
      ∙ ap (λ step. then_step step (checked garbage num_ids (length ops))) runs
      ∙ rw
          (
            eq→== r.max_index ((num_ids + 2 ^ 32 - 1) % 2 ^ 32) (top ∙ index),
            eq→== (length ops) (length r.ops) (sym count),
            same,
          )
          refl

  read_op-full :
      (kind : Kind) (index size : ℕ) (ts : List Token) (fuel num_ops : ℕ) (r : Reading)
      → num_ops ≤ length r.ops
      → read_ops scan (suc fuel) num_ops (file (print_op (op_of kind index size) ts)) r ≡ crashed
  unfolding read_op read_sized read_free
  read_op-full Kind.alloc index size ts fuel num_ops r full =
      read_ops-word b'a' (number index ∷ number size ∷ ts) fuel num_ops r
      ∙ rw (le→ltb (length r.ops) num_ops full) refl
  read_op-full Kind.realloc index size ts fuel num_ops r full =
      read_ops-word b'r' (number index ∷ number size ∷ ts) fuel num_ops r
      ∙ rw (le→ltb (length r.ops) num_ops full) refl
  read_op-full Kind.free index size ts fuel num_ops r full =
      read_ops-word b'f' (number index ∷ ts) fuel num_ops r
      ∙ rw (le→ltb (length r.ops) num_ops full) refl

  read_ops-full :
      (ops : List Traceop) (fuel num_ops : ℕ) (r : Reading)
      → length ops < fuel
      → length r.ops ≤ num_ops
      → num_ops < length r.ops + length ops
      → read_ops scan fuel num_ops (file (print_ops ops)) r ≡ crashed
  read_ops-full ops zero num_ops r enough room more = absurd (omega arith)
  read_ops-full [] (suc fuel) num_ops r enough room more = absurd (omega arith)
  read_ops-full (op ∷ ops) (suc fuel) num_ops r enough room more =
      elim (le_or_lt num_ops (length r.ops)) [
        | inl full ↦ read_op-full op.kind op.index op.size (print_ops ops) fuel num_ops r full
        | inr free ↦
            let (r1, first, ops1, max1) =
              read_op-print op.kind op.index op.size (print_ops ops) fuel num_ops r free in
            let grown : length r1.ops ≡ length r.ops + 1 =
              ap length ops1 ∙ length-append r.ops (narrowed (stored op) ∷ []) in
            first ∙ read_ops-full ops fuel num_ops r1 (omega arith) (omega arith) (omega arith)
      ]

  -- If the header of the file counts fewer requests than the file holds, and with one unit of
  -- fuel more than the requests, `read_trace` writes behind the end of the array of requests,
  -- whatever the requests and the rest of the header are.
  pub read_trace-overflow :
      (sugg_heapsize num_ids num_ops weight : ℕ) (ops : List Traceop) (fuel : ℕ) (garbage : ℕ → ℕ)
      → length ops < fuel
      → num_ops < length ops
      → read_trace scan fuel garbage (file (print_trace sugg_heapsize num_ids num_ops weight ops))
        ≡ crashed
  read_trace-overflow sugg_heapsize num_ids num_ops weight ops fuel garbage enough more =
      read_trace-header sugg_heapsize num_ids num_ops weight ops fuel garbage
      ∙ ap (λ step. then_step step (checked garbage num_ids num_ops))
          (read_ops-full ops fuel num_ops initial_reading enough (omega arith) (omega arith))

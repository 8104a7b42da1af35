-- ===== src/Driver/Valid/Proper.antt =====
-- The traces that a driver can ask of mm.c: each index is requested, reallocated and freed in turn.
use jungle_malloc_benchmark.Base.{
  ℕ, ◌+◌, ◌-◌, ◌%◌, ◌^◌, ◌≤◌, ◌<◌, ◌≡◌, ◌≢◌, ◌⊎◌, refl, Bool, false, List, [], ◌∷◌, ◌++◌, map, ap,
  All,
}
use jungle_malloc_benchmark.Mm.{adjust}
use jungle_malloc_benchmark.Mm.Malloc.{growth}
use jungle_malloc_benchmark.Driver.{Kind, Traceop}
use jungle_malloc_benchmark.Driver.Valid.{pattern_of}
use jungle_malloc_benchmark.Driver.Slots.{Slot}

-- The indices in use, each with its size.
abbrev pub Keys : Type 0
Keys = List (ℕ × ℕ)

abbrev pub key : Slot → ℕ × ℕ
key x = (x.index, x.size)

-- A size that mm.c serves, and whose block is a multiple of 16.
abbrev pub IsRequest : ℕ → Type 0
IsRequest n = (0 < n) × (n < 2 ^ 31 - 16) × (adjust n % 16 ≡ 0)

-- An `alloc` names an index that is not in use, the others one that is; a `realloc` does not grow
-- the block, and its pattern is one that the driver's comparison can find.
pub data Proper (char_signed : Bool) (ids : ℕ) : Keys → List Traceop → Type 0 where
  finished : {keys : Keys} → Proper char_signed ids keys []
  alloc :
      {keys : Keys} {op : Traceop} {ops : List Traceop}
      → op.kind ≡ Kind.alloc
      → op.index < ids
      → All (λ (k : ℕ × ℕ). k.0 ≢ op.index) keys
      → IsRequest op.size
      → Proper char_signed ids ((op.index, op.size) ∷ keys) ops
      → Proper char_signed ids keys (op ∷ ops)
  realloc :
      {keys : Keys} {op : Traceop} {ops : List Traceop} (before : Keys) (m : ℕ) (after : Keys)
      → op.kind ≡ Kind.realloc
      → keys ≡ before ++ ((op.index, m) ∷ after)
      → IsRequest op.size
      → op.size ≤ m
      → (char_signed ≡ false) ⊎ (pattern_of op.index < 128)
      → Proper char_signed ids ((op.index, op.size) ∷ (before ++ after)) ops
      → Proper char_signed ids keys (op ∷ ops)
  free :
      {keys : Keys} {op : Traceop} {ops : List Traceop} (before : Keys) (n : ℕ) (after : Keys)
      → op.kind ≡ Kind.free
      → keys ≡ before ++ ((op.index, n) ∷ after)
      → Proper char_signed ids (before ++ after) ops
      → Proper char_signed ids keys (op ∷ ops)

-- The bytes by which a request can grow the heap.
abbrev pub spend : Traceop → ℕ
spend op = elim op.kind [
  | Kind.alloc ↦ growth (adjust op.size)
  | Kind.realloc ↦ growth (adjust op.size)
  | Kind.free ↦ 0
]

abbrev pub cost : List Traceop → ℕ
cost [] = 0
cost (op ∷ ops) = spend op + cost ops

-- The entry behind a key.
pub record Found (live : List Slot) (before : Keys) (i n : ℕ) (after : Keys) : Type 0 where
  pub front : List Slot
  pub slot : Slot
  pub back : List Slot
  pub parts : live ≡ front ++ (slot ∷ back)
  pub same_index : slot.index ≡ i
  pub same_size : slot.size ≡ n
  pub rest : map key (front ++ back) ≡ before ++ after

pub find_slot :
    (live : List Slot) (before : Keys) (i n : ℕ) (after : Keys)
    → map key live ≡ before ++ ((i, n) ∷ after)
    → Found live before i n after
find_slot [] [] i n after e = absurd (cc e)
find_slot [] (k ∷ before) i n after e = absurd (cc e)
find_slot (x ∷ live) [] i n after e = record {
  front = [];
  slot = x;
  back = live;
  parts = refl;
  same_index = cc e;
  same_size = cc e;
  rest = cc e;
}
find_slot (x ∷ live) (k ∷ before) i n after e =
    let inner = find_slot live before i n after (cc e) in
    let same : key x ≡ k = cc e in
    record {
      front = x ∷ inner.front;
      slot = inner.slot;
      back = inner.back;
      parts = ap (λ l. x ∷ l) inner.parts;
      same_index = inner.same_index;
      same_size = inner.same_size;
      rest = cc (same, inner.rest);
    }

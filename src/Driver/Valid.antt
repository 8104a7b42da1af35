-- ===== src/Driver/Valid.antt =====
-- `eval_mm_valid`: the driver runs a trace and checks every block that it gets.
pub mod Pattern
pub mod Slots
pub mod Calls
pub mod Accept
pub mod Release
pub mod Move
pub mod Proper
pub mod Next
pub mod Passes
pub mod Guards
pub mod Balanced
pub mod Represents
use jungle_malloc_benchmark.Base.{
  ℕ, zero, suc, ◌+◌, ◌%◌, ◌^◌, Bool, true, false, not, ◌&&◌, ltb, leb, ◌==◌, if◌then◌else◌, List,
  [], ◌∷◌, bit_and,
}
use jungle_malloc_benchmark.Memory.{Ptr, null}
use jungle_malloc_benchmark.Memlib.{mem_reset_brk}
use jungle_malloc_benchmark.Machine.{State, Cmd, pure, ◌>>=◌, load_byte, memset}
use jungle_malloc_benchmark.Ranges.{
  Added, added, refused, aborted, add_range, remove_range, clear_ranges,
}
use jungle_malloc_benchmark.Driver.{
  Allocator, Kind, Traceop, Trace, Driver, Step, going, invalid, exited, crashed, unfinished,
  then_step, call, at_index, remember, malloc_error,
}

-- The verdict of `add_range` on a new payload.
abbrev pub check_range : Driver → Ptr → ℕ → (Driver → Step Driver) → Step Driver
check_range d p size k = elim (add_range d.machine.lib d.ranges p size) [
  | added ranges ↦ k (record d { ranges = ranges })
  | refused r ↦ malloc_error d
  | aborted ↦ exited
]

-- The low byte of the index fills the payload.
abbrev pub pattern_of : ℕ → ℕ
pattern_of index = bit_and index 0xff

-- `newp[j] == (index & 0xFF)`: a `char` is promoted to `int`, so where `char` is signed a byte from
-- 128 on becomes negative and differs from every pattern.
unfoldable pub char_equals : (char_signed : Bool) → ℕ → ℕ → Bool
char_equals char_signed byte c = not (char_signed && leb 128 byte) && byte == c

-- The loop over the first `left` bytes from `p` on.
unfoldable pub holds_pattern : (char_signed : Bool) (left : ℕ) → Ptr → ℕ → Cmd Bool
holds_pattern char_signed zero p c = pure true
holds_pattern char_signed (suc left) p c = do
  byte ← load_byte p
  if char_equals char_signed byte c then holds_pattern char_signed left (p + 1) c else pure false

module _ (a : Allocator) (char_signed : Bool) where
  unfoldable pub valid_alloc : ℕ → ℕ → Driver → Step Driver
  valid_alloc index size d = call d (a.malloc size d.machine) λ p d1.
      if p == null
      then malloc_error d1
      else check_range d1 p size λ d2.
        call d2 (memset p (pattern_of index) size d2.machine) λ _ d3. remember index p size d3

  unfoldable pub valid_realloc : ℕ → ℕ → Driver → Step Driver
  valid_realloc index size d = at_index d.blocks index λ oldp.
      call d (a.realloc oldp size d.machine) λ newp d1.
        if newp == null
        then malloc_error d1
        else check_range (record d1 { ranges = remove_range d1.ranges oldp }) newp size
            λ d2. at_index d2.block_sizes index λ block_size.
              let oldsize = if ltb size block_size then size else block_size in
              call d2 (holds_pattern char_signed oldsize newp (pattern_of index) d2.machine)
                λ same d3.
                  if not same
                  then malloc_error d3
                  else call d3 (memset newp (pattern_of index) size d3.machine)
                      λ _ d4. remember index newp size d4

  unfoldable pub valid_free : ℕ → Driver → Step Driver
  valid_free index d = at_index d.blocks index λ p.
      let d1 = record d { ranges = remove_range d.ranges p } in
      call d1 (a.free p d1.machine) λ _ d2. going d2

  unfoldable pub valid_op : Traceop → Driver → Step Driver
  valid_op op = elim op.kind [
    | Kind.alloc ↦ valid_alloc op.index op.size
    | Kind.realloc ↦ valid_realloc op.index op.size
    | Kind.free ↦ valid_free op.index
  ]

  unfoldable pub valid_ops : List Traceop → Driver → Step Driver
  valid_ops [] d = going d
  valid_ops (op ∷ ops) d = then_step (valid_op op d) (valid_ops ops)

  -- `going` is the `return 1` at the end.
  unfoldable pub eval_mm_valid : Trace → Driver → Step Driver
  eval_mm_valid trace d =
      let machine = record d.machine { lib = mem_reset_brk d.machine.lib } in
      let d1 = record d {
        machine = machine;
        ranges = clear_ranges d.ranges;
        blocks = trace.blocks;
        block_sizes = trace.block_sizes;
      } in
      call d1 (a.init machine)
        λ done d2. if not done then malloc_error d2 else valid_ops trace.ops d2

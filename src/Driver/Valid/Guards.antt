-- ===== src/Driver/Valid/Guards.antt =====
-- What the requests of a validity run that go through do, over every allocator (mdriver.c).
use jungle_malloc_benchmark.Base.{
  ℕ, ◌+◌, ◌-◌, ◌<◌, ◌≡◌, refl, Bool, not, if◌then◌else◌, some, get_elem?, set, length, ltb, ◌==◌,
  List, ◌∷◌, arith, sym, ap, subst,
}
use jungle_malloc_benchmark.Memory.{Ptr, null}
use jungle_malloc_benchmark.Machine.{memset}
use jungle_malloc_benchmark.Ranges.{Range, Added, added, refused, aborted, add_range, remove_range}
use jungle_malloc_benchmark.Ranges.Checks.{range}
use jungle_malloc_benchmark.Ranges.Guarded.{Guarded, tested, add_range-Guarded}
use jungle_malloc_benchmark.Driver.{
  Allocator, Driver, Step, going, exited, call, at_index, remember, malloc_error,
}
use jungle_malloc_benchmark.Driver.Inversion.{call-going, at_index-going, unless_error}
use jungle_malloc_benchmark.Driver.Valid.{
  check_range, valid_alloc, valid_realloc, valid_free, holds_pattern, pattern_of,
}

-- The range of the block stands in front of `rest`, and the block in the arrays.
pub record Stores (d : Driver) (rest : List Range) (index size : ℕ) (p : Ptr) (d' : Driver)
    : Type 0 where
  pub stored : d'.ranges ≡ range p (p + size - 1) ∷ rest
  pub guards : Guarded rest → Guarded d'.ranges
  pub places : d'.blocks ≡ set d.blocks index p
  pub sizes : d'.block_sizes ≡ set d.block_sizes index size
  pub in_blocks : index < length d.blocks
  pub in_sizes : index < length d.block_sizes
  pub errors : d'.errors ≡ d.errors

pub record Removes (d : Driver) (p : Ptr) (d' : Driver) : Type 0 where
  pub stored : d'.ranges ≡ remove_range d.ranges p
  pub places : d'.blocks ≡ d.blocks
  pub sizes : d'.block_sizes ≡ d.block_sizes
  pub errors : d'.errors ≡ d.errors

remember-going :
    (index : ℕ) (p : Ptr) (size : ℕ) (d d' : Driver)
    → remember index p size d ≡ going d'
    → (index < length d.blocks)
      × (index < length d.block_sizes)
      × (record d { blocks = set d.blocks index p; block_sizes = set d.block_sizes index size }
          ≡ d')
remember-going index p size d d' e = ground (arith, e)

-- `d` after a block passed the checks: nothing but the machine and the ranges changed.
record Checked (d : Driver) (p size : ℕ) (d1 : Driver) : Type 0 where
  stored : d1.ranges ≡ range p (p + size - 1) ∷ d.ranges
  guards : Guarded d.ranges → Guarded d1.ranges
  places : d1.blocks ≡ d.blocks
  sizes : d1.block_sizes ≡ d.block_sizes
  errors : d1.errors ≡ d.errors

added_going :
    (d : Driver) (k : Driver → Step Driver) (d' : Driver) (x : Added)
    → (elim x [
      | added ranges ↦ k (record d { ranges = ranges })
      | refused r ↦ malloc_error d
      | aborted ↦ exited
    ])
      ≡ going d'
    → (ranges : List Range) × (x ≡ added ranges) × (k (record d { ranges = ranges }) ≡ going d')
added_going d k d' (added ranges) e = (ranges, refl, e)
added_going d k d' (refused r) e = absurd (cc e)
added_going d k d' aborted e = absurd (cc e)

check_range-Checked :
    (d : Driver) (p size : ℕ) (k : Driver → Step Driver) (d' : Driver)
    → check_range d p size k ≡ going d'
    → (d1 : Driver) × Checked d p size d1 × (k d1 ≡ going d')
check_range-Checked d p size k d' e =
    let (ranges, accepted, rest) = added_going d k d' (add_range d.machine.lib d.ranges p size) e in
    (
      record d { ranges = ranges },
      record {
        stored = (tested d.machine.lib d.ranges p size ranges accepted).3;
        guards = add_range-Guarded d.machine.lib d.ranges p size ranges accepted;
        places = refl;
        sizes = refl;
        errors = refl;
      },
      rest,
    )

-- The ends of `valid_alloc` and `valid_realloc`.
abbrev fill_block : ℕ → ℕ → Ptr → Driver → Step Driver
fill_block index size p d =
    call d (memset p (pattern_of index) size d.machine) λ _ d1. remember index p size d1

fill_block-Stores :
    (index size : ℕ) (p : Ptr) (d d1 d' : Driver)
    → Checked d p size d1
    → fill_block index size p d1 ≡ going d'
    → Stores d d.ranges index size p d'
fill_block-Stores index size p d d1 d' c e =
    let (_, s, _, rest) =
      call-going d1 (memset p (pattern_of index) size d1.machine) (λ _ d2. remember index p size d2)
        d' e in
    let (inside, inside', last) = remember-going index p size (record d1 { machine = s }) d' rest in
    subst (λ x. Stores d d.ranges index size p x) last
      (record {
        stored = c.stored;
        guards = c.guards;
        places = ap (λ xs. set xs index p) c.places;
        sizes = ap (λ xs. set xs index size) c.sizes;
        in_blocks = rw (sym c.places) inside;
        in_sizes = rw (sym c.sizes) inside';
        errors = c.errors;
      })

abbrev refill : ℕ → ℕ → Ptr → Bool → Driver → Step Driver
refill index size newp same d = if not same then malloc_error d else fill_block index size newp d

abbrev compare_block : Bool → ℕ → ℕ → Ptr → Driver → ℕ → Step Driver
compare_block char_signed index size newp d block_size =
    let oldsize = if ltb size block_size then size else block_size in
    call d (holds_pattern char_signed oldsize newp (pattern_of index) d.machine)
      (refill index size newp)

compare_block-Stores :
    (char_signed : Bool) (index size : ℕ) (newp : Ptr) (block_size : ℕ) (d d1 d' : Driver)
    → Checked d newp size d1
    → compare_block char_signed index size newp d1 block_size ≡ going d'
    → Stores d d.ranges index size newp d'
compare_block-Stores char_signed index size newp block_size d d1 d' c e =
    let oldsize = if ltb size block_size then size else block_size in
    let (same, s, _, e1) =
      call-going d1 (holds_pattern char_signed oldsize newp (pattern_of index) d1.machine)
        (refill index size newp) d' e in
    let d2 = record d1 { machine = s } in
    let rest = unless_error (not same) d2 (fill_block index size newp d2) d' e1 in
    fill_block-Stores index size newp d d2 d'
      (record {
        stored = c.stored;
        guards = c.guards;
        places = c.places;
        sizes = c.sizes;
        errors = c.errors;
      })
      rest

module _ (a : Allocator) (char_signed : Bool) where
  pub valid_alloc-Stores :
      (index size : ℕ) (d d' : Driver)
      → valid_alloc a char_signed index size d ≡ going d'
      → (p : Ptr) × Stores d d.ranges index size p d'
  unfolding valid_alloc
  valid_alloc-Stores index size d d' e =
      let (p, s, _, e1) =
        call-going d (a.malloc size d.machine)
          (λ p d1.
            if p == null then malloc_error d1 else check_range d1 p size (fill_block index size p))
          d' e in
      let d1 = record d { machine = s } in
      let e2 =
        unless_error (p == null) d1 (check_range d1 p size (fill_block index size p)) d' e1 in
      let (d2, c, e3) = check_range-Checked d1 p size (fill_block index size p) d' e2 in
      let f = fill_block-Stores index size p d1 d2 d' c e3 in
      (
        p,
        record {
          stored = f.stored;
          guards = f.guards;
          places = f.places;
          sizes = f.sizes;
          in_blocks = f.in_blocks;
          in_sizes = f.in_sizes;
          errors = f.errors;
        },
      )

  pub valid_free-Removes :
      (index : ℕ) (d d' : Driver)
      → valid_free a char_signed index d ≡ going d'
      → (p : Ptr) × (get_elem? d.blocks index ≡ some p) × Removes d p d'
  unfolding valid_free
  valid_free-Removes index d d' e =
      let (p, at, e1) =
        at_index-going d.blocks index
          (λ p.
            let d1 = record d { ranges = remove_range d.ranges p } in
            call d1 (a.free p d1.machine) (λ _ x. going x))
          d' e in
      let d1 = record d { ranges = remove_range d.ranges p } in
      let (_, s, _, e2) = call-going d1 (a.free p d1.machine) (λ _ x. going x) d' e1 in
      let same : record d1 { machine = s } ≡ d' = cc e2 in
      (
        p,
        at,
        subst (λ x. Removes d p x) same
            (record { stored = refl; places = refl; sizes = refl; errors = refl }),
      )

  pub valid_realloc-Stores :
      (index size : ℕ) (d d' : Driver)
      → valid_realloc a char_signed index size d ≡ going d'
      → (oldp : Ptr) × (newp : Ptr) × (get_elem? d.blocks index ≡ some oldp)
        × Stores d (remove_range d.ranges oldp) index size newp d'
  unfolding valid_realloc
  valid_realloc-Stores index size d d' e =
      let accept : Ptr → Driver → Step Driver =
        λ newp d2. at_index d2.block_sizes index (compare_block char_signed index size newp d2) in
      let granted : Ptr → Ptr → Driver → Step Driver = λ oldp newp d1.
        if newp == null
        then malloc_error d1
        else check_range (record d1 { ranges = remove_range d1.ranges oldp }) newp size
            (accept newp) in
      let (oldp, at, e1) =
        at_index-going d.blocks index
          (λ oldp. call d (a.realloc oldp size d.machine) (granted oldp)) d' e in
      let (newp, s, _, e2) = call-going d (a.realloc oldp size d.machine) (granted oldp) d' e1 in
      let d1 = record d { machine = s; ranges = remove_range d.ranges oldp } in
      let e3 =
        unless_error (newp == null) (record d { machine = s })
          (check_range d1 newp size (accept newp)) d' e2 in
      let (d2, c, e4) = check_range-Checked d1 newp size (accept newp) d' e3 in
      let (block_size, _, e5) =
        at_index-going d2.block_sizes index (compare_block char_signed index size newp d2) d' e4 in
      let f = compare_block-Stores char_signed index size newp block_size d1 d2 d' c e5 in
      (
        oldp,
        newp,
        at,
        record {
          stored = f.stored;
          guards = f.guards;
          places = f.places;
          sizes = f.sizes;
          in_blocks = f.in_blocks;
          in_sizes = f.in_sizes;
          errors = f.errors;
        },
      )

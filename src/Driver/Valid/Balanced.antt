-- ===== src/Driver/Valid/Balanced.antt =====
-- A driver that lists exactly the blocks that its trace holds (mdriver.c), over every allocator.
use jungle_malloc_benchmark.Base.{
  ℕ, ◌+◌, ◌-◌, ◌≡◌, ◌≢◌, some, get_elem?, get_elem?-set_self, get_elem?-set_other, List, [], ◌∷◌,
  ◌++◌, map, arith, ◌∙◌, ap, subst, All,
}
use jungle_malloc_benchmark.Memory.{Ptr}
use jungle_malloc_benchmark.Ranges.{Range}
use jungle_malloc_benchmark.Ranges.Checks.{range, EndsOutside}
use jungle_malloc_benchmark.Ranges.Guarded.{Guarded}
use jungle_malloc_benchmark.Driver.{Driver, Kind, Traceop}
use jungle_malloc_benchmark.Driver.Slots.{Slot, Separate}
use jungle_malloc_benchmark.Driver.Valid.Slots.{payload}
use jungle_malloc_benchmark.Driver.Valid.Guards.{Stores}
use jungle_malloc_benchmark.Driver.Valid.Proper.{Keys, key}

-- The indices that a trace holds before and after its requests: an `alloc` names an index that is
-- not in use, the others one that is.
pub data Balanced : Keys → List Traceop → Keys → Type 0 where
  finished : {keys : Keys} → Balanced keys [] keys
  alloc :
      {keys : Keys} {op : Traceop} {ops : List Traceop} {held : Keys}
      → op.kind ≡ Kind.alloc
      → All (λ (k : ℕ × ℕ). k.0 ≢ op.index) keys
      → Balanced ((op.index, op.size) ∷ keys) ops held
      → Balanced keys (op ∷ ops) held
  realloc :
      {keys : Keys} {op : Traceop} {ops : List Traceop} {held : Keys} (before : Keys) (m : ℕ)
      (after : Keys)
      → op.kind ≡ Kind.realloc
      → keys ≡ before ++ ((op.index, m) ∷ after)
      → Balanced ((op.index, op.size) ∷ (before ++ after)) ops held
      → Balanced keys (op ∷ ops) held
  free :
      {keys : Keys} {op : Traceop} {ops : List Traceop} {held : Keys} (before : Keys) (n : ℕ)
      (after : Keys)
      → op.kind ≡ Kind.free
      → keys ≡ before ++ ((op.index, n) ∷ after)
      → Balanced (before ++ after) ops held
      → Balanced keys (op ∷ ops) held

-- The arrays hold the entry.
abbrev pub Entry : Driver → Slot → Type 0
Entry d x =
    (get_elem? d.blocks x.index ≡ some x.ptr) × (get_elem? d.block_sizes x.index ≡ some x.size)

-- The ranges are those of the entries, and guarded.
pub record Listed (d : Driver) (live : List Slot) : Type 0 where
  pub stored : d.ranges ≡ map payload live
  pub guarded : Guarded d.ranges
  pub entries : All (Entry d) live
  pub separate : Separate live

-- An accepted range starts where no other does.
away :
    (lo hi : Ptr) (live : List Slot)
    → All (EndsOutside lo hi) (map payload live)
    → Guarded (map payload live)
    → All (λ (x : Slot). x.ptr ≢ lo) live
away lo hi [] ends g = tt
away lo hi (x ∷ live) (end, ends) (aligned, order, _, g) = (ground arith, away lo hi live ends g)

both :
    (index : ℕ) (lo : Ptr) (live : List Slot)
    → All (λ (x : Slot). x.index ≢ index) live
    → All (λ (x : Slot). x.ptr ≢ lo) live
    → All (λ (x : Slot). (x.index ≢ index) × (x.ptr ≢ lo)) live
both index lo [] f g = tt
both index lo (x ∷ live) (f, fs) (g, gs) = ((f, g), both index lo live fs gs)

module _ {d : Driver} {rest : List Range} {index size : ℕ} {p : Ptr} {d' : Driver}
    (f : Stores d rest index size p d') where
  stores-All :
      (live : List Slot)
      → All (λ (x : Slot). x.index ≢ index) live
      → All (Entry d) live
      → All (Entry d') live
  stores-All [] fresh entries = tt
  stores-All (x ∷ live) (ne, fresh) ((at, n), entries) = (
    (
      rw f.places (get_elem?-set_other d.blocks index x.index p ne ∙ at),
      rw f.sizes (get_elem?-set_other d.block_sizes index x.index size ne ∙ n),
    ),
    stores-All live fresh entries,
  )

  pub stores-Listed :
      (live : List Slot)
      → rest ≡ map payload live
      → Guarded rest
      → All (λ (x : Slot). x.index ≢ index) live
      → All (Entry d) live
      → Separate live
      → Listed d' (record { index = index; size = size; ptr = p } ∷ live)
  stores-Listed live e g fresh entries separate =
      let stored = f.stored ∙ ap (λ l. range p (p + size - 1) ∷ l) e in
      let (_, _, ends, rest_guarded) = subst Guarded stored (f.guards g) in
      record {
        stored = stored;
        guarded = f.guards g;
        entries = (
          (
            rw f.places (get_elem?-set_self d.blocks index p f.in_blocks),
            rw f.sizes (get_elem?-set_self d.block_sizes index size f.in_sizes),
          ),
          stores-All live fresh entries,
        );
        separate =
            (both index p live fresh (away p (p + size - 1) live ends rest_guarded), separate);
      }

pub fresh_indices :
    (index : ℕ) (live : List Slot)
    → All (λ (k : ℕ × ℕ). k.0 ≢ index) (map key live)
    → All (λ (x : Slot). x.index ≢ index) live
fresh_indices index [] all = tt
fresh_indices index (x ∷ live) (h, all) = (h, fresh_indices index live all)

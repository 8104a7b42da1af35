-- ===== src/Driver/Valid/Represents.antt =====
-- A validity run that returns 1, over every allocator (mdriver.c).
use jungle_malloc_benchmark.Base.{
  ℕ, ◌≡◌, ◌≢◌, refl, Bool, not, if◌then◌else◌, some, get_elem?, List, [], ◌∷◌, ◌++◌, map, ◌∙◌, sym,
  ap, subst, All, All-cut, All-map,
}
use jungle_malloc_benchmark.Memory.{Ptr}
use jungle_malloc_benchmark.Memlib.{mem_reset_brk}
use jungle_malloc_benchmark.Ranges.{remove_range, clear_ranges}
use jungle_malloc_benchmark.Ranges.Guarded.{Guarded, Parted, Guarded-Parted, remove_range-Guarded}
use jungle_malloc_benchmark.Driver.{Allocator, Kind, Traceop, Trace, Driver, going, malloc_error}
use jungle_malloc_benchmark.Driver.Inversion.{then_step-going, call-going, unless_error}
use jungle_malloc_benchmark.Driver.Slots.{Slot, Other, Separate, Separate-cut}
use jungle_malloc_benchmark.Driver.Valid.{valid_op, valid_ops, eval_mm_valid}
use jungle_malloc_benchmark.Driver.Valid.Calls.{op-alloc, op-realloc, op-free}
use jungle_malloc_benchmark.Driver.Valid.Slots.{payload, remove_range-payload}
use jungle_malloc_benchmark.Driver.Valid.Proper.{Keys, key, Found, find_slot}
use jungle_malloc_benchmark.Driver.Valid.Guards.{
  valid_alloc-Stores, valid_realloc-Stores, valid_free-Removes,
}
use jungle_malloc_benchmark.Driver.Valid.Balanced.{
  Balanced, Entry, Listed, stores-Listed, fresh_indices,
}

-- The driver lists the keys `keys`, and counted the errors of `d`.
pub record Represents (d : Driver) (keys : Keys) (d' : Driver) : Type 0 where
  pub live : List Slot
  pub same_keys : map key live ≡ keys
  pub listed : Listed d' live
  pub errors : d'.errors ≡ d.errors

prepend :
    {d d1 d' : Driver} {keys held : Keys}
    → Represents d keys d1
    → Represents d1 held d'
    → Represents d held d'
prepend n r = record {
  live = r.live;
  same_keys = r.same_keys;
  listed = r.listed;
  errors = r.errors ∙ n.errors;
}

module _ {d : Driver} {live : List Slot} (l : Listed d live) {before : Keys} {i n : ℕ}
    {after : Keys} (f : Found live before i n after) where
  cut_entries : Entry d f.slot × All (Entry d) (f.front ++ f.back)
  cut_entries =
      All-cut (Entry d) f.front f.slot f.back (subst (λ x. All (Entry d) x) f.parts l.entries)

  cut_Separate : All (Other f.slot) (f.front ++ f.back) × Separate (f.front ++ f.back)
  cut_Separate = Separate-cut f.front f.slot f.back (subst (λ x. Separate x) f.parts l.separate)

  cut_ranges :
      (p : Ptr)
      → get_elem? d.blocks i ≡ some p
      → remove_range d.ranges p ≡ map payload (f.front ++ f.back)
  cut_ranges p at =
      let same : f.slot.ptr ≡ p =
        cc (cut_entries.0.0, at, ap (λ k. get_elem? d.blocks k) f.same_index) in
      ap (λ q. remove_range d.ranges q) (sym same)
      ∙ ap (λ x. remove_range x f.slot.ptr) (l.stored ∙ ap (λ x. map payload x) f.parts)
      ∙ remove_range-payload f.front f.slot f.back cut_Separate.0

  fresh : All (λ (x : Slot). x.index ≢ i) (f.front ++ f.back)
  fresh =
      All-map (f.front ++ f.back)
        (λ (x : Slot) (o : Other f.slot x). subst (λ k. x.index ≢ k) f.same_index o.0)
        cut_Separate.0

module _ (a : Allocator) (char_signed : Bool) (op : Traceop) {d d' : Driver} {live : List Slot}
    (l : Listed d live) (e : valid_op a char_signed op d ≡ going d') where
  alloc-Represents :
      op.kind ≡ Kind.alloc
      → All (λ (k : ℕ × ℕ). k.0 ≢ op.index) (map key live)
      → Represents d ((op.index, op.size) ∷ map key live) d'
  alloc-Represents kind away =
      let (p, f) =
        valid_alloc-Stores a char_signed op.index op.size d d'
          (sym (op-alloc a char_signed op d kind) ∙ e) in
      record {
        live = record { index = op.index; size = op.size; ptr = p } ∷ live;
        same_keys = refl;
        listed =
            stores-Listed f live l.stored l.guarded (fresh_indices op.index live away) l.entries
              l.separate;
        errors = f.errors;
      }

  module _ {before : Keys} {n : ℕ} {after : Keys} (f : Found live before op.index n after) where
    realloc-Represents :
        op.kind ≡ Kind.realloc → Represents d ((op.index, op.size) ∷ (before ++ after)) d'
    realloc-Represents kind =
        let (oldp, newp, at, g) =
          valid_realloc-Stores a char_signed op.index op.size d d'
            (sym (op-realloc a char_signed op d kind) ∙ e) in
        record {
          live = record { index = op.index; size = op.size; ptr = newp } ∷ (f.front ++ f.back);
          same_keys = ap (λ x. (op.index, op.size) ∷ x) f.rest;
          listed =
              stores-Listed g (f.front ++ f.back) (cut_ranges l f oldp at)
                (remove_range-Guarded d.ranges oldp l.guarded) (fresh l f) (cut_entries l f).1
                (cut_Separate l f).1;
          errors = g.errors;
        }

    free-Represents : op.kind ≡ Kind.free → Represents d (before ++ after) d'
    free-Represents kind =
        let (p, at, r) =
          valid_free-Removes a char_signed op.index d d'
            (sym (op-free a char_signed op d kind) ∙ e) in
        record {
          live = f.front ++ f.back;
          same_keys = f.rest;
          listed = record {
            stored = r.stored ∙ cut_ranges l f p at;
            guarded = subst Guarded (sym r.stored) (remove_range-Guarded d.ranges p l.guarded);
            entries =
                All-map (f.front ++ f.back)
                  (λ (x : Slot) (h : Entry d x). (rw r.places h.0, rw r.sizes h.1))
                  (cut_entries l f).1;
            separate = (cut_Separate l f).1;
          };
          errors = r.errors;
        }

module _ (a : Allocator) (char_signed : Bool) where
  valid_ops-Represents :
      {ops : List Traceop} {keys held : Keys}
      → Balanced keys ops held
      → (d d' : Driver) (live : List Slot) → Listed d live
      → map key live ≡ keys
      → valid_ops a char_signed ops d ≡ going d'
      → Represents d held d'
  unfolding valid_ops
  valid_ops-Represents {keys = keys} Balanced.finished d d' live l same e =
      let last : d ≡ d' = cc e in
      subst (λ x. Represents d keys x) last
        (record { live = live; same_keys = same; listed = l; errors = refl })
  valid_ops-Represents {ops = op ∷ ops} (Balanced.alloc kind away b) d d' live l same e =
      let (d1, now, later) =
        then_step-going (valid_op a char_signed op d) (valid_ops a char_signed ops) d' e in
      let n =
        alloc-Represents a char_signed op l now kind
          (subst (λ x. All (λ (k : ℕ × ℕ). k.0 ≢ op.index) x) (sym same) away) in
      prepend n (
        valid_ops-Represents b d1 d' n.live n.listed
          (n.same_keys ∙ ap (λ x. (op.index, op.size) ∷ x) same) later)
  valid_ops-Represents {ops = op ∷ ops} (Balanced.realloc before m after kind parts b) d d' live l
        same e =
      let (d1, now, later) =
        then_step-going (valid_op a char_signed op d) (valid_ops a char_signed ops) d' e in
      let f = find_slot live before op.index m after (same ∙ parts) in
      let n = realloc-Represents a char_signed op l now f kind in
      prepend n (valid_ops-Represents b d1 d' n.live n.listed n.same_keys later)
  valid_ops-Represents {ops = op ∷ ops} (Balanced.free before m after kind parts b) d d' live l same
        e =
      let (d1, now, later) =
        then_step-going (valid_op a char_signed op d) (valid_ops a char_signed ops) d' e in
      let f = find_slot live before op.index m after (same ∙ parts) in
      let n = free-Represents a char_signed op l now f kind in
      prepend n (valid_ops-Represents b d1 d' n.live n.listed n.same_keys later)

  -- Over every allocator, if `eval_mm_valid` returns 1 on a trace in which each `alloc` names an
  -- index that is not in use and each `realloc` and `free` one that is, then the ranges at the
  -- end are those of the blocks that the trace still holds, one for each, at the address and with
  -- the size that the arrays of the trace store under its index, and no error is counted. Each
  -- range is aligned to 8 and not empty, and disjoint from each older one, unless it covers that
  -- one and more on both sides.
  pub eval_mm_valid-Represents :
      (trace : Trace) (held : Keys) (d d' : Driver)
      → Balanced [] trace.ops held
      → eval_mm_valid a char_signed trace d ≡ going d'
      → Represents d held d' × Parted d'.ranges
  unfolding eval_mm_valid clear_ranges
  eval_mm_valid-Represents trace held d d' b e =
      let d1 = record d {
        machine = record d.machine { lib = mem_reset_brk d.machine.lib };
        ranges = [];
        blocks = trace.blocks;
        block_sizes = trace.block_sizes;
      } in
      let (done, s, _, e1) =
        call-going d1 (a.init d1.machine)
          (λ done d2. if not done then malloc_error d2 else valid_ops a char_signed trace.ops d2) d'
          e in
      let d2 = record d1 { machine = s } in
      let runs = unless_error (not done) d2 (valid_ops a char_signed trace.ops d2) d' e1 in
      let start : Listed d2 [] = record {
        stored = refl;
        guarded = tt;
        entries = tt;
        separate = tt;
      } in
      let r = valid_ops-Represents b d2 d' [] start refl runs in
      (
        record { live = r.live; same_keys = r.same_keys; listed = r.listed; errors = r.errors },
        Guarded-Parted d'.ranges r.listed.guarded,
      )

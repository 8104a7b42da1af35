-- ===== src/Driver/Valid/Pattern.antt =====
-- The driver's test of the data that `mm_realloc` preserves (mdriver.c, `eval_mm_valid`).
use jungle_malloc_benchmark.Base.{
  ℕ, zero, suc, ◌+◌, ◌≤◌, ◌<◌, ◌≡◌, ◌↔◌, ◌⊎◌, refl, inl, inr, Bool, true, false, Bool-cases, arith,
  subst, sym,
}
use jungle_malloc_benchmark.Memory.{Ptr}
use jungle_malloc_benchmark.Machine.{State, ok, load_byte}
use jungle_malloc_benchmark.Driver.Valid.{char_equals, holds_pattern}

char_equals_iff :
    (char_signed : Bool) (byte c : ℕ)
    → (char_signed ≡ false) ⊎ (c < 128)
    → (char_equals char_signed byte c ≡ true) ↔ (byte ≡ c)
unfolding char_equals
char_equals_iff true byte c (inl e) = absurd (cc e)
char_equals_iff true byte c (inr small) = ground arith
char_equals_iff false byte c h = ground arith

char_equals_signed : (byte c : ℕ) → 128 ≤ c → char_equals true byte c ≡ false
unfolding char_equals
char_equals_signed byte c big = ground arith

load_byte-ok :
    (s : State) (p : Ptr)
    → s.lib.start_brk ≤ p
    → p < s.lib.max_addr
    → load_byte p s ≡ ok (s.bytes p) s
unfolding load_byte
load_byte-ok s p above below = ground arith

-- A property of a block of `suc left` bytes, cut after the first.
holds_suc :
    (m : ℕ → ℕ) (left p c : ℕ)
    → ((j : ℕ) → j < suc left → m (p + j) ≡ c)
      ↔ (m p ≡ c) × ((j : ℕ) → j < left → m (p + 1 + j) ≡ c)
holds_suc m left p c = (
  λ all. (
    subst (λ q. m q ≡ c) (first p) (all 0 (omega arith)),
    λ j small. subst (λ q. m q ≡ c) (next p j) (all (suc j) (omega arith)),
  ),
  λ (e, rest) j small. at e rest j small,
)
  where
    first : (p : ℕ) → p + 0 ≡ p
    first p = omega arith

    next : (p j : ℕ) → p + suc j ≡ p + 1 + j
    next p j = omega arith

    at : m p ≡ c → ((j : ℕ) → j < left → m (p + 1 + j) ≡ c) → (j : ℕ) → j < suc left → m (p + j) ≡ c
    at e rest zero small = subst (λ q. m q ≡ c) (sym (first p)) e
    at e rest (suc j) small = subst (λ q. m q ≡ c) (sym (next p j)) (rest j (omega arith))

-- Inside the arena, and where `char` is unsigned or the pattern is below 128, the loop that
-- checks a block after a realloc ends with true exactly when each of the `left` bytes from `p` on
-- is `c`; it changes nothing.
pub holds_pattern_iff :
    (char_signed : Bool) (left : ℕ) (p : Ptr) (c : ℕ) (s : State)
    → (char_signed ≡ false) ⊎ (c < 128)
    → s.lib.start_brk ≤ p
    → p + left ≤ s.lib.max_addr
    → (same : Bool) × (holds_pattern char_signed left p c s ≡ ok same s)
      × ((same ≡ true) ↔ ((j : ℕ) → j < left → s.bytes (p + j) ≡ c))
unfolding holds_pattern
holds_pattern_iff char_signed zero p c s h above below =
    (true, refl, (λ _ j small. absurd (omega arith), λ _. refl))
holds_pattern_iff char_signed (suc left) p c s h above below =
    let (same, runs, iff) =
      holds_pattern_iff char_signed left (p + 1) c s h (omega arith) (omega arith) in
    let equal = char_equals_iff char_signed (s.bytes p) c h in
    elim (Bool-cases (char_equals char_signed (s.bytes p) c)) [
      | inl e ↦ (
        same,
        rw (load_byte-ok s p above (omega arith), e) runs,
        (
          λ f. (holds_suc s.bytes left p c).1 (equal.0 e, iff.0 f),
          λ all. iff.1 ((holds_suc s.bytes left p c).0 all).1,
        ),
      )
      | inr e ↦ (
        false,
        rw (load_byte-ok s p above (omega arith), e) refl,
        (
          λ f. absurd (cc f),
          λ all. absurd (cc (e, equal.1 ((holds_suc s.bytes left p c).0 all).0)),
        ),
      )
    ]

-- Where `char` is signed, a check of at least one byte inside the arena against a pattern of 128
-- or more answers false, whatever the block holds.
pub holds_pattern_signed :
    (left : ℕ) (p : Ptr) (c : ℕ) (s : State)
    → 0 < left
    → 128 ≤ c
    → s.lib.start_brk ≤ p
    → p < s.lib.max_addr
    → holds_pattern true left p c s ≡ ok false s
unfolding holds_pattern
holds_pattern_signed zero p c s pos big above below = absurd (omega arith)
holds_pattern_signed (suc left) p c s pos big above below =
    rw (load_byte-ok s p above below, char_equals_signed (s.bytes p) c big) refl

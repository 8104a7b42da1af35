-- ===== src/Memory/Laws.antt =====
-- What `GET` reads after a `PUT`.
use jungle_malloc_benchmark.Base.{
  ℕ, ◌+◌, ◌^◌, ◌≤◌, ◌<◌, ◌≡◌, ◌⊎◌, ◌-◌, inl, inr, arith, le→leb, lt→ltb,
}
use jungle_malloc_benchmark.Memory.{Ptr, Bytes, word, put, fill, copy}

-- Every byte is below 256.
abbrev pub IsBytes : Bytes → Type 0
IsBytes m = (x : Ptr) → m x < 2 ^ 8

pub word-lt : (m : Bytes) (p : Ptr) → IsBytes m → word m p < 2 ^ 32
unfolding word
word-lt m p b = omega (arith, b p, b (p + 1), b (p + 2), b (p + 3))

pub put-IsBytes : (m : Bytes) (p : Ptr) (v : ℕ) → IsBytes m → IsBytes (put m p v)
unfolding put
put-IsBytes m p v b x = ground (arith, b x)

pub put-outside :
    (m : Bytes) (p : Ptr) (v : ℕ) (x : Ptr) → (x < p) ⊎ (p + 4 ≤ x) → put m p v x ≡ m x
unfolding put
put-outside m p v x h = ground arith

pub word-put_self : (m : Bytes) (p : Ptr) (v : ℕ) → v < 2 ^ 32 → word (put m p v) p ≡ v
unfolding word put
word-put_self m p v h = ground arith

pub word-put_outside :
    (m : Bytes) (p : Ptr) (v : ℕ) (q : Ptr)
    → (q + 4 ≤ p) ⊎ (p + 4 ≤ q)
    → word (put m p v) q ≡ word m q
unfolding word
word-put_outside m p v q (inl h) = omega (
  arith,
  put-outside m p v q (inl (omega arith)),
  put-outside m p v (q + 1) (inl (omega arith)),
  put-outside m p v (q + 2) (inl (omega arith)),
  put-outside m p v (q + 3) (inl (omega arith)),
)
word-put_outside m p v q (inr h) = omega (
  arith,
  put-outside m p v q (inr (omega arith)),
  put-outside m p v (q + 1) (inr (omega arith)),
  put-outside m p v (q + 2) (inr (omega arith)),
  put-outside m p v (q + 3) (inr (omega arith)),
)

pub word_ext :
    (m m' : Bytes) (q : Ptr) → ((x : Ptr) → q ≤ x → x < q + 4 → m' x ≡ m x) → word m' q ≡ word m q
unfolding word
word_ext m m' q h = omega (
  arith,
  h q (omega arith) (omega arith),
  h (q + 1) (omega arith) (omega arith),
  h (q + 2) (omega arith) (omega arith),
  h (q + 3) (omega arith) (omega arith),
)

-- `memset` and `memcpy` write inside the range, and nothing else.
pub fill-inside : (m : Bytes) (p c n x : ℕ) → p ≤ x → x < p + n → fill m p c n x ≡ c
unfolding fill
fill-inside m p c n x h h' = ground arith

pub fill-outside : (m : Bytes) (p c n x : ℕ) → (x < p) ⊎ (p + n ≤ x) → fill m p c n x ≡ m x
unfolding fill
fill-outside m p c n x h = ground arith

pub copy-inside : (m : Bytes) (to from n j : ℕ) → j < n → copy m to from n (to + j) ≡ m (from + j)
unfolding copy
copy-inside m to from n j h =
    let e : to + j - to ≡ j = omega arith in
    rw (le→leb to (to + j) (omega arith), lt→ltb (to + j) (to + n) (omega arith), e)

pub copy-outside :
    (m : Bytes) (to from n x : ℕ) → (x < to) ⊎ (to + n ≤ x) → copy m to from n x ≡ m x
unfolding copy
copy-outside m to from n x h = ground arith

-- ===== src/Base/Bits.antt =====
-- The bit operations of the program as arithmetic: `| 0`, `| 1`, `& 1`, and `&` with `~7`.
use Prim.Native.Nat.{
  ℕ, zero, suc, ◌+◌, ◌-◌, ◌*◌, ◌/◌, ◌%◌, ◌^◌, ◌≤◌, ◌<◌, min, max, bit_and, bit_or, digits, bitwise,
  bit_and-bitwise, bit_or-bitwise,
}
use mathlib.Core.Path.{◌≡◌, refl, ◌∙◌, sym, ap}
use mathlib.Core.Logic.{◌⊎◌, inl, inr}
use native.Mathlib.Nat.{le_refl}
use native.Mathlib.Omega.{arith}

-- One more round of the recursion on digits than the first operand needs changes nothing.
module _ (z : ℕ → ℕ) (f : ℕ → ℕ → ℕ) where
  one_more : (left x y : ℕ) → x ≤ left → digits z f (suc left) x y ≡ digits z f left x y
  one_more zero zero y le = refl
  one_more (suc left) zero y le = refl
  one_more zero (suc x) y le = absurd (omega arith)
  one_more (suc left) (suc x) y le = rw (one_more left (suc x / 2) (y / 2) (omega arith)) refl

  rounds_enough : (left x y : ℕ) → x ≤ left → digits z f left x y ≡ bitwise z f x y
  rounds_enough zero zero y le = refl
  rounds_enough zero (suc x) y le = absurd (omega arith)
  rounds_enough (suc left) x y le = elim (last le) [
    | inl below ↦ one_more left x y below ∙ rounds_enough left x y below
    | inr same ↦ ap (λ n. digits z f n x y) (sym same)
  ]
    where
      last : {n m : ℕ} → m ≤ suc n → (m ≤ n) ⊎ (m ≡ suc n)
      last h = grind arith

-- Both operations work digit by digit.
bit_or_step : (x y : ℕ) → bit_or x y ≡ bit_or (x / 2) (y / 2) * 2 + max (x % 2) (y % 2)
bit_or_step zero y = simp bit_or-bitwise (omega arith)
bit_or_step (suc x) y =
    let enough = rounds_enough (λ d. d) max x (suc x / 2) (y / 2) (omega arith) in
    simp bit_or-bitwise (omega (arith, enough))

bit_and_step : (x y : ℕ) → bit_and x y ≡ bit_and (x / 2) (y / 2) * 2 + min (x % 2) (y % 2)
bit_and_step zero y = simp bit_and-bitwise (omega arith)
bit_and_step (suc x) y =
    let enough = rounds_enough (λ d. 0) min x (suc x / 2) (y / 2) (omega arith) in
    simp bit_and-bitwise (omega (arith, enough))

bit_or-zero_below : (n a : ℕ) → a ≤ n → bit_or a 0 ≡ a
bit_or-zero_below n zero h = refl
bit_or-zero_below zero (suc a) h = absurd (omega arith)
bit_or-zero_below (suc n) (suc a) h =
    omega (arith, bit_or_step (suc a) 0, bit_or-zero_below n (suc a / 2) (omega arith))

bit_and-zero_below : (n a : ℕ) → a ≤ n → bit_and a 0 ≡ 0
bit_and-zero_below n zero h = refl
bit_and-zero_below zero (suc a) h = absurd (omega arith)
bit_and-zero_below (suc n) (suc a) h =
    omega (arith, bit_and_step (suc a) 0, bit_and-zero_below n (suc a / 2) (omega arith))

pub bit_or-zero : (a : ℕ) → bit_or a 0 ≡ a
bit_or-zero a = bit_or-zero_below a a (le_refl a)

-- Setting the lowest bit of an even number adds one.
pub bit_or-one : (a : ℕ) → a % 2 ≡ 0 → bit_or a 1 ≡ a + 1
bit_or-one a even = omega (arith, bit_or_step a 1, bit_or-zero (a / 2))

pub bit_and-one : (a : ℕ) → bit_and a 1 ≡ a % 2
bit_and-one a =
    omega (arith, bit_and_step a 1, bit_and-zero_below (a / 2) (a / 2) (le_refl (a / 2)))

-- A mask of `k` ones, all at the low end, keeps the remainder by `2 ^ k`.
mask : ℕ → ℕ
mask zero = 0
mask (suc k) = mask k * 2 + 1

-- Masks of low bits keep what fits below them.
bit_and-mask : (k a : ℕ) → a ≤ mask k → bit_and a (mask k) ≡ a
unfolding mask
bit_and-mask zero a h = omega (arith, bit_and-zero_below a a (le_refl a))
bit_and-mask (suc k) a h =
    ground (arith, bit_and_step a (mask k * 2 + 1), bit_and-mask k (a / 2) (omega arith))

-- `w & ~0x07` on an unsigned int clears the low three bits.
pub bit_and-clear_low : (w : ℕ) → w < 2 ^ 32 → bit_and w (2 ^ 32 - 8) ≡ w - w % 8
unfolding mask
bit_and-clear_low w h = omega (
  arith,
  bit_and_step w (2 ^ 32 - 8),
  bit_and_step (w / 2) (2 ^ 31 - 4),
  bit_and_step (w / 2 / 2) (2 ^ 30 - 2),
  bit_and-mask 29 (w / 2 / 2 / 2) (omega arith),
)

-- `x & 0xFF`, bit by bit.
bit_and-two_ones : (x : ℕ) → bit_and x 3 ≡ x % 4
bit_and-two_ones x = omega (arith, bit_and_step x 3, bit_and-one (x / 2))

bit_and-three_ones : (x : ℕ) → bit_and x 7 ≡ x % 8
bit_and-three_ones x = omega (arith, bit_and_step x 7, bit_and-two_ones (x / 2))

bit_and-four_ones : (x : ℕ) → bit_and x 15 ≡ x % 16
bit_and-four_ones x = omega (arith, bit_and_step x 15, bit_and-three_ones (x / 2))

bit_and-five_ones : (x : ℕ) → bit_and x 31 ≡ x % 32
bit_and-five_ones x = omega (arith, bit_and_step x 31, bit_and-four_ones (x / 2))

bit_and-six_ones : (x : ℕ) → bit_and x 63 ≡ x % 64
bit_and-six_ones x = omega (arith, bit_and_step x 63, bit_and-five_ones (x / 2))

bit_and-seven_ones : (x : ℕ) → bit_and x 127 ≡ x % 128
bit_and-seven_ones x = omega (arith, bit_and_step x 127, bit_and-six_ones (x / 2))

pub bit_and-byte : (x : ℕ) → bit_and x 255 ≡ x % 256
bit_and-byte x = omega (arith, bit_and_step x 255, bit_and-seven_ones (x / 2))

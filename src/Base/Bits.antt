-- ===== src/Base/Bits.antt =====
-- `|` of disjoint fields and `&` with the masks of the code, as arithmetic.
use Prim.Native.Nat.{
  ℕ, zero, suc, ◌+◌, ◌*◌, ◌/◌, ◌%◌, ◌^◌, ◌≤◌, ◌<◌, max, bit_and, bit_or, digits, bit_or-bitwise,
}
use mathlib.Core.Path.{◌≡◌, refl, ap}
use mathlib.Core.Bool.{Bool, true, false}
use mathlib.Core.Logic.{inl, inr}
use native.Mathlib.Nat.{pow-suc}
use native.Mathlib.Omega.{arith}
use demo_iot_app_hw.Base.Tests.{◌==◌, ==_iff, if◌then◌else◌, Bool-cases}

abbrev or_digits : ℕ → ℕ → ℕ → ℕ
or_digits n a b = digits (λ y. y) max n a b

-- Fuel above the first number changes nothing.
or_digits_fuel : (n m a b : ℕ) → a ≤ n → a ≤ m → or_digits n a b ≡ or_digits m a b
or_digits_fuel zero zero a b p q = refl
or_digits_fuel zero (suc m) zero b p q = refl
or_digits_fuel (suc n) zero zero b p q = refl
or_digits_fuel (suc n) (suc m) zero b p q = refl
or_digits_fuel zero (suc m) (suc a) b p q = absurd (omega arith)
or_digits_fuel (suc n) zero (suc a) b p q = absurd (omega arith)
or_digits_fuel (suc n) (suc m) (suc a) b p q =
    omega (arith, or_digits_fuel n m (suc a / 2) (b / 2) (omega arith) (omega arith))

zero-bit_or : (b : ℕ) → bit_or 0 b ≡ b
zero-bit_or b = bit_or-bitwise 0 b

-- The lowest binary digit of `a | b`.
bit_or_digit : (a b : ℕ) → bit_or a b ≡ bit_or (a / 2) (b / 2) * 2 + max (a % 2) (b % 2)
bit_or_digit zero b = omega (arith, zero-bit_or b, zero-bit_or (b / 2))
bit_or_digit (suc a) b = omega (
  arith,
  bit_or-bitwise (suc a) b,
  bit_or-bitwise (suc a / 2) (b / 2),
  or_digits_fuel a (suc a / 2) (suc a / 2) (b / 2) (omega arith) (omega arith),
)

-- `r | (g << k)` is a sum when `r` fits in `k` bits.
pub bit_or_disjoint : (k r g : ℕ) → r < 2 ^ k → bit_or r (g * 2 ^ k) ≡ r + g * 2 ^ k
bit_or_disjoint zero r g h =
    let e : r ≡ 0 = omega arith in rw e (omega (arith, zero-bit_or (g * 2 ^ 0)))
bit_or_disjoint (suc k) r g h = omega (
  arith,
  bit_or_digit r (g * 2 ^ suc k),
  half,
  ap (λ (t : ℕ). bit_or (r / 2) t) half_shift,
  bit_or_disjoint k (r / 2) g (omega (arith, pow-suc 2 k)),
)
  where
    half : g * 2 ^ suc k ≡ 2 * (g * 2 ^ k)
    half = omega (arith, ap (λ (t : ℕ). g * t) (pow-suc 2 k))

    half_shift : g * 2 ^ suc k / 2 ≡ g * 2 ^ k
    half_shift = omega (arith, half)

-- Whether two functions agree on the numbers below a bound.
agree : (ℕ → ℕ) → (ℕ → ℕ) → ℕ → Bool
agree f g zero = true
agree f g (suc bound) = let below = agree f g bound in (if f bound == g bound then below else false)

agree-lt : (f g : ℕ → ℕ) (bound x : ℕ) → x < bound → agree f g bound ≡ true → f x ≡ g x
unfolding agree
agree-lt f g zero x small same = absurd (omega arith)
agree-lt f g (suc bound) x small same = elim (Bool-cases (f bound == g bound)) [
  | inr differ ↦ ground arith
  | inl here ↦
      let below : agree f g bound ≡ true = ground arith in
      let last = (==_iff (f bound) (g bound)).0 here in
      elim (Bool-cases (x == bound)) [
        | inl top ↦ let e = (==_iff x bound).0 top in rw e last
        | inr under ↦ agree-lt f g bound x (ground arith) below
      ]
]

-- The seven low bits of a byte, and its top bit: tried on every byte.
pub low_bits : (x : ℕ) → x < 256 → bit_and x 127 ≡ x % 128
unfolding agree
low_bits x h = agree-lt (λ b. bit_and b 127) (λ b. b % 128) 256 x h refl

pub top_bit : (x : ℕ) → x < 256 → bit_and x 128 ≡ x / 128 * 128
unfolding agree
top_bit x h = agree-lt (λ b. bit_and b 128) (λ b. b / 128 * 128) 256 x h refl

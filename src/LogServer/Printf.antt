-- ===== src/LogServer/Printf.antt =====
-- The conversions of `sprintf` that components/LogServer/src/custom_log_format.c uses, on lists of
-- characters: 48 is '0', 32 is a blank.
use demo_iot_app_hw.Base.{
  ℕ, zero, suc, ◌+◌, ◌-◌, ◌*◌, ◌/◌, ◌%◌, ◌^◌, ◌≤◌, ◌<◌, ◌≡◌, refl, ◌∙◌, inl, inr, List, [], ◌∷◌,
  ◌++◌, true, false, ltb, if◌then◌else◌, Bool-cases, length, replicate, length-append,
  length-replicate, arith,
}
use native.Mathlib.Nat.{pow-suc}

-- The decimal digits of a number, for fuel above the number.
unfoldable pub digits : ℕ → ℕ → List ℕ
digits zero n = []
digits (suc fuel) n =
    let front = digits fuel (n / 10) in
    if ltb n 10 then (48 + n) ∷ [] else front ++ ((48 + n % 10) ∷ [])

unfoldable pub decimal : ℕ → List ℕ
decimal n = digits (suc n) n

-- `%.*u` and `%02d`: at least `k` digits, zeros before them.
unfoldable pub zero_padded : ℕ → ℕ → List ℕ
zero_padded k n = replicate (k - length (decimal n)) 48 ++ decimal n

-- `%*u`: at least `k` characters, blanks before the number.
unfoldable pub right_aligned : ℕ → ℕ → List ℕ
right_aligned k n = replicate (k - length (decimal n)) 32 ++ decimal n

-- `%-*s`: at least `k` characters, blanks behind the string.
unfoldable pub left_aligned : ℕ → List ℕ → List ℕ
left_aligned k s = s ++ replicate (k - length s) 32

-- The number that a string of digits shows, behind the digits of `n`. A blank counts
-- as a 0.
abbrev pub number_from : ℕ → List ℕ → ℕ
number_from n [] = n
number_from n (c ∷ s) = number_from (10 * n + (c - 48)) s

number_from-append :
    (n : ℕ) (s t : List ℕ) → number_from n (s ++ t) ≡ number_from (number_from n s) t
number_from-append n [] t = refl
number_from-append n (c ∷ s) t = number_from-append (10 * n + (c - 48)) s t

digits-one : (fuel n : ℕ) → ltb n 10 ≡ true → digits (suc fuel) n ≡ (48 + n) ∷ []
unfolding digits
digits-one fuel n one = rw one refl

digits-more :
    (fuel n : ℕ)
    → ltb n 10 ≡ false
    → digits (suc fuel) n ≡ digits fuel (n / 10) ++ ((48 + n % 10) ∷ [])
unfolding digits
digits-more fuel n more = rw more refl

number_from-digits : (fuel n : ℕ) → n < fuel → number_from 0 (digits fuel n) ≡ n
unfolding digits
number_from-digits zero n enough = absurd (omega arith)
number_from-digits (suc fuel) n enough = elim (Bool-cases (ltb n 10)) [
  | inl one ↦ rw (digits-one fuel n one) (omega arith)
  | inr more ↦
      let front : number_from 0 (digits fuel (n / 10)) ≡ n / 10 =
        number_from-digits fuel (n / 10) (ground arith) in
      rw
        (
          digits-more fuel n more,
          number_from-append 0 (digits fuel (n / 10)) ((48 + n % 10) ∷ []),
          front,
        )
        (omega arith)
]

number_from-zeros : (k : ℕ) (s : List ℕ) → number_from 0 (replicate k 48 ++ s) ≡ number_from 0 s
number_from-zeros zero s = refl
number_from-zeros (suc k) s = number_from-zeros k s

-- The digits show the number, also behind zeros.
pub number_from-zero_padded : (k n : ℕ) → number_from 0 (zero_padded k n) ≡ n
unfolding zero_padded decimal
number_from-zero_padded k n =
    number_from-zeros (k - length (decimal n)) (decimal n)
    ∙ number_from-digits (suc n) n (omega arith)

number_from-blanks : (k : ℕ) (s : List ℕ) → number_from 0 (replicate k 32 ++ s) ≡ number_from 0 s
number_from-blanks zero s = refl
number_from-blanks (suc k) s = number_from-blanks k s

pub number_from-right_aligned : (k n : ℕ) → number_from 0 (right_aligned k n) ≡ n
unfolding right_aligned decimal
number_from-right_aligned k n =
    number_from-blanks (k - length (decimal n)) (decimal n)
    ∙ number_from-digits (suc n) n (omega arith)

tenth : (k n : ℕ) → n < 10 ^ suc k → n / 10 < 10 ^ k
tenth k n small = omega (arith, pow-suc 10 k)

length-digits : (fuel k n : ℕ) → n < 10 ^ suc k → length (digits fuel n) ≤ suc k
unfolding digits
length-digits zero k n small = omega arith
length-digits (suc fuel) zero n small =
    let one : ltb n 10 ≡ true = ground arith in rw (digits-one fuel n one) (omega arith)
length-digits (suc fuel) (suc k) n small =
    let front = length-digits fuel k (n / 10) (tenth (suc k) n small) in
    let size = length-append (digits fuel (n / 10)) ((48 + n % 10) ∷ []) in
    elim (Bool-cases (ltb n 10)) [
      | inl one ↦ rw (digits-one fuel n one) (omega arith)
      | inr more ↦ rw (digits-more fuel n more) (omega arith)
    ]

-- A number with few enough digits fills its column.
pub length-zero_padded : (k n : ℕ) → 1 ≤ k → n < 10 ^ k → length (zero_padded k n) ≡ k
unfolding zero_padded decimal
length-zero_padded zero n some small = absurd (omega arith)
length-zero_padded (suc k) n some small = omega (
  arith,
  length-append (replicate (suc k - length (decimal n)) 48) (decimal n),
  length-replicate {A = ℕ} (suc k - length (decimal n)) 48,
  length-digits (suc n) k n small,
)

pub length-right_aligned : (k n : ℕ) → 1 ≤ k → n < 10 ^ k → length (right_aligned k n) ≡ k
unfolding right_aligned decimal
length-right_aligned zero n some small = absurd (omega arith)
length-right_aligned (suc k) n some small = omega (
  arith,
  length-append (replicate (suc k - length (decimal n)) 32) (decimal n),
  length-replicate {A = ℕ} (suc k - length (decimal n)) 32,
  length-digits (suc n) k n small,
)

pub length-left_aligned : (k : ℕ) (s : List ℕ) → length s ≤ k → length (left_aligned k s) ≡ k
unfolding left_aligned
length-left_aligned k s fits = omega (
  arith,
  length-append s (replicate (k - length s) 32),
  length-replicate {A = ℕ} (k - length s) 32,
)

-- A column is never narrower than its width, nor than its string.
pub zero_padded_wide : (k n : ℕ) → k ≤ length (zero_padded k n)
unfolding zero_padded
zero_padded_wide k n = omega (
  arith,
  length-append (replicate (k - length (decimal n)) 48) (decimal n),
  length-replicate {A = ℕ} (k - length (decimal n)) 48,
)

pub right_aligned_wide : (k n : ℕ) → k ≤ length (right_aligned k n)
unfolding right_aligned
right_aligned_wide k n = omega (
  arith,
  length-append (replicate (k - length (decimal n)) 32) (decimal n),
  length-replicate {A = ℕ} (k - length (decimal n)) 32,
)

pub left_aligned_wide : (k : ℕ) (s : List ℕ) → length s ≤ length (left_aligned k s)
unfolding left_aligned
left_aligned_wide k s = omega (arith, length-append s (replicate (k - length s) 32))

-- ===== src/Base/Runs.antt =====
-- What running a piece of C does: it returns, it makes an undefined access (or an assertion fails),
-- or it is still looping when the fuel of the model is used up.
use mathlib.Core.Path.{◌≡◌, refl}
use mathlib.Core.Bool.{Bool, true, false}

pub data Run {ℓ} (A : Type ℓ) : Type ℓ where
  ok : A → Run A
  fault : Run A
  out_of_fuel : Run A

infixl 5 ◌>>=◌
abbrev pub ◌>>=◌ {ℓ κ} : {X : Type ℓ} {Y : Type κ} (first : Run X) (next : X → Run Y) → Run Y
out_of_fuel >>= next = out_of_fuel
fault >>= next = fault
ok value >>= next = next value

-- A statement whose value is not used.
infixl 5 ◌>>◌
abbrev pub ◌>>◌ {ℓ} : {Y : Type ℓ} (first : Run (Unit {0})) (next : Run Y) → Run Y
first >> next = first >>= λ done. next

-- `Debug_ASSERT`, as the debug build checks it.
abbrev pub debug_assert : Bool → Run (Unit {0})
debug_assert true = ok tt
debug_assert false = fault

-- Inversion of a bind that returns, for proofs where the parts stay shut.
pub >>=-eq-ok {ℓ κ} :
    {X : Type ℓ} {Y : Type κ} (first : Run X) (next : X → Run Y) {y : Y}
    → (first >>= next) ≡ ok y
    → (x : X) × (first ≡ ok x) × (next x ≡ ok y)
>>=-eq-ok out_of_fuel next h = cc
>>=-eq-ok fault next h = cc
>>=-eq-ok (ok x) next h = (x, refl, h)

-- Total correctness: the run returns, and its value meets `P`.
abbrev pub Returns {ℓ} : {A : Type ℓ} → (A → Type 0) → Run A → Type 0
Returns P (ok a) = P a
Returns P fault = ⊥
Returns P out_of_fuel = ⊥

pub ok-injective {ℓ} : {A : Type ℓ} {a b : A} → ok a ≡ ok b → a ≡ b
ok-injective e = cc

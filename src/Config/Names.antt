-- ===== src/Config/Names.antt =====
-- The name buffers of include/util/helper_func.c. A C string is the list of its characters, none of
-- which is 0; a buffer is the list of its bytes.
use demo_iot_app_hw.Base.{
  ℕ, zero, suc, ◌-◌, ◌≡◌, ◌≢◌, ◌↔◌, refl, ap, List, [], ◌∷◌, ◌++◌, Bool, true, false, ◌==◌,
  if◌then◌else◌, length, take, drop, replicate, All, ℤ, Run, ok, fault, ◌>>=◌, ◌⊎◌, inl, inr,
  Bool-cases, arith, length-append,
}
use demo_iot_app_hw.Platform.Os.{os_success, OsErrors, AreErrors}

-- `strncpy(dst, src, n)`: the `n` bytes that it writes.
abbrev pub strncpy : ℕ → List ℕ → List ℕ
strncpy zero src = []
strncpy (suc n) [] = 0 ∷ strncpy n []
strncpy (suc n) (c ∷ src) = c ∷ strncpy n src

-- `strncmp(a, b, n) == 0` on two buffers of at least `n` bytes.
abbrev pub strncmp_eq : ℕ → List ℕ → List ℕ → Bool
strncmp_eq zero a b = true
strncmp_eq (suc n) [] b = true
strncmp_eq (suc n) (x ∷ a) [] = true
strncmp_eq (suc n) (x ∷ a) (y ∷ b) =
    let rest = strncmp_eq n a b in if x == y then (if x == 0 then true else rest) else false

-- `initializeName`: `memset`, then `strncpy` of at most all bytes but the last.
unfoldable pub initialize_name : ℕ → List ℕ → List ℕ
initialize_name buf_size name =
    strncpy (buf_size - 1) name ++ drop (buf_size - 1) (replicate buf_size 0)

-- `compareDomainName`
unfoldable pub compare_domain_name : OsErrors → ℕ → List ℕ → List ℕ → ℤ
compare_domain_name er size a b = if strncmp_eq size a b then os_success else er.generic

-- A C string: no character is 0.
abbrev pub IsCString : List ℕ → Type 0
IsCString s = All (λ c. c ≢ 0) s

drop-replicate : (n : ℕ) → drop {A = ℕ} n (replicate (suc n) 0) ≡ 0 ∷ []
drop-replicate zero = refl
drop-replicate (suc n) = drop-replicate n

-- The buffer of `n + 1` bytes: `n` bytes of `strncpy`, and the terminator.
initialize_name-suc :
    (n : ℕ) (name : List ℕ) → initialize_name (suc n) name ≡ strncpy n name ++ (0 ∷ [])
unfolding initialize_name
initialize_name-suc n name = let e : suc n - 1 ≡ n = omega arith in rw (e, drop-replicate n)

length-strncpy : (n : ℕ) (name : List ℕ) → length (strncpy n name) ≡ n
length-strncpy zero name = refl
length-strncpy (suc n) [] = ap suc (length-strncpy n [])
length-strncpy (suc n) (c ∷ name) = ap suc (length-strncpy n name)

-- The C string that a buffer holds: its bytes up to the first 0.
abbrev pub c_string : List ℕ → List ℕ
c_string [] = []
c_string (c ∷ buf) = let rest = c_string buf in if c == 0 then [] else c ∷ rest

-- An array that ends before any 0 is a string: for a name that is written out, a computation.
pub c_string-IsCString : (s : List ℕ) → c_string s ≡ s → IsCString s
c_string-IsCString [] e = tt
c_string-IsCString (c ∷ s) e = elim (Bool-cases (c == 0)) [
  | inl zero_byte ↦ absurd (ground (arith, e))
  | inr other ↦
      let same : c ∷ c_string s ≡ c ∷ s = rw other at e in
      (ground arith, c_string-IsCString s ((let tails : c_string s ≡ s = cc in tails)))
]

-- `strlen`: without a 0 in the array it reads on behind it.
abbrev pub strlen : List ℕ → Run ℕ
strlen [] = fault
strlen (c ∷ s) = do let rest = strlen s; if c == 0 then ok 0 else (do n ← rest; ok (suc n))

pub strlen-append : (s rest : List ℕ) → IsCString s → strlen (s ++ (0 ∷ rest)) ≡ ok (length s)
strlen-append [] rest is = refl
strlen-append (c ∷ s) rest is = ground (arith, strlen-append s rest is.1)

pub strlen-IsCString : (s : List ℕ) → IsCString s → strlen s ≡ fault
strlen-IsCString [] is = refl
strlen-IsCString (c ∷ s) is = ground (arith, strlen-IsCString s is.1)

pub strlen-cases : (s : List ℕ) → (strlen s ≡ fault) ⊎ ((n : ℕ) × (strlen s ≡ ok n))
strlen-cases [] = inl refl
strlen-cases (c ∷ s) = let rest = strlen-cases s in ground arith

pub c_string-append :
    (topic rest : List ℕ) → IsCString topic → c_string (topic ++ (0 ∷ rest)) ≡ topic
c_string-append [] rest h = refl
c_string-append (c ∷ topic) rest (hc, h) = ground (arith, c_string-append topic rest h)

c_string-strncpy :
    (n : ℕ) (name : List ℕ) → IsCString name → c_string (strncpy n name ++ (0 ∷ [])) ≡ take n name
c_string-strncpy zero name h = refl
c_string-strncpy (suc n) [] h = refl
c_string-strncpy (suc n) (c ∷ name) (hc, h) = ground (arith, c_string-strncpy n name h)

-- The name buffer is filled whole, and holds the name, cut to one character less than its size:
-- also a name that is too long is terminated.
pub initialize_name_lem :
    (n : ℕ) (name : List ℕ)
    → IsCString name
    → (length (initialize_name (suc n) name) ≡ suc n)
      × (c_string (initialize_name (suc n) name) ≡ take n name)
initialize_name_lem n name h = rw (initialize_name-suc n name) (
  omega (arith, length-append (strncpy n name) (0 ∷ []), length-strncpy n name),
  c_string-strncpy n name h,
)

cmp→take :
    (n : ℕ) (a b : List ℕ)
    → IsCString a
    → IsCString b
    → strncmp_eq (suc n) (strncpy n a ++ (0 ∷ [])) (strncpy n b ++ (0 ∷ [])) ≡ true
    → take n a ≡ take n b
cmp→take zero a b ha hb e = refl
cmp→take (suc n) [] [] ha hb e = refl
cmp→take (suc n) [] (y ∷ b) ha hb e = ground arith
cmp→take (suc n) (x ∷ a) [] ha hb e = ground arith
cmp→take (suc n) (x ∷ a) (y ∷ b) ha hb e = ground (arith, cmp→take n a b ha.1 hb.1)

take→cmp :
    (n : ℕ) (a b : List ℕ)
    → take n a ≡ take n b
    → strncmp_eq (suc n) (strncpy n a ++ (0 ∷ [])) (strncpy n b ++ (0 ∷ [])) ≡ true
take→cmp zero a b e = refl
take→cmp (suc n) [] [] e = refl
take→cmp (suc n) [] (y ∷ b) e = cc
take→cmp (suc n) (x ∷ a) [] e = cc
take→cmp (suc n) (x ∷ a) (y ∷ b) e = ground (arith, take→cmp n a b)

-- Two names that went through `initializeName` compare as equal exactly when they agree up to the
-- length that a name buffer holds.
pub compare-initialize_name_iff :
    (er : OsErrors) (n : ℕ) (a b : List ℕ)
    → AreErrors er
    → IsCString a
    → IsCString b
    → (compare_domain_name er (suc n) (initialize_name (suc n) a) (initialize_name (suc n) b)
        ≡ os_success)
      ↔ (take n a ≡ take n b)
unfolding compare_domain_name
compare-initialize_name_iff er n a b bad ha hb =
    rw (initialize_name-suc n a, initialize_name-suc n b)
      ((λ e. cmp→take n a b ha hb (ground arith)), (λ e. ground (arith, take→cmp n a b e)))

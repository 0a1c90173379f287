-- ===== src/Checksums/Luhn.antt =====
-- app/pii.py: `_passes_luhn` and a single wrong digit.
use privy_gate.Common.{
  ℕ, suc, ◌+◌, ◌%◌, ◌≤◌, ◌≡◌, ◌≢◌, sym, ap, ◌∙◌, Bool, true, false, inl, inr, [], ◌∷◌, ◌++◌, Text,
  arith, ◌==◌, ==_iff, length, length-append, Bool-cases,
}
use privy_gate.Checksums.{digit_value, luhn_value, luhn_sum, passes_luhn}

luhn_sum-append :
    (p i : ℕ) (a b : Text) → luhn_sum p i (a ++ b) ≡ luhn_sum p i a + luhn_sum p (i + length a) b
unfolding luhn_sum
luhn_sum-append p i [] b =
    let e : i ≡ i + length {A = ℕ} [] = omega arith in omega (arith, ap (λ j. luhn_sum p j b) e)
luhn_sum-append p i (c ∷ a) b =
    let e : suc i + length a ≡ i + length (c ∷ a) = omega arith in
    omega (arith, luhn_sum-append p (suc i) a b, ap (λ j. luhn_sum p j b) e)

luhn_value-le : (doubled : Bool) (v : ℕ) → v ≤ 9 → luhn_value doubled v ≤ 9
unfolding luhn_value
luhn_value-le true v h = ground arith
luhn_value-le false v h = h

luhn_value-injective :
    (doubled : Bool) (v w : ℕ) → v ≤ 9 → w ≤ 9 → luhn_value doubled v ≡ luhn_value doubled w → v ≡ w
unfolding luhn_value
luhn_value-injective true v w h k e = ground arith
luhn_value-injective false v w h k e = e

passes_luhn-sum : (s : Text) → passes_luhn s ≡ true → luhn_sum (length s % 2) 0 s % 10 ≡ 0
unfolding passes_luhn
passes_luhn-sum s h = ground (arith, ==_iff (luhn_sum (length s % 2) 0 s % 10) 0)

-- The sum splits at a digit.
luhn_sum-at :
    (p : ℕ) (a b : Text) (x : ℕ)
    → luhn_sum p 0 (a ++ x ∷ b)
      ≡ luhn_sum p 0 a
        + (luhn_value ((0 + length a) % 2 == p) (digit_value x) + luhn_sum p (suc (0 + length a)) b)
unfolding luhn_sum
luhn_sum-at p a b x = luhn_sum-append p 0 a (x ∷ b)

same_length : (a b : Text) (x y : ℕ) → length (a ++ y ∷ b) ≡ length (a ++ x ∷ b)
same_length a b x y = omega (arith, length-append a (y ∷ b), length-append a (x ∷ b))

-- A text of digits that passes stops to pass when one digit is replaced by another.
pub passes_luhn-replaced :
    (a b : Text) (x y : ℕ)
    → digit_value x ≤ 9
    → digit_value y ≤ 9
    → digit_value x ≢ digit_value y
    → passes_luhn (a ++ x ∷ b) ≡ true
    → passes_luhn (a ++ y ∷ b) ≡ false
passes_luhn-replaced a b x y h k differ passes = elim (Bool-cases (passes_luhn (a ++ y ∷ b))) [
  | inr fails ↦ fails
  | inl also ↦
      let p : ℕ = length (a ++ x ∷ b) % 2 in
      let d : Bool = (0 + length a) % 2 == p in
      let e : luhn_sum p 0 (a ++ y ∷ b) % 10 ≡ 0 =
        ap (λ n. luhn_sum (n % 2) 0 (a ++ y ∷ b) % 10) (sym (same_length a b x y))
        ∙ passes_luhn-sum (a ++ y ∷ b) also in
      absurd (
        differ (
          luhn_value-injective d (digit_value x) (digit_value y) h k (
            omega (
              arith,
              luhn_sum-at p a b x,
              luhn_sum-at p a b y,
              passes_luhn-sum (a ++ x ∷ b) passes,
              e,
              luhn_value-le d (digit_value x) h,
              luhn_value-le d (digit_value y) k,
            ))))
]

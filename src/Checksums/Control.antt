-- ===== src/Checksums/Control.antt =====
-- app/pii.py: the control digits of SNILS numbers.
use privy_gate.Common.{
  ℕ, ◌+◌, ◌*◌, ◌%◌, ◌≡◌, ◌↔◌, refl, sym, ap, ◌∙◌, true, zero, suc, List, map, [], ◌∷◌, Text, arith,
  ◌==◌, ==_iff,
}
use privy_gate.Checksums.{digit_value, number, snils_sum, snils_expected, snils_checksum}

abbrev pub digit : ℕ → ℕ
digit d = b'0' + d

-- The number `abc-def-ghi xy` without its separators.
abbrev pub snils : ℕ → ℕ → ℕ → ℕ → ℕ → ℕ → ℕ → ℕ → ℕ → ℕ → ℕ → Text
snils a b c d e f g h i x y =
    digit a
    ∷ digit b
    ∷ digit c
    ∷ digit d
    ∷ digit e
    ∷ digit f
    ∷ digit g
    ∷ digit h
    ∷ digit i
    ∷ digit x
    ∷ digit y
    ∷ []

snils_expected_lem : (n : ℕ) → snils_expected n ≡ n % 101 % 100
unfolding snils_expected
snils_expected_lem n = ground arith

abbrev plain_sum : ℕ → List ℕ → ℕ
plain_sum zero ds = 0
plain_sum (suc w) [] = 0
plain_sum (suc w) (d ∷ ds) = d * suc w + plain_sum w ds

digit_value-digit : (d : ℕ) → digit_value (digit d) ≡ d
digit_value-digit d = omega arith

snils_sum-digits : (w : ℕ) (ds : List ℕ) → snils_sum w (map digit ds) ≡ plain_sum w ds
unfolding snils_sum
snils_sum-digits zero ds = refl
snils_sum-digits (suc w) [] = refl
snils_sum-digits (suc w) (d ∷ ds) =
    ap (λ v. v * suc w + snils_sum w (map digit ds)) (digit_value-digit d)
    ∙ ap (λ n. d * suc w + n) (snils_sum-digits w ds)

number_pair : (x y : ℕ) → number 0 (digit x ∷ digit y ∷ []) ≡ 10 * x + y
unfolding number
number_pair x y = omega arith

snils_checksum-number :
    (a b c d e f g h i x y : ℕ)
    → snils_checksum (snils a b c d e f g h i x y) ≡ (
        snils_expected (snils_sum 9 (map digit (a ∷ b ∷ c ∷ d ∷ e ∷ f ∷ g ∷ h ∷ i ∷ [])))
        == number 0 (digit x ∷ digit y ∷ []))
unfolding snils_checksum snils_sum
snils_checksum-number a b c d e f g h i x y = refl

-- A number of eleven digits passes exactly if its last two are the weighted sum of the first nine,
-- with the weights 9 down to 1, modulo 101 and then modulo 100.
pub snils_checksum_iff :
    (a b c d e f g h i x y : ℕ)
    → (snils_checksum (snils a b c d e f g h i x y) ≡ true) ↔ (
        (9 * a + 8 * b + 7 * c + 6 * d + 5 * e + 4 * f + 3 * g + 2 * h + i) % 101 % 100
        ≡ 10 * x + y)
snils_checksum_iff a b c d e f g h i x y =
    let ds : List ℕ = a ∷ b ∷ c ∷ d ∷ e ∷ f ∷ g ∷ h ∷ i ∷ [] in
    let weighted : plain_sum 9 ds
        ≡ 9 * a + 8 * b + 7 * c + 6 * d + 5 * e + 4 * f + 3 * g + 2 * h + i =
      omega arith in
    let sum = snils_sum-digits 9 ds ∙ weighted in
    let control = snils_expected_lem (snils_sum 9 (map digit ds)) ∙ ap (λ n. n % 101 % 100) sum in
    let (to, from) =
      ==_iff (snils_expected (snils_sum 9 (map digit ds))) (number 0 (digit x ∷ digit y ∷ [])) in
    let pair = number_pair x y in
    let same = snils_checksum-number a b c d e f g h i x y in
    (λ p. sym control ∙ to (sym same ∙ p) ∙ pair, λ p. same ∙ from (control ∙ p ∙ sym pair))

-- ===== src/Checksums.antt =====
-- app/pii.py: the checksums of cards, SNILS and INN numbers, and the test for digits in a row.
--
-- `int` of a digit is its code less that of `0`: the code calls it on ASCII digits only.
pub mod Luhn
pub mod Control
pub mod Tests
use privy_gate.Common.{
  ℕ, zero, suc, ◌+◌, ◌-◌, ◌*◌, ◌%◌, Bool, true, false, ◌&&◌, ◌||◌, List, [], ◌∷◌, Text, ltb, leb,
  ◌==◌, length, take, drop, last, keep_if, if◌then◌else◌,
}

abbrev pub digit_value : ℕ → ℕ
digit_value c = c - b'0'

abbrev pub is_digit : ℕ → Bool
is_digit c = leb b'0' c && leb c b'9'

-- `_digits`
unfoldable pub digits_of : Text → Text
digits_of value = keep_if is_digit value

-- int(s)
unfoldable pub number : ℕ → Text → ℕ
number n [] = n
number n (c ∷ s) = number (n * 10 + digit_value c) s

-- What a digit adds to the checksum, whether it is doubled or not.
unfoldable pub luhn_value : Bool → ℕ → ℕ
luhn_value true v = if ltb 9 (v * 2) then v * 2 - 9 else v * 2
luhn_value false v = v

unfoldable pub luhn_sum : ℕ → ℕ → Text → ℕ
luhn_sum parity index [] = 0
luhn_sum parity index (c ∷ s) =
    luhn_value (index % 2 == parity) (digit_value c) + luhn_sum parity (suc index) s

unfoldable pub passes_luhn : Text → Bool
passes_luhn s = (leb 13 (length s) && leb (length s) 19) && (luhn_sum (length s % 2) 0 s % 10 == 0)

unfoldable pub all_follow : Text → Bool
all_follow [] = true
all_follow (c ∷ []) = true
all_follow (c ∷ d ∷ s) = digit_value d == (digit_value c + 1) % 10 && all_follow (d ∷ s)

unfoldable pub is_sequential_digits : Text → Bool
is_sequential_digits s = if ltb (length s) 2 then false else all_follow s

-- The sum over `zip(digits[:w], range(w, 0, -1))`.
unfoldable pub snils_sum : ℕ → Text → ℕ
snils_sum zero s = 0
snils_sum (suc w) [] = 0
snils_sum (suc w) (c ∷ s) = digit_value c * suc w + snils_sum w s

unfoldable pub snils_expected : ℕ → ℕ
snils_expected sum =
    if ltb sum 100
    then sum
    else if sum == 100 || sum == 101
    then 0
    else if sum % 101 == 100
    then 0
    else sum % 101

unfoldable pub snils_checksum : Text → Bool
snils_checksum s =
    if length s == 11 then snils_expected (snils_sum 9 s) == number 0 (last 2 s) else false

-- The sum over `zip(digits, weights)`.
unfoldable pub weighted_sum : List ℕ → Text → ℕ
weighted_sum [] s = 0
weighted_sum (w ∷ ws) [] = 0
weighted_sum (w ∷ ws) (c ∷ s) = digit_value c * w + weighted_sum ws s

unfoldable pub control_digit : List ℕ → Text → ℕ
control_digit weights s = weighted_sum weights s % 11 % 10

abbrev pub ten_digit_weights : List ℕ
ten_digit_weights = 2 ∷ 4 ∷ 10 ∷ 3 ∷ 5 ∷ 9 ∷ 4 ∷ 6 ∷ 8 ∷ []

abbrev pub twelve_digit_first_weights : List ℕ
twelve_digit_first_weights = 7 ∷ 2 ∷ 4 ∷ 10 ∷ 3 ∷ 5 ∷ 9 ∷ 4 ∷ 6 ∷ 8 ∷ []

abbrev pub twelve_digit_second_weights : List ℕ
twelve_digit_second_weights = 3 ∷ 7 ∷ 2 ∷ 4 ∷ 10 ∷ 3 ∷ 5 ∷ 9 ∷ 4 ∷ 6 ∷ 8 ∷ []

-- int(digits[i]), for the index of a digit.
abbrev digit_at : ℕ → Text → ℕ
digit_at i s = number 0 (take 1 (drop i s))

unfoldable pub inn_checksum : Text → Bool
inn_checksum s =
    if length s == 10
    then control_digit ten_digit_weights (take 9 s) == digit_at 9 s
    else if length s == 12
    then control_digit twelve_digit_first_weights (take 10 s) == digit_at 10 s
      && control_digit twelve_digit_second_weights (take 11 s) == digit_at 11 s
    else false

-- ===== src/Patterns.antt =====
-- app/pii.py: the patterns of the detectors of numbers, as values of `Regex`.
pub mod Dates
pub mod Names
use privy_gate.Common.{ℕ, Bool, [], ◌∷◌, codes}
use privy_gate.Regex.{Chars, Regex, one_of, either, at_least, between, group, not_behind, not_ahead}
use privy_gate.Regex.Classes.{
  among, ◌or◌, digit, lower, upper, cyrillic_lower, cyrillic_upper, ignore_case, char, literal,
  literal_ignoring, maybe, exactly, alternatives, ◌~◌, many, one_or_more,
}

abbrev alphanumeric : ℕ → Bool
alphanumeric = upper or lower or digit

abbrev digits_of_length : ℕ → Regex
digits_of_length n = exactly n (one_of digit)

-- (?<![0-9]) and (?![0-9])
abbrev pub no_digit_behind : Regex
no_digit_behind = not_behind digit

abbrev pub no_digit_ahead : Regex
no_digit_ahead = not_ahead digit

abbrev pub blank : ℕ → Bool
blank = among (codes " \t")

abbrev domain_label : Regex
domain_label =
    one_of alphanumeric
    ~ maybe (between 0 61 (one_of (alphanumeric or among (codes "-"))) ~ one_of alphanumeric)

module _ (u : Chars) where
  abbrev pub email_pattern : Regex
  email_pattern =
      not_behind (u.is_word or among (codes ".+-"))
      ~ one_or_more (one_of (alphanumeric or among (codes ".!#$%&'*+/=?^_`{|}~-")))
      ~ char b'@'
      ~ domain_label
      ~ one_or_more (char b'.' ~ domain_label)
      ~ not_ahead (u.is_word or among (codes "-"))

  -- [\s-]*
  abbrev gap : Regex
  gap = many (one_of (u.is_space or among (codes "-")))

  abbrev pub phone_pattern : Regex
  phone_pattern =
      no_digit_behind
      ~ either (literal (codes "+7")) (char b'8')
      ~ gap
      ~ maybe (char b'(')
      ~ digits_of_length 3
      ~ maybe (char b')')
      ~ gap
      ~ digits_of_length 3
      ~ gap
      ~ digits_of_length 2
      ~ gap
      ~ digits_of_length 2
      ~ no_digit_ahead

  abbrev pub foreign_phone_pattern : Regex
  foreign_phone_pattern =
      no_digit_behind
      ~ char b'+'
      ~ (one_of (among (codes "123456789")) ~ between 0 2 (one_of digit))
      ~ gap
      ~ maybe (char b'(')
      ~ between 2 4 (one_of digit)
      ~ maybe (char b')')
      ~ gap
      ~ between 3 4 (one_of digit)
      ~ gap
      ~ between 3 4 (one_of digit)
      ~ no_digit_ahead

  -- (?<![0-9а-яёa-z]) and (?![0-9а-яёa-z]), under IGNORECASE.
  abbrev digit_or_letter : ℕ → Bool
  digit_or_letter = ignore_case u (digit or cyrillic_lower or lower)

  abbrev pub passport_series_number_pattern : Regex
  passport_series_number_pattern =
      not_behind digit_or_letter
      ~ alternatives (
          literal_ignoring u (codes "серия")
          ∷ literal_ignoring u (codes "серии")
          ∷ literal_ignoring u (codes "серией")
          ∷ [])
      ~ many (one_of blank)
      ~ maybe (one_of (among (codes ":#")))
      ~ many (one_of blank)
      ~ group (codes "series") (
          group (codes "region") (digits_of_length 2)
          ~ maybe (one_of (among (codes " -")))
          ~ digits_of_length 2)
      ~ many (one_of blank)
      ~ maybe (char b',')
      ~ many (one_of blank)
      ~ maybe (
          either
            (alternatives (
                literal_ignoring u (codes "номер")
                ∷ literal_ignoring u (codes "номера")
                ∷ literal_ignoring u (codes "номером")
                ∷ [])
              ~ many (one_of blank)
              ~ maybe (one_of (among (codes ":#")))
              ~ many (one_of blank))
            (one_of (among (codes "№#")) ~ many (one_of blank)))
      ~ group (codes "number") (digits_of_length 6)
      ~ not_ahead digit_or_letter

abbrev pub ambiguous_phone_pattern : Regex
ambiguous_phone_pattern = no_digit_behind ~ digits_of_length 10 ~ no_digit_ahead

abbrev pub passport_pattern : Regex
passport_pattern =
    no_digit_behind
    ~ group (codes "series") (
        group (codes "region") (digits_of_length 2)
        ~ maybe (one_of (among (codes " -")))
        ~ digits_of_length 2)
    ~ one_or_more (one_of (among (codes " \t-")))
    ~ maybe (literal (codes "№") ~ many (one_of blank))
    ~ group (codes "number") (digits_of_length 6)
    ~ no_digit_ahead

abbrev pub foreign_passport_pattern : Regex
foreign_passport_pattern =
    no_digit_behind
    ~ (digits_of_length 2 ~ one_or_more (one_of blank) ~ digits_of_length 7)
    ~ no_digit_ahead

abbrev pub foreign_alpha_passport_pattern : Regex
foreign_alpha_passport_pattern =
    not_behind alphanumeric ~ (exactly 2 (one_of upper) ~ digits_of_length 7) ~ no_digit_ahead

abbrev pub military_id_pattern : Regex
military_id_pattern =
    not_behind (cyrillic_upper or cyrillic_lower or digit)
    ~ (exactly 2 (one_of cyrillic_upper)
        ~ maybe (one_of (among (codes " \t-")))
        ~ maybe (literal (codes "номер") ~ many (one_of blank))
        ~ digits_of_length 7)
    ~ no_digit_ahead

abbrev pub snils_pattern : Regex
snils_pattern =
    no_digit_behind
    ~ digits_of_length 3
    ~ maybe (one_of (among (codes "- ")))
    ~ digits_of_length 3
    ~ maybe (one_of (among (codes "- ")))
    ~ digits_of_length 3
    ~ maybe (char b' ')
    ~ digits_of_length 2
    ~ no_digit_ahead

abbrev pub inn_pattern : Regex
inn_pattern = no_digit_behind ~ either (digits_of_length 12) (digits_of_length 10) ~ no_digit_ahead

abbrev pub inn_13_pattern : Regex
inn_13_pattern = no_digit_behind ~ digits_of_length 13 ~ no_digit_ahead

abbrev pub kpp_pattern : Regex
kpp_pattern = no_digit_behind ~ digits_of_length 9 ~ no_digit_ahead

abbrev pub ogrn_pattern : Regex
ogrn_pattern = no_digit_behind ~ digits_of_length 13 ~ no_digit_ahead

abbrev pub card_pattern : Regex
card_pattern =
    no_digit_behind
    ~ between 12 18 (one_of digit ~ maybe (one_of (among (codes " -"))))
    ~ one_of digit
    ~ no_digit_ahead

abbrev pub passport_unit_code_pattern : Regex
passport_unit_code_pattern =
    no_digit_behind
    ~ group (codes "code") (digits_of_length 3 ~ char b'-' ~ digits_of_length 3)
    ~ no_digit_ahead

abbrev pub driving_license_pattern : Regex
driving_license_pattern =
    no_digit_behind
    ~ group (codes "series")
        (digits_of_length 2 ~ maybe (one_of (among (codes " -"))) ~ digits_of_length 2)
    ~ one_or_more (one_of blank)
    ~ group (codes "number") (digits_of_length 6)
    ~ no_digit_ahead

abbrev pub cvv_pattern : Regex
cvv_pattern = no_digit_behind ~ digits_of_length 3 ~ no_digit_ahead

abbrev pub pin_pattern : Regex
pin_pattern = no_digit_behind ~ digits_of_length 4 ~ no_digit_ahead

-- [A-Z]{2,}
abbrev capitals : Regex
capitals = at_least 2 (one_of upper)

abbrev pub card_holder_pattern : Regex
card_holder_pattern =
    not_behind (upper or lower)
    ~ group (codes "name") (capitals ~ one_or_more (one_of (among (codes " -")) ~ capitals))
    ~ not_ahead (upper or lower)

-- ===== src/Patterns/Dates.antt =====
-- app/pii.py: the patterns of dates, and the words for months and days.
use privy_gate.Common.{ℕ, Bool, [], ◌∷◌, Text, codes, map}
use privy_gate.Common.Dict.{Dict, keys}
use privy_gate.Regex.{Chars, Regex, one_of, either, between, group, not_behind, not_ahead}
use privy_gate.Regex.Classes.{
  among, ◌or◌, digit, lower, cyrillic_lower, ignore_case, char, literal_ignoring, maybe, exactly,
  alternatives, ◌~◌, one_or_more,
}

abbrev pub russian_months : Dict ℕ
russian_months =
    (codes "января", 1)
    ∷ (codes "февраля", 2)
    ∷ (codes "марта", 3)
    ∷ (codes "апреля", 4)
    ∷ (codes "мая", 5)
    ∷ (codes "июня", 6)
    ∷ (codes "июля", 7)
    ∷ (codes "августа", 8)
    ∷ (codes "сентября", 9)
    ∷ (codes "октября", 10)
    ∷ (codes "ноября", 11)
    ∷ (codes "декабря", 12)
    ∷ []

abbrev pub russian_day_words : Dict ℕ
russian_day_words =
    (codes "первого", 1)
    ∷ (codes "второго", 2)
    ∷ (codes "третьего", 3)
    ∷ (codes "четвертого", 4)
    ∷ (codes "четвёртого", 4)
    ∷ (codes "пятого", 5)
    ∷ (codes "шестого", 6)
    ∷ (codes "седьмого", 7)
    ∷ (codes "восьмого", 8)
    ∷ (codes "девятого", 9)
    ∷ (codes "десятого", 10)
    ∷ (codes "одиннадцатого", 11)
    ∷ (codes "двенадцатого", 12)
    ∷ (codes "тринадцатого", 13)
    ∷ (codes "четырнадцатого", 14)
    ∷ (codes "пятнадцатого", 15)
    ∷ (codes "шестнадцатого", 16)
    ∷ (codes "семнадцатого", 17)
    ∷ (codes "восемнадцатого", 18)
    ∷ (codes "девятнадцатого", 19)
    ∷ (codes "двадцатого", 20)
    ∷ (codes "двадцать первого", 21)
    ∷ (codes "двадцать второго", 22)
    ∷ (codes "двадцать третьего", 23)
    ∷ (codes "двадцать четвертого", 24)
    ∷ (codes "двадцать четвёртого", 24)
    ∷ (codes "двадцать пятого", 25)
    ∷ (codes "двадцать шестого", 26)
    ∷ (codes "двадцать седьмого", 27)
    ∷ (codes "двадцать восьмого", 28)
    ∷ (codes "двадцать девятого", 29)
    ∷ (codes "тридцатого", 30)
    ∷ (codes "тридцать первого", 31)
    ∷ []

abbrev pub english_months : Dict ℕ
english_months =
    (codes "january", 1)
    ∷ (codes "february", 2)
    ∷ (codes "march", 3)
    ∷ (codes "april", 4)
    ∷ (codes "may", 5)
    ∷ (codes "june", 6)
    ∷ (codes "july", 7)
    ∷ (codes "august", 8)
    ∷ (codes "september", 9)
    ∷ (codes "october", 10)
    ∷ (codes "november", 11)
    ∷ (codes "december", 12)
    ∷ []

-- [./-]
abbrev date_separator : Regex
date_separator = one_of (among (codes "./-"))

abbrev pub date_numeric_pattern : Regex
date_numeric_pattern =
    not_behind digit
    ~ group (codes "first") (between 1 4 (one_of digit))
    ~ date_separator
    ~ group (codes "second") (between 1 2 (one_of digit))
    ~ date_separator
    ~ group (codes "third") (between 2 4 (one_of digit))
    ~ not_ahead digit

module _ (u : Chars) where
  abbrev spaces : Regex
  spaces = one_or_more (one_of u.is_space)

  abbrev word : Text → Regex
  word = literal_ignoring u

  -- [а-яёa-z0-9] under IGNORECASE.
  abbrev letter_or_digit : ℕ → Bool
  letter_or_digit = ignore_case u (cyrillic_lower or lower or digit)

  -- The groups `month` and `year`, and "года" or "г."
  abbrev month_and_year : Regex
  month_and_year =
      group (codes "month") (alternatives (map word (keys russian_months)))
      ~ maybe (spaces ~ group (codes "year") (exactly 4 (one_of digit)))
      ~ maybe (spaces ~ either (word (codes "года")) (word (codes "г.")))
      ~ not_ahead letter_or_digit

  abbrev pub date_text_pattern : Regex
  date_text_pattern =
      not_behind letter_or_digit
      ~ group (codes "day") (
          maybe (word (codes "двадцать") ~ spaces)
          ~ alternatives (
              word (codes "первого")
              ∷ word (codes "второго")
              ∷ word (codes "третьего")
              ∷ word (codes "четвертого")
              ∷ word (codes "четвёртого")
              ∷ word (codes "пятого")
              ∷ word (codes "шестого")
              ∷ word (codes "седьмого")
              ∷ word (codes "восьмого")
              ∷ word (codes "девятого")
              ∷ word (codes "десятого")
              ∷ word (codes "одиннадцатого")
              ∷ word (codes "двенадцатого")
              ∷ word (codes "тринадцатого")
              ∷ word (codes "четырнадцатого")
              ∷ word (codes "пятнадцатого")
              ∷ word (codes "шестнадцатого")
              ∷ word (codes "семнадцатого")
              ∷ word (codes "восемнадцатого")
              ∷ word (codes "девятнадцатого")
              ∷ word (codes "двадцатого")
              ∷ word (codes "тридцатого")
              ∷ (word (codes "тридцать") ~ spaces ~ word (codes "первого"))
              ∷ []))
      ~ spaces
      ~ month_and_year

  abbrev pub numeric_day_month_pattern : Regex
  numeric_day_month_pattern =
      not_behind letter_or_digit
      ~ group (codes "day") (between 1 2 (one_of digit))
      ~ spaces
      ~ month_and_year

  abbrev english_month : Text → Regex
  english_month name = group name (alternatives (map word (keys english_months)))

  abbrev pub english_date_pattern : Regex
  english_date_pattern =
      not_behind (ignore_case u (lower or digit))
      ~ either
          (group (codes "day") (between 1 2 (one_of digit))
            ~ spaces
            ~ english_month (codes "month1")
            ~ maybe (maybe (char b',') ~ spaces ~ group (codes "year1") (exactly 4 (one_of digit))))
          (english_month (codes "month2")
            ~ spaces
            ~ group (codes "day2") (between 1 2 (one_of digit))
            ~ maybe (char b',')
            ~ spaces
            ~ group (codes "year2") (exactly 4 (one_of digit)))
      ~ not_ahead (ignore_case u (lower or digit))

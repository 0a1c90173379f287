-- ===== src/Dates.antt =====
-- app/pii.py: calendar dates, and the dates that the matches of the patterns of dates stand for.
--
-- A date is a day, a month and a year.
pub mod Calendar
pub mod Tests
use privy_gate.Common.{
  ℕ, ◌+◌, ◌%◌, Bool, true, false, not, ◌&&◌, ◌||◌, [], ◌∷◌, Option, none, some, Text, codes, any,
  ltb, leb, ◌==◌, if◌then◌else◌,
}
use privy_gate.Common.Dict
use privy_gate.Common.Dict.{Dict}
use privy_gate.Regex.{Chars, casefold, Match, group_text}
use privy_gate.Checksums.{number}
use privy_gate.Patterns.Dates.{russian_months, russian_day_words, english_months}

unfoldable pub is_valid_calendar_date : ℕ → ℕ → ℕ → Bool
is_valid_calendar_date day month year =
    if not (leb 1 month && leb month 12)
    then false
    else if ltb year 1900 || ltb 2100 year
    then false
    else if any (λ m. m == month) (1 ∷ 3 ∷ 5 ∷ 7 ∷ 8 ∷ 10 ∷ 12 ∷ [])
    then leb 1 day && leb day 31
    else if any (λ m. m == month) (4 ∷ 6 ∷ 9 ∷ 11 ∷ [])
    then leb 1 day && leb day 30
    else let leap = (year % 4 == 0 && not (year % 100 == 0)) || year % 400 == 0 in
      leb 1 day && leb day (if leap then 29 else 28)

unfoldable pub expand_year : ℕ → Option ℕ
expand_year year =
    if leb 1900 year && leb year 2100
    then some year
    else if leb year 99
    then some (if leb 30 year then 1900 + year else 2000 + year)
    else none

pub record Date : Type 0 where
  pub day : ℕ
  pub month : ℕ
  pub year : ℕ

abbrev pub date : ℕ → ℕ → ℕ → Date
date day month year = record { day = day; month = month; year = year }

-- The date with the first two numbers as day and month, or as month and day.
unfoldable pub either_order : ℕ → ℕ → ℕ → Option Date
either_order a b year =
    if is_valid_calendar_date a b year
    then some (date a b year)
    else if is_valid_calendar_date b a year
    then some (date b a year)
    else none

-- `_parse_numeric`, of the numbers of the three groups.
unfoldable pub parse_numeric : ℕ → ℕ → ℕ → Option Date
parse_numeric first second third =
    if leb 1900 first
    then either_order second third first
    else elim (expand_year third) [ none ↦ none | some year ↦ either_order first second year ]

-- Whether the year of a date in words fits, where it has one.
abbrev pub fits_year : ℕ → ℕ → Option Text → Bool
fits_year day month none = true
fits_year day month (some s) = is_valid_calendar_date day month (number 0 s)

abbrev pub fits : Option ℕ → Option ℕ → Option Text → Bool
fits none month year = false
fits (some day) none year = false
fits (some day) (some month) year = fits_year day month year

-- `a or b`, of two groups.
abbrev pub first_of : Option Text → Option Text → Option Text
first_of none b = b
first_of (some a) b = some a

module _ (u : Chars) (text : Text) (m : Match) where
  -- words.get(match.group(name).casefold())
  abbrev pub word_number : Dict ℕ → Option Text → Option ℕ
  word_number words none = none
  word_number words (some word) = Dict.get (casefold u word) words

  abbrev pub digits_number : Option Text → Option ℕ
  digits_number none = none
  digits_number (some s) = some (number 0 s)

  -- Whether the loops go on with a match of `DATE_TEXT_PATTERN`, of `NUMERIC_DAY_MONTH_PATTERN` and
  -- of `ENGLISH_DATE_PATTERN`.
  unfoldable pub is_text_date : Bool
  is_text_date =
      fits (word_number russian_day_words (group_text text (codes "day") m))
        (word_number russian_months (group_text text (codes "month") m))
        (group_text text (codes "year") m)

  unfoldable pub is_day_month : Bool
  is_day_month =
      fits (digits_number (group_text text (codes "day") m))
        (word_number russian_months (group_text text (codes "month") m))
        (group_text text (codes "year") m)

  unfoldable pub is_english_date : Bool
  is_english_date =
      fits
        (digits_number
          (first_of (group_text text (codes "day") m) (group_text text (codes "day2") m)))
        (word_number english_months
          (first_of (group_text text (codes "month1") m) (group_text text (codes "month2") m)))
        (first_of (group_text text (codes "year1") m) (group_text text (codes "year2") m))

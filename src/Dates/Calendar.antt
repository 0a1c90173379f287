-- ===== src/Dates/Calendar.antt =====
-- The dates that the code accepts, beside the calendar.
use privy_gate.Common.{
  ℕ, ◌-◌, ◌%◌, ◌≤◌, ◌≡◌, ◌≢◌, ◌↔◌, refl, ◌∙◌, Bool, true, false, not, ◌&&◌, ◌||◌, inl, inr, List,
  [], ◌∷◌, none, some, arith, any, leb, ◌==◌, get_elem?, get_elem?-lt, Bool-cases, Option-cases,
  if◌then◌else◌,
}
use privy_gate.Dates.{is_valid_calendar_date, expand_year, Date, date, either_order, parse_numeric}

-- A multiple of 4, and of 400 if it is one of 100.
abbrev pub IsLeap : ℕ → Type 0
IsLeap year = (year % 4 ≡ 0) × (year % 100 ≡ 0 → year % 400 ≡ 0)

-- The lengths of the months, in order, for the length of February.
abbrev pub month_lengths : ℕ → List ℕ
month_lengths february = 31 ∷ february ∷ 31 ∷ 30 ∷ 31 ∷ 30 ∷ 31 ∷ 31 ∷ 30 ∷ 31 ∷ 30 ∷ 31 ∷ []

pub data FebruaryHas (year : ℕ) : ℕ → Type 0 where
  leap : IsLeap year → FebruaryHas year 29
  common : ¬ IsLeap year → FebruaryHas year 28

-- A day of the calendar in a year from 1900 to 2100.
pub record IsCalendarDate (day month year : ℕ) : Type 0 where
  pub february : ℕ
  pub february_has : FebruaryHas year february
  pub month_length : ℕ
  pub is_month : 1 ≤ month
  pub month_has : get_elem? (month_lengths february) (month - 1) ≡ some month_length
  pub from_first : 1 ≤ day
  pub to_last : day ≤ month_length
  pub from_1900 : 1900 ≤ year
  pub to_2100 : year ≤ 2100

abbrev is_long : ℕ → Bool
is_long month = any (λ m. m == month) (1 ∷ 3 ∷ 5 ∷ 7 ∷ 8 ∷ 10 ∷ 12 ∷ [])

abbrev is_short : ℕ → Bool
is_short month = any (λ m. m == month) (4 ∷ 6 ∷ 9 ∷ 11 ∷ [])

abbrev length_of : ℕ → ℕ → ℕ
length_of february month = if is_long month then 31 else if is_short month then 30 else february

month_lengths-length_of :
    (february month : ℕ)
    → 1 ≤ month
    → month ≤ 12
    → get_elem? (month_lengths february) (month - 1) ≡ some (length_of february month)
month_lengths-length_of february month h h' = ground arith

abbrev is_leap : ℕ → Bool
is_leap year = (year % 4 == 0 && not (year % 100 == 0)) || year % 400 == 0

is_leap→IsLeap : (year : ℕ) → is_leap year ≡ true → IsLeap year
is_leap→IsLeap year h = (ground arith, λ e. ground arith)

not_leap→¬IsLeap : (year : ℕ) → is_leap year ≡ false → ¬ IsLeap year
not_leap→¬IsLeap year h (four, hundred) = elim (Bool-cases (year % 100 == 0)) [
  | inl e ↦ let e' = hundred (ground arith) in ground arith
  | inr e ↦ ground arith
]

abbrev february_of : ℕ → ℕ
february_of year = if is_leap year then 29 else 28

february_of-FebruaryHas : (year : ℕ) → FebruaryHas year (february_of year)
february_of-FebruaryHas year = elim (Bool-cases (is_leap year)) [
  | inl e ↦ rw e (leap (is_leap→IsLeap year e))
  | inr e ↦ rw e (common (not_leap→¬IsLeap year e))
]

IsLeap→is_leap : (year : ℕ) → IsLeap year → is_leap year ≡ true
IsLeap→is_leap year l = elim (Bool-cases (is_leap year)) [
  | inl e ↦ e
  | inr e ↦ absurd (not_leap→¬IsLeap year e l)
]

FebruaryHas-unique : (year n : ℕ) → FebruaryHas year n → n ≡ february_of year
FebruaryHas-unique year n (leap l) = rw (IsLeap→is_leap year l) refl
FebruaryHas-unique year n (common c) = elim (Bool-cases (is_leap year)) [
  | inl e ↦ absurd (c (is_leap→IsLeap year e))
  | inr e ↦ rw e refl
]

-- The code's test with the length of the month at once.
valid_by_length : ℕ → ℕ → ℕ → Bool
valid_by_length day month year =
    (leb 1 month && leb month 12)
    && ((leb 1900 year && leb year 2100)
        && (leb 1 day && leb day (length_of (february_of year) month)))

is_valid-by_length :
    (day month year : ℕ) → is_valid_calendar_date day month year ≡ valid_by_length day month year
unfolding is_valid_calendar_date valid_by_length
is_valid-by_length day month year = ground arith

valid→IsCalendarDate :
    (day month year : ℕ)
    → is_valid_calendar_date day month year ≡ true
    → IsCalendarDate day month year
unfolding valid_by_length
valid→IsCalendarDate day month year h =
    let v : valid_by_length day month year ≡ true = rw is_valid-by_length at h in
    let (m, m', y, y', d, d') : (1 ≤ month)
        × (month ≤ 12)
        × (1900 ≤ year)
        × (year ≤ 2100)
        × (1 ≤ day)
        × (day ≤ length_of (february_of year) month) =
      ground arith in
    record {
      february = february_of year;
      february_has = february_of-FebruaryHas year;
      month_length = length_of (february_of year) month;
      is_month = m;
      month_has = month_lengths-length_of (february_of year) month m m';
      from_first = d;
      to_last = d';
      from_1900 = y;
      to_2100 = y';
    }

IsCalendarDate→valid :
    (day month year : ℕ)
    → IsCalendarDate day month year
    → is_valid_calendar_date day month year ≡ true
unfolding valid_by_length
IsCalendarDate→valid day month year c =
    let e = FebruaryHas-unique year c.february c.february_has in
    let short = get_elem?-lt (month_lengths c.february) (month - 1) c.month_has in
    let m = c.is_month in
    let here = month_lengths-length_of (february_of year) month m (omega arith) in
    let there : get_elem? (month_lengths (february_of year)) (month - 1) ≡ some c.month_length =
      rw (← e) c.month_has in
    let has : length_of (february_of year) month ≡ c.month_length = cc in
    is_valid-by_length day month year
    ∙ let from = c.from_first in
      let to = c.to_last in let y = c.from_1900 in let y' = c.to_2100 in ground arith

-- The code's test holds for the dates of the Gregorian calendar from 1900 to 2100, and for no
-- other day, month and year.
pub is_valid_calendar_date_iff :
    (day month year : ℕ)
    → (is_valid_calendar_date day month year ≡ true) ↔ IsCalendarDate day month year
is_valid_calendar_date_iff day month year =
    (valid→IsCalendarDate day month year, IsCalendarDate→valid day month year)

either_order-IsCalendarDate :
    (a b year : ℕ) {d : Date} → either_order a b year ≡ some d → IsCalendarDate d.day d.month d.year
unfolding either_order
either_order-IsCalendarDate a b year {d} h = elim (Bool-cases (is_valid_calendar_date a b year)) [
  | inl ok ↦ let e : date a b year ≡ d = ground arith in rw (← e) (valid→IsCalendarDate a b year ok)
  | inr other ↦ elim (Bool-cases (is_valid_calendar_date b a year)) [
    | inl ok ↦
        let e : date b a year ≡ d = ground arith in rw (← e) (valid→IsCalendarDate b a year ok)
    | inr neither ↦ absurd (ground arith)
  ]
]

-- The date that three numbers are taken for is a date of the calendar from 1900 to 2100.
pub parse_numeric-IsCalendarDate :
    (first second third : ℕ) {d : Date}
    → parse_numeric first second third ≡ some d
    → IsCalendarDate d.day d.month d.year
unfolding parse_numeric
parse_numeric-IsCalendarDate first second third {d} h = elim (Bool-cases (leb 1900 first)) [
  | inl iso ↦ either_order-IsCalendarDate second third first (rw iso at h)
  | inr other ↦ elim (Option-cases (expand_year third)) [
    | inl nothing ↦ absurd (ground arith)
    | inr (year, e) ↦ either_order-IsCalendarDate first second year (rw (other, e) at h)
  ]
]

either_order-some :
    (a b year : ℕ)
    → is_valid_calendar_date a b year ≡ true
    → (either_order a b year ≡ some (date a b year)) × (either_order b a year ≢ none)
unfolding either_order
either_order-some a b year h = (ground arith, λ e. ground arith)

expand_year-full : (year : ℕ) → 1900 ≤ year → year ≤ 2100 → expand_year year ≡ some year
unfolding expand_year
expand_year-full year h h' = ground arith

valid-bound :
    (day month year : ℕ) → is_valid_calendar_date day month year ≡ true → (day ≤ 31) × (month ≤ 12)
unfolding valid_by_length
valid-bound day month year h =
    let v : valid_by_length day month year ≡ true = rw is_valid-by_length at h in ground arith

-- A date of the calendar from 1900 to 2100 is found in each of the four orders of the numbers,
-- and with the day before the month it is that date.
pub parse_numeric-orders :
    (day month year : ℕ)
    → IsCalendarDate day month year
    → (parse_numeric day month year ≡ some (date day month year))
      × (parse_numeric year day month ≡ some (date day month year))
      × (parse_numeric month day year ≢ none)
      × (parse_numeric year month day ≢ none)
unfolding parse_numeric
parse_numeric-orders day month year c =
    let ok = IsCalendarDate→valid day month year c in
    let (short, early) = valid-bound day month year ok in
    let from = c.from_1900 in
    let to = c.to_2100 in
    let (same, swapped) = either_order-some day month year ok in
    let full = expand_year-full year from to in
    (ground arith, ground arith, λ e. ground arith, λ e. ground arith)

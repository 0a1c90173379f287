-- ===== src/Dates/Tests.antt =====
-- Tests of the dates.
use privy_gate.Common.{◌≡◌, ◌≢◌, ◌↔◌, refl, true, none, some}
use privy_gate.Dates.{is_valid_calendar_date, expand_year, date, either_order, parse_numeric}
use privy_gate.Dates.Calendar.{
  IsCalendarDate, is_valid_calendar_date_iff, parse_numeric-IsCalendarDate, parse_numeric-orders,
}

program : Unit {0}
unfolding is_valid_calendar_date expand_year either_order parse_numeric
program = tt

two_digits : parse_numeric 31 12 78 ≡ some (date 31 12 1978)
unfolding program
two_digits = refl

-- The day before the month where both orders are dates.
iso_run : parse_numeric 2021 3 4 ≡ some (date 3 4 2021)
unfolding program
iso_run = refl

no_such_day : parse_numeric 31 4 1990 ≡ none
unfolding program
no_such_day = refl

is_valid_calendar_date_iff_example :
    (is_valid_calendar_date 29 2 2000 ≡ true) ↔ IsCalendarDate 29 2 2000
is_valid_calendar_date_iff_example = is_valid_calendar_date_iff 29 2 2000

parse_numeric-IsCalendarDate_example : IsCalendarDate 31 12 1978
unfolding program
parse_numeric-IsCalendarDate_example = parse_numeric-IsCalendarDate 31 12 78 refl

last_of_april : IsCalendarDate 30 4 1990
unfolding program
last_of_april = (is_valid_calendar_date_iff 30 4 1990).0 refl

parse_numeric-orders_example :
    (parse_numeric 30 4 1990 ≡ some (date 30 4 1990))
    × (parse_numeric 1990 30 4 ≡ some (date 30 4 1990))
    × (parse_numeric 4 30 1990 ≢ none)
    × (parse_numeric 1990 4 30 ≢ none)
parse_numeric-orders_example = parse_numeric-orders 30 4 1990 last_of_april

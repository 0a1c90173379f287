-- ===== src/Boundaries.antt =====
-- app/pii.py: where a value behind a marker starts and ends: the helpers on periods and dates, and
-- the loops of the detectors of places, citizenships and authorities.
--
-- A loop over the positions of the text is a recursion on the text from the position on, `s`.
pub mod Values
use privy_gate.Common.{
  ℕ, zero, suc, ◌+◌, Bool, true, false, not, ◌&&◌, [], ◌∷◌, Option, none, some, Text, codes, length,
  take, drop, all, any, starts_with, ltb, leb, ◌==◌, if◌then◌else◌,
}
use privy_gate.Common.Dict.{keys}
use privy_gate.Regex.{Chars, casefold, test_of, head_of, slice}
use privy_gate.Regex.Classes.{among}
use privy_gate.Patterns.{blank}
use privy_gate.Patterns.Dates.{russian_months}

-- The first character that is no space and no tab.
unfoldable pub past_blanks : Text → Option ℕ
past_blanks [] = none
past_blanks (c ∷ s) = let rest = past_blanks s in if blank c then rest else some c

-- Of the text behind a period.
unfoldable pub is_abbreviation_continuation : Chars → Text → Bool
is_abbreviation_continuation u s = test_of u.is_alpha (past_blanks s)

unfoldable pub is_sentence_end : Chars → Text → Bool
is_sentence_end u s = elim (past_blanks s) [ none ↦ true | some c ↦ u.is_upper c ]

-- s.isdigit()
abbrev are_digits : Chars → Text → Bool
are_digits u [] = false
are_digits u (c ∷ s) = all u.is_digit (c ∷ s)

-- s[i] == c
abbrev is_at : ℕ → ℕ → Text → Bool
is_at i c s = test_of (λ x. x == c) (head_of (drop i s))

abbrev skip_digits : Chars → Text → Text
skip_digits u [] = []
skip_digits u (c ∷ s) = let rest = skip_digits u s in if u.is_digit c then rest else c ∷ s

unfoldable pub is_textual_date_start : Chars → Text → Bool
is_textual_date_start u s =
    if leb (length s) 2
    then false
    else if not (are_digits u (take 2 s))
    then false
    else let s' = skip_digits u s in
      is_at 0 b' ' s' && any (λ month. starts_with month (drop 1 s')) (keys russian_months)

-- Two digits, a sign, two digits and the sign again.
abbrev is_day_month : Chars → ℕ → Text → Bool
is_day_month u sign s =
    are_digits u (take 2 s) && (is_at 2 sign s && (are_digits u (slice 3 5 s) && is_at 5 sign s))

unfoldable pub is_date_start : Chars → Text → Bool
is_date_start u s =
    if leb (length s) 9
    then false
    else if are_digits u (take 4 s)
        && (is_at 4 b'-' s
            && (are_digits u (slice 5 7 s) && (is_at 7 b'-' s && are_digits u (slice 8 10 s))))
    then true
    else if is_day_month u b'.' s
    then true
    else if is_day_month u b'/' s
    then true
    else is_textual_date_start u s

-- while start < len(text) and text[start] in characters: start += 1
unfoldable pub trim_from : Text → Text → ℕ → ℕ
trim_from characters [] start = start
trim_from characters (c ∷ s) start =
    let rest = trim_from characters s (suc start) in if among characters c then rest else start

abbrev pub trim_start : Text → Text → ℕ → ℕ
trim_start characters text start = trim_from characters (drop start text) start

-- `end` is moved on up to a character where the loop breaks, of which `stops` is told the
-- character and the text behind it.
unfoldable pub end_from : (ℕ → Text → Bool) → Text → ℕ → ℕ
end_from stops [] end = end
end_from stops (c ∷ s) end =
    let rest = end_from stops s (suc end) in if stops c s then end else rest

abbrev pub separators : Text
separators = codes ",;!?\n"

-- The breaks of the three loops.
unfoldable pub place_stops : Chars → ℕ → Text → Bool
place_stops u c s =
    if among separators c
    then true
    else if c == b'.'
    then not (is_abbreviation_continuation u s)
    else false

unfoldable pub citizenship_stops : Chars → ℕ → Text → Bool
citizenship_stops u c s =
    if among separators c
    then true
    else if c == b'.'
    then not (is_abbreviation_continuation u s && not (is_sentence_end u s))
    else false

unfoldable pub authority_stops : Chars → ℕ → Text → Bool
authority_stops u c s =
    if among separators c
    then true
    else if c == b'.'
    then not (is_abbreviation_continuation u s)
    else is_date_start u (c ∷ s)

-- while end > start and text[end - 1] in " \t": end -= 1
unfoldable pub trim_end : Text → ℕ → ℕ → ℕ
trim_end text start zero = zero
trim_end text start (suc end) =
    let rest = trim_end text start end in
    if ltb start (suc end) && test_of blank (head_of (drop end text)) then rest else suc end

module _ (u : Chars) (text : Text) (start : ℕ) where
  unfoldable pub place_end : ℕ
  place_end = end_from (place_stops u) (drop start text) start

  unfoldable pub citizenship_end : ℕ
  citizenship_end = end_from (citizenship_stops u) (drop start text) start

  unfoldable pub authority_end : ℕ
  authority_end = trim_end text start (end_from (authority_stops u) (drop start text) start)

  -- lowered.startswith(marker, start)
  abbrev follows_at : Text → Bool
  follows_at marker = starts_with marker (drop start (casefold u text))

  unfoldable pub skip_place_markers : ℕ
  skip_place_markers =
      if follows_at (codes "город ")
      then start + 6
      else if follows_at (codes "городе ")
      then start + 7
      else if follows_at (codes "г. ")
      then start + 3
      else if follows_at (codes "г ")
      then start + 2
      else start

-- The loop of `_skip_to_place`, on the text and its casefolded form from the position on.
unfoldable pub place_from : Text → Text → ℕ → Option ℕ
place_from lowered [] index = none
place_from lowered (c ∷ s) index =
    let rest = place_from (drop 1 lowered) s (suc index) in
    if starts_with (codes "в ") lowered then some (index + 2) else rest

unfoldable pub skip_to_place : Chars → Text → ℕ → Option ℕ
skip_to_place u text start = place_from (drop start (casefold u text)) (drop start text) start

-- ===== src/Patterns/Names.antt =====
-- app/pii.py: the patterns of names.
use privy_gate.Common.{ℕ, Bool}
use privy_gate.Regex.{Chars, Regex, one_of, either, at_least, between, not_behind, not_ahead}
use privy_gate.Regex.Classes.{
  ◌or◌, digit, lower, upper, cyrillic_lower, cyrillic_upper, char, maybe, ◌~◌, one_or_more,
}

-- A word, or two with a dash: [A][b]+(?:-[A][b]+)?
abbrev title_word : (ℕ → Bool) → (ℕ → Bool) → Regex
title_word first others =
    one_of first
    ~ one_or_more (one_of others)
    ~ maybe (char b'-' ~ one_of first ~ one_or_more (one_of others))

-- [A]{2,}(?:-[A]{2,})?
abbrev capitals_word : (ℕ → Bool) → Regex
capitals_word first = at_least 2 (one_of first) ~ maybe (char b'-' ~ at_least 2 (one_of first))

-- [A]+(?:-[A]+)?
abbrev any_word : (ℕ → Bool) → Regex
any_word letter = one_or_more (one_of letter) ~ maybe (char b'-' ~ one_or_more (one_of letter))

module _ (u : Chars) where
  -- `least` to `most` more words behind a first one.
  abbrev run_of : ℕ → ℕ → Regex → Regex
  run_of least most name = name ~ between least most (one_or_more (one_of u.is_space) ~ name)

  abbrev pub name_candidate_pattern : Regex
  name_candidate_pattern =
      not_behind (cyrillic_lower or lower or digit)
      ~ run_of 0 3
          (either (title_word cyrillic_upper cyrillic_lower) (capitals_word cyrillic_upper))
      ~ not_ahead (cyrillic_lower or lower or digit)

  abbrev pub latin_name_pattern : Regex
  latin_name_pattern =
      not_behind (upper or lower)
      ~ run_of 1 2 (either (title_word upper lower) (capitals_word upper))
      ~ not_ahead (upper or lower)

  -- The two patterns of `_context_name_matches`.
  abbrev pub any_name_pattern : Regex
  any_name_pattern = run_of 1 2 (any_word (cyrillic_upper or cyrillic_lower))

  abbrev pub title_name_pattern : Regex
  title_name_pattern = run_of 1 2 (title_word cyrillic_upper cyrillic_lower)

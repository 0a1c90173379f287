-- ===== src/Detectors.antt =====
-- app/pii.py: the detectors with rules. Each is a function from the text to its list of matches.
--
-- The detectors are those of `default_rule_detectors`: with their default configuration and
-- confidence. A loop over the matches of a pattern is `bind` on what its body appends.
pub mod Sound
pub mod Contacts
pub mod Marked
pub mod Tests
pub mod Rules
pub mod Written
pub mod Passports
pub mod Persons
pub mod Values
pub mod Places
pub mod Dates
pub mod Cards
pub mod Numbers
use privy_gate.Common.{ℕ, List, [], ◌∷◌, none, some, Text, ltb, if◌then◌else◌}
use privy_gate.Regex.{Regex, Match, finditer, bind, slice, group_text}
use privy_gate.Common.Dict
use privy_gate.Common.Dict.{Dict}
use privy_gate.Mask.{PiiMatch}
use privy_gate.Checksums.{number}
use privy_gate.Context.{Platform, ContextConfig, hundredths, context_confidence}

-- PIIMatch(pii_type, text[start:end], start, end, confidence)
abbrev pub span_match : Text → Text → ℕ → ℕ → ℕ → PiiMatch
span_match pii_type text start end confidence = record {
  pii_type = pii_type;
  value = slice start end text;
  start = start;
  end = end;
  confidence = confidence;
}

-- The match of a pattern: `match.group(0)` is the text between its places.
abbrev pub whole_match : Text → Text → ℕ → Match → PiiMatch
whole_match pii_type text confidence m = span_match pii_type text m.start m.end confidence

-- The match of a group of a pattern, which is there where the pattern requires the group.
abbrev pub group_match : Text → Text → ℕ → Text → Match → List PiiMatch
group_match pii_type text confidence name m = elim (Dict.get name m.groups) [
  | none ↦ []
  | some (start, end) ↦ span_match pii_type text start end confidence ∷ []
]

-- int(match.group(name)), of a group of digits that the pattern requires.
abbrev pub group_number : Text → Text → Match → ℕ
group_number text name m = elim (group_text text name m) [ none ↦ 0 | some s ↦ number 0 s ]

module _ (l : Platform) (pii_type : Text) (config : ContextConfig) (text : Text) where
  -- The match of a pattern with its confidence.
  unfoldable pub scored_match : Match → List PiiMatch
  scored_match m = whole_match pii_type text (context_confidence l text m.start m.end config) m ∷ []

  -- `if confidence < 0.80: continue`
  unfoldable pub strong_match : Match → List PiiMatch
  strong_match m =
      let confidence = context_confidence l text m.start m.end config in
      if ltb confidence (hundredths l 80) then [] else whole_match pii_type text confidence m ∷ []

  abbrev pub scored_matches : Regex → List PiiMatch
  scored_matches r = bind (finditer r text) scored_match

  abbrev pub strong_matches : Regex → List PiiMatch
  strong_matches r = bind (finditer r text) strong_match

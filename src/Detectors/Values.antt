-- ===== src/Detectors/Values.antt =====
-- The values that the detectors of places, citizenships and authorities find.
use privy_gate.Common.{
  ℕ, ◌<◌, refl, List, inl, inr, tests, All, Bool-cases, Option-cases, Text, codes, leb,
}
use privy_gate.Common.Dict.{keys}
use privy_gate.Regex.{Match}
use privy_gate.Regex.Cursors.{All-weaken}
use privy_gate.Mask.{PiiMatch}
use privy_gate.Context.{Platform, ContextConfig, markers}
use privy_gate.Boundaries.Values.{
  IsEnd, HoldsNoSeparator, place_end-IsEnd, citizenship_end-IsEnd, authority_end-IsEnd,
}
use privy_gate.Detectors.Marked.{bind-All}
use privy_gate.Detectors.Sound.{IsSound, AreSound}
use privy_gate.Detectors.Places.{
  birth_place_context, citizenship_context, authority_context, value_match, birth_place_start,
  birth_place_match, detect_birth_place, citizenship_match, word_markers, detect_citizenship,
  authority_match, detect_authority,
}

-- A sound match whose value holds no separator.
abbrev pub IsValue : Text → PiiMatch → Type 0
IsValue text m = IsSound text m × HoldsNoSeparator m.value

module _ (l : Platform) (text : Text) where
  value_match-IsValue :
      (pii_type : Text) (config : ContextConfig) (start end : ℕ)
      → IsEnd text start end
      → All (IsValue text) (value_match l text pii_type config start end)
  unfolding value_match
  value_match-IsValue pii_type config start end e = elim (Bool-cases (leb end start)) [
    | inl none_there ↦ rw (value_match, none_there) tt
    | inr there ↦
        let some_there : start < end = omega tests in
        rw (value_match, there) (((some_there, e.inside some_there, refl), e.clean), tt)
  ]

  birth_place_match-IsValue :
      (phrase : Text) (m : Match) → All (IsValue text) (birth_place_match l text phrase m)
  unfolding birth_place_match
  birth_place_match-IsValue phrase m = elim (Option-cases (birth_place_start l text phrase m)) [
    | inl e ↦ rw (birth_place_match, e) tt
    | inr (start, e) ↦
        rw (birth_place_match, e)
          (value_match-IsValue _ _ start _ (place_end-IsEnd l.chars text start))
  ]

  citizenship_match-IsValue : (m : Match) → All (IsValue text) (citizenship_match l text m)
  unfolding citizenship_match
  citizenship_match-IsValue m =
      value_match-IsValue (codes "CITIZENSHIP") citizenship_context _ _
        (citizenship_end-IsEnd l.chars text _)

  authority_match-IsValue : (m : Match) → All (IsValue text) (authority_match l text m)
  unfolding authority_match
  authority_match-IsValue m =
      value_match-IsValue (codes "PASSPORT_AUTHORITY") authority_context _ _
        (authority_end-IsEnd l.chars text _)

  pub detect_birth_place-IsValue : All (IsValue text) (detect_birth_place l text)
  unfolding detect_birth_place
  detect_birth_place-IsValue =
      bind-All (IsValue text) (keys birth_place_context.positive_context_weights) _ (λ phrase.
        bind-All (IsValue text) (markers l phrase text) (birth_place_match l text phrase)
          (birth_place_match-IsValue phrase))

  pub detect_citizenship-IsValue : All (IsValue text) (detect_citizenship l text)
  unfolding detect_citizenship
  detect_citizenship-IsValue =
      bind-All (IsValue text) (keys citizenship_context.positive_context_weights) _ (λ phrase.
        bind-All (IsValue text) (word_markers l text phrase) (citizenship_match l text)
          citizenship_match-IsValue)

  pub detect_authority-IsValue : All (IsValue text) (detect_authority l text)
  unfolding detect_authority
  detect_authority-IsValue =
      bind-All (IsValue text) (keys authority_context.positive_context_weights) _ (λ phrase.
        bind-All (IsValue text) (markers l phrase text) (authority_match l text)
          authority_match-IsValue)

pub IsValue-AreSound : (text : Text) (ms : List PiiMatch) → All (IsValue text) ms → AreSound text ms
unfolding AreSound
IsValue-AreSound text ms h = All-weaken (IsValue text) (IsSound text) ms h (λ m v. v.0)

-- Each birth place, citizenship and passport authority that is found has a span with a character at
-- least, in the text, holds its part of the text, and has no comma, semicolon, exclamation mark,
-- question mark or line end in it.
pub detect_values-AreValues :
    (l : Platform) (text : Text)
    → All (IsValue text) (detect_birth_place l text)
      × All (IsValue text) (detect_citizenship l text)
      × All (IsValue text) (detect_authority l text)
detect_values-AreValues l text = (
  detect_birth_place-IsValue l text,
  detect_citizenship-IsValue l text,
  detect_authority-IsValue l text,
)

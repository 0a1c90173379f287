-- ===== src/Detectors/Places.antt =====
-- app/pii.py: `BirthPlaceDetector`, `CitizenshipDetector` and `PassportAuthorityDetector`: the
-- value behind a marker.
--
-- The markers are found in the casefolded text, and their places are used in the text itself.
use privy_gate.Common.{
  ℕ, ◌||◌, List, [], ◌∷◌, Option, none, some, Text, codes, text_eq, leb, if◌then◌else◌,
}
use privy_gate.Common.Dict.{keys}
use privy_gate.Regex.{word_boundary, casefold, Match, finditer, bind}
use privy_gate.Regex.Classes.{literal, ◌~◌}
use privy_gate.Mask.{PiiMatch}
use privy_gate.Context.{Platform, ContextConfig, context_config, markers, context_confidence}
use privy_gate.Boundaries.{
  trim_start, place_end, citizenship_end, authority_end, skip_place_markers, skip_to_place,
}
use privy_gate.Detectors.{span_match}

abbrev pub birth_place_context : ContextConfig
birth_place_context = context_config (
    (codes "место рождения", 40)
    ∷ (codes "родился в", 35)
    ∷ (codes "родилась в", 35)
    ∷ (codes "родился в городе", 40)
    ∷ (codes "родилась в городе", 40)
    ∷ (codes "родился", 40)
    ∷ (codes "родилась", 40)
    ∷ [])

abbrev pub citizenship_context : ContextConfig
citizenship_context = context_config (
    (codes "гражданство", 40)
    ∷ (codes "гражданин", 35)
    ∷ (codes "гражданка", 35)
    ∷ (codes "citizenship", 45)
    ∷ (codes "citizen", 40)
    ∷ [])

abbrev pub authority_context : ContextConfig
authority_context = context_config (
    (codes "кем выдан", 40)
    ∷ (codes "выдан", 30)
    ∷ (codes "орган, выдавший", 40)
    ∷ (codes "орган выдавший", 40)
    ∷ (codes "орган выдачи", 40)
    ∷ (codes "выдавший", 35)
    ∷ [])

module _ (l : Platform) (text : Text) where
  -- `if end <= start: continue`, and the match of the value with its confidence.
  unfoldable pub value_match : Text → ContextConfig → ℕ → ℕ → List PiiMatch
  value_match pii_type config start end =
      if leb end start
      then []
      else span_match pii_type text start end (context_confidence l text start end config) ∷ []

  -- Where the value of a marker starts, if it has one.
  unfoldable pub birth_place_start : Text → Match → Option ℕ
  birth_place_start phrase marker =
      let start = skip_place_markers l.chars text (trim_start (codes " \t") text marker.end) in
      if text_eq phrase (codes "родился") || text_eq phrase (codes "родилась")
      then skip_to_place l.chars text start
      else some start

  unfoldable pub birth_place_match : Text → Match → List PiiMatch
  birth_place_match phrase marker = elim (birth_place_start phrase marker) [
    | none ↦ []
    | some start ↦
        value_match (codes "BIRTH_PLACE") birth_place_context start (place_end l.chars text start)
  ]

  unfoldable pub detect_birth_place : List PiiMatch
  detect_birth_place =
      bind (keys birth_place_context.positive_context_weights)
        (λ phrase. bind (markers l phrase text) (birth_place_match phrase))

  unfoldable pub citizenship_match : Match → List PiiMatch
  citizenship_match marker =
      let start = trim_start (codes " \t:;") text marker.end in
      value_match (codes "CITIZENSHIP") citizenship_context start
        (citizenship_end l.chars text start)

  -- The marker as a word of its own.
  abbrev pub word_markers : Text → List Match
  word_markers phrase =
      finditer
        (word_boundary l.chars.is_word
          ~ literal (casefold l.chars phrase)
          ~ word_boundary l.chars.is_word)
        (casefold l.chars text)

  unfoldable pub detect_citizenship : List PiiMatch
  detect_citizenship =
      bind (keys citizenship_context.positive_context_weights)
        (λ phrase. bind (word_markers phrase) citizenship_match)

  unfoldable pub authority_match : Match → List PiiMatch
  authority_match marker =
      let start = trim_start (codes " \t") text marker.end in
      value_match (codes "PASSPORT_AUTHORITY") authority_context start
        (authority_end l.chars text start)

  unfoldable pub detect_authority : List PiiMatch
  detect_authority =
      bind (keys authority_context.positive_context_weights)
        (λ phrase. bind (markers l phrase text) authority_match)

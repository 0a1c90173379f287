-- ===== src/Detectors/Persons.antt =====
-- app/pii.py: `NameDetector`. `none`: it raised, since `index` did not find the name.
use privy_gate.Common.{
  ℕ, ◌+◌, Bool, not, ◌&&◌, List, [], ◌∷◌, ◌++◌, Option, none, some, Text, codes, length, find, any,
  text_eq, leb, min, if◌then◌else◌,
}
use privy_gate.Common.Dict.{Dict}
use privy_gate.Regex.{Regex, casefold, Match, finditer, match_at, bind, whole}
use privy_gate.Regex.Classes.{literal}
use privy_gate.Patterns.Names.{
  name_candidate_pattern, latin_name_pattern, any_name_pattern, title_name_pattern,
}
use privy_gate.Mask.{PiiMatch}
use privy_gate.Context.{Platform, ContextConfig, context_config, hundredths}
use privy_gate.Boundaries.{trim_start}
use privy_gate.Names.{
  NameSets, split, join, is_known_person, is_full_name, has_name_component, spans_of, first_such,
}
use privy_gate.Detectors.{whole_match, strong_match}

abbrev pub latin_context : ContextConfig
latin_context = context_config (
    (codes "name", 45)
    ∷ (codes "full name", 50)
    ∷ (codes "зовут", 40)
    ∷ (codes "фио", 45)
    ∷ (codes "cardholder", 45)
    ∷ (codes "card holder", 45)
    ∷ (codes "держатель", 40)
    ∷ (codes "владелец", 40)
    ∷ [])

-- The weights of `_name_context`.
abbrev pub name_markers : Dict ℕ
name_markers =
    (codes "фио", 99)
    ∷ (codes "зовут", 99)
    ∷ (codes "клиент", 90)
    ∷ (codes "клиента", 90)
    ∷ (codes "профиль", 90)
    ∷ (codes "профиля", 90)
    ∷ (codes "предприниматель", 90)
    ∷ (codes "предпринимателя", 90)
    ∷ (codes "обращение", 85)
    ∷ (codes "обращения", 85)
    ∷ (codes "проверка благонадёжности", 90)
    ∷ (codes "проверка благонадежности", 90)
    ∷ (codes "актуализировать профиль", 90)
    ∷ (codes "история обращения", 85)
    ∷ (codes "заявка на проверку", 90)
    ∷ []

-- The loop over the matches of a pattern, where the body may raise.
abbrev pub gather : List Match → (Match → Option (List PiiMatch)) → Option (List PiiMatch)
gather [] f = some []
gather (m ∷ ms) f =
    let rest = gather ms f in
    elim (f m) [ none ↦ none | some xs ↦ elim rest [ none ↦ none | some ys ↦ some (xs ++ ys) ] ]

abbrev is_one_of : Text → List Text → Bool
is_one_of s = any (λ t. text_eq t s)

module _ (l : Platform) (n : NameSets) (text : Text) where
  -- The span that the two inner loops stop at.
  unfoldable pub name_span : List Text → Option (List Text)
  name_span tokens =
      first_such (λ span. is_full_name l.chars n span && not (is_known_person l.chars (join span)))
        (spans_of 3 tokens ++ spans_of 2 tokens)

  abbrev pub name_at : ℕ → Text → PiiMatch
  name_at offset value = record {
    pii_type = codes "PERSON";
    value = value;
    start = offset;
    end = offset + length value;
    confidence = hundredths l 95;
  }

  -- candidate.start() + candidate.group(0).index(value)
  unfoldable pub placed : Match → Text → Option (List PiiMatch)
  placed candidate value = elim (find value (whole text candidate)) [
    | none ↦ none
    | some i ↦ some (name_at (candidate.start + i) value ∷ [])
  ]

  unfoldable pub candidate_match : Match → Option (List PiiMatch)
  candidate_match candidate = elim (name_span (split l.chars (whole text candidate))) [
    | none ↦ some []
    | some span ↦ placed candidate (join span)
  ]

  unfoldable pub latin_match : Match → List PiiMatch
  latin_match candidate =
      if leb 3 (length (split l.chars (whole text candidate)))
      then whole_match (codes "PERSON") text (hundredths l 95) candidate ∷ []
      else strong_match l (codes "PERSON") latin_context text candidate

  abbrev pub name_pattern_for : Text → Regex
  name_pattern_for marker =
      if is_one_of marker (codes "клиент" ∷ codes "клиента" ∷ codes "зовут" ∷ [])
      then any_name_pattern l.chars
      else title_name_pattern l.chars

  -- Of a match of the pattern behind a marker.
  unfoldable pub named : Text → ℕ → Match → List PiiMatch
  named marker weight m =
      let value = whole text m in
      if is_one_of marker (codes "клиент" ∷ codes "клиента" ∷ [])
        && not (has_name_component l.chars n (split l.chars value))
      then []
      else if is_known_person l.chars value
      then []
      else whole_match (codes "PERSON") text (hundredths l weight) m ∷ []

  -- `match` takes a place behind the end of the text for the end.
  unfoldable pub marker_match : Text → ℕ → Match → List PiiMatch
  marker_match marker weight found =
      let start = trim_start (codes " \t:;—–-") text found.end in
      elim (match_at (name_pattern_for marker) text (min start (length text))) [
        | none ↦ []
        | some m ↦ named marker weight m
      ]

  unfoldable pub context_names : List PiiMatch
  context_names =
      bind name_markers
        (λ p. bind (finditer (literal p.0) (casefold l.chars text)) (marker_match p.0 p.1))

  unfoldable pub detect_name : Option (List PiiMatch)
  detect_name = elim (gather (finditer (name_candidate_pattern l.chars) text) candidate_match) [
    | none ↦ none
    | some found ↦
        some
          (found ++ bind (finditer (latin_name_pattern l.chars) text) latin_match ++ context_names)
  ]

-- ===== src/Detectors/Dates.antt =====
-- app/pii.py: `DateOfBirthDetector` and `PassportIssueDateDetector`.
use privy_gate.Common.{
  refl, Bool, List, [], ◌∷◌, ◌++◌, Option, none, some, inl, inr, Option-cases, Text, codes,
  if◌then◌else◌,
}
use privy_gate.Regex.{Match, finditer, bind}
use privy_gate.Regex.Cursors.{consumes}
use privy_gate.Regex.Places.{IsWithin}
use privy_gate.Patterns.Dates.{
  date_numeric_pattern, date_text_pattern, numeric_day_month_pattern, english_date_pattern,
}
use privy_gate.Mask.{PiiMatch}
use privy_gate.Context.{Platform, ContextConfig, context_config}
use privy_gate.Dates.{Date, parse_numeric, is_text_date, is_day_month, is_english_date}
use privy_gate.Detectors.{group_number, scored_match, strong_match}
use privy_gate.Detectors.Sound.{
  AreSound, nil-AreSound, append-AreSound, if-AreSound, bind-AreSound, scored_match-AreSound,
  strong_match-AreSound,
}

abbrev pub birth_date_context : ContextConfig
birth_date_context =
    let config = context_config (
      (codes "дата рождения", 40)
      ∷ (codes "родился", 35)
      ∷ (codes "родилась", 35)
      ∷ (codes "день рождения", 35)
      ∷ (codes "date of birth", 45)
      ∷ (codes "born on", 40)
      ∷ (codes "born", 35)
      ∷ []) in
    record config {
      negative_context_weights =
          (codes "срок действия", 55) ∷ (codes "действует до", 55) ∷ (codes "истекает", 55) ∷ [];
    }

abbrev pub issue_date_context : ContextConfig
issue_date_context =
    let config = context_config (
      (codes "дата выдачи", 50)
      ∷ (codes "выдан", 45)
      ∷ (codes "выдано", 45)
      ∷ (codes "выдана", 45)
      ∷ []) in
    record config { context_window_chars = 120; distance_decay_power = 50 }

-- `_parse_numeric`
abbrev pub parse_match : Text → Match → Option Date
parse_match text m =
    parse_numeric (group_number text (codes "first") m) (group_number text (codes "second") m)
      (group_number text (codes "third") m)

module _ (l : Platform) (pii_type : Text) (config : ContextConfig) (text : Text) where
  -- Of a match of `DATE_NUMERIC_PATTERN`.
  unfoldable pub numeric_match : Match → List PiiMatch
  numeric_match m = elim (parse_match text m) [
    | none ↦ []
    | some d ↦ scored_match l pii_type config text m
  ]

  -- Of a match of `DATE_TEXT_PATTERN`, for the date of birth and for the date of issue.
  unfoldable pub text_date_match : Match → List PiiMatch
  text_date_match m =
      if is_text_date l.chars text m then scored_match l pii_type config text m else []

  unfoldable pub strong_text_date_match : Match → List PiiMatch
  strong_text_date_match m =
      if is_text_date l.chars text m then strong_match l pii_type config text m else []

  -- Of a match of `NUMERIC_DAY_MONTH_PATTERN`.
  unfoldable pub day_month_match : Match → List PiiMatch
  day_month_match m =
      if is_day_month l.chars text m then strong_match l pii_type config text m else []

  unfoldable pub english_date_match : Match → List PiiMatch
  english_date_match m =
      if is_english_date l.chars text m then strong_match l pii_type config text m else []

  numeric_match-AreSound : (m : Match) → IsWithin text m → AreSound text (numeric_match m)
  unfolding numeric_match
  numeric_match-AreSound m w = elim (Option-cases (parse_match text m)) [
    | inl e ↦ rw (numeric_match, e) (nil-AreSound text)
    | inr (d, e) ↦ rw (numeric_match, e) (scored_match-AreSound text l pii_type config m w)
  ]

  text_date_match-AreSound : (m : Match) → IsWithin text m → AreSound text (text_date_match m)
  unfolding text_date_match
  text_date_match-AreSound m w =
      if-AreSound text _ _ [] (scored_match-AreSound text l pii_type config m w) (nil-AreSound text)

  strong-AreSound :
      (b : Bool) (m : Match)
      → IsWithin text m
      → AreSound text (if b then strong_match l pii_type config text m else [])
  strong-AreSound b m w =
      if-AreSound text b _ [] (strong_match-AreSound text l pii_type config m w) (nil-AreSound text)

  strong_text_date_match-AreSound :
      (m : Match) → IsWithin text m → AreSound text (strong_text_date_match m)
  unfolding strong_text_date_match
  strong_text_date_match-AreSound m w = strong-AreSound _ m w

  day_month_match-AreSound : (m : Match) → IsWithin text m → AreSound text (day_month_match m)
  unfolding day_month_match
  day_month_match-AreSound m w = strong-AreSound _ m w

  english_date_match-AreSound : (m : Match) → IsWithin text m → AreSound text (english_date_match m)
  unfolding english_date_match
  english_date_match-AreSound m w = strong-AreSound _ m w

module _ (l : Platform) (text : Text) where
  unfoldable pub detect_birth_date : List PiiMatch
  detect_birth_date =
      bind (finditer date_numeric_pattern text)
        (numeric_match l (codes "DATE_OF_BIRTH") birth_date_context text)
      ++ bind (finditer (date_text_pattern l.chars) text)
          (text_date_match l (codes "DATE_OF_BIRTH") birth_date_context text)
      ++ bind (finditer (numeric_day_month_pattern l.chars) text)
          (day_month_match l (codes "DATE_OF_BIRTH") birth_date_context text)
      ++ bind (finditer (english_date_pattern l.chars) text)
          (english_date_match l (codes "DATE_OF_BIRTH") birth_date_context text)

  unfoldable pub detect_issue_date : List PiiMatch
  detect_issue_date =
      bind (finditer date_numeric_pattern text)
        (numeric_match l (codes "PASSPORT_ISSUE_DATE") issue_date_context text)
      ++ bind (finditer (date_text_pattern l.chars) text)
          (strong_text_date_match l (codes "PASSPORT_ISSUE_DATE") issue_date_context text)
      ++ bind (finditer (numeric_day_month_pattern l.chars) text)
          (day_month_match l (codes "PASSPORT_ISSUE_DATE") issue_date_context text)

  pub detect_birth_date-AreSound : AreSound text detect_birth_date
  unfolding detect_birth_date consumes
  detect_birth_date-AreSound =
      append-AreSound text _ _
        (append-AreSound text _ _
          (append-AreSound text _ _
            (bind-AreSound text date_numeric_pattern _ refl
              (numeric_match-AreSound l _ birth_date_context text))
            (bind-AreSound text (date_text_pattern l.chars) _ refl
              (text_date_match-AreSound l _ birth_date_context text)))
          (bind-AreSound text (numeric_day_month_pattern l.chars) _ refl
            (day_month_match-AreSound l _ birth_date_context text)))
        (bind-AreSound text (english_date_pattern l.chars) _ refl
          (english_date_match-AreSound l _ birth_date_context text))

  pub detect_issue_date-AreSound : AreSound text detect_issue_date
  unfolding detect_issue_date consumes
  detect_issue_date-AreSound =
      append-AreSound text _ _
        (append-AreSound text _ _
          (bind-AreSound text date_numeric_pattern _ refl
            (numeric_match-AreSound l _ issue_date_context text))
          (bind-AreSound text (date_text_pattern l.chars) _ refl
            (strong_text_date_match-AreSound l _ issue_date_context text)))
        (bind-AreSound text (numeric_day_month_pattern l.chars) _ refl
          (day_month_match-AreSound l _ issue_date_context text))

-- ===== src/Detectors/Passports.antt =====
-- app/pii.py: `PassportDetector`, `PassportUnitCodeDetector` and `DrivingLicenseDetector`.
use privy_gate.Common.{
  refl, Bool, false, ◌||◌, List, [], ◌∷◌, ◌++◌, none, some, Text, codes, text_eq, leb, ◌==◌,
  if◌then◌else◌,
}
use privy_gate.Regex.{Match, finditer, bind, group_text}
use privy_gate.Regex.Cursors.{consumes}
use privy_gate.Regex.Places.{IsWithin, fills, HoldsGroups}
use privy_gate.Patterns.{
  passport_pattern, passport_series_number_pattern, foreign_passport_pattern,
  foreign_alpha_passport_pattern, military_id_pattern, passport_unit_code_pattern,
  driving_license_pattern,
}
use privy_gate.Mask.{PiiMatch}
use privy_gate.Context.{Platform, ContextConfig, context_config, hundredths, context_confidence}
use privy_gate.Detectors.{whole_match, group_match, group_number, scored_matches, strong_matches}
use privy_gate.Detectors.Sound.{
  AreSound, nil-AreSound, append-AreSound, if-AreSound, bind-AreSound, bind_groups-AreSound,
  whole_match-AreSound, group_match-AreSound, scored_match-AreSound, strong_match-AreSound,
}

abbrev pub driving_context : ContextConfig
driving_context = context_config (
    (codes "водительское удостоверение", 99)
    ∷ (codes "водительского удостоверения", 99)
    ∷ (codes "водительские права", 99)
    ∷ (codes "водительских прав", 99)
    ∷ (codes "права", 99)
    ∷ (codes "прав", 99)
    ∷ (codes "удостоверение", 99)
    ∷ (codes "удостоверения", 99)
    ∷ [])

abbrev pub foreign_context : ContextConfig
foreign_context = context_config (
    (codes "загранпаспорт", 99)
    ∷ (codes "загранпаспорта", 99)
    ∷ (codes "passport", 99)
    ∷ (codes "паспорт", 60)
    ∷ (codes "паспорта", 60)
    ∷ (codes "паспорт иностранного гражданина", 99)
    ∷ (codes "паспорт гражданина", 99)
    ∷ (codes "иностранный паспорт", 99)
    ∷ (codes "иностранного паспорта", 99)
    ∷ (codes "военный билет", 99)
    ∷ (codes "военного билета", 99)
    ∷ [])

abbrev pub foreign_alpha_context : ContextConfig
foreign_alpha_context = context_config (
    (codes "паспорт иностранного гражданина", 99)
    ∷ (codes "паспорт гражданина", 99)
    ∷ (codes "иностранный паспорт", 99)
    ∷ (codes "иностранного паспорта", 99)
    ∷ [])

abbrev pub unit_code_context : ContextConfig
unit_code_context = context_config (
    (codes "код подразделения", 40)
    ∷ (codes "код подр", 40)
    ∷ (codes "код подр.", 40)
    ∷ (codes "подразделение", 30)
    ∷ (codes "подр", 30)
    ∷ (codes "подр.", 30)
    ∷ (codes "код", 30)
    ∷ [])

abbrev pub driving_license_context : ContextConfig
driving_license_context =
    let config = context_config (
      (codes "водительское удостоверение", 45)
      ∷ (codes "водительского удостоверения", 45)
      ∷ (codes "водительские права", 45)
      ∷ (codes "водительских прав", 45)
      ∷ (codes "права", 35)
      ∷ (codes "прав", 35)
      ∷ (codes "удостоверение", 35)
      ∷ (codes "удостоверения", 35)
      ∷ (codes "серия и номер", 40)
      ∷ []) in
    record config { context_window_chars = 120; distance_decay_power = 50 }

-- match.group(name) == text
abbrev group_is : Text → Text → Text → Match → Bool
group_is text name s m = elim (group_text text name m) [ none ↦ false | some t ↦ text_eq t s ]

module _ (l : Platform) (text : Text) where
  -- `region == 0 or passport_number == "000000"`
  unfoldable pub is_blank_number : Match → Bool
  is_blank_number m =
      group_number text (codes "region") m == 0 || group_is text (codes "number") (codes "000000") m

  unfoldable pub passport_match : Match → List PiiMatch
  passport_match m =
      if is_blank_number m
      then []
      else let confidence =
          if leb (hundredths l 99) (context_confidence l text m.start m.end driving_context)
          then hundredths l 50
          else hundredths l 99 in
        whole_match (codes "PASSPORT") text confidence m ∷ []

  unfoldable pub foreign_passport_matches : List PiiMatch
  foreign_passport_matches =
      strong_matches l (codes "PASSPORT") foreign_context text foreign_passport_pattern
      ++ strong_matches l (codes "PASSPORT") foreign_alpha_context text
          foreign_alpha_passport_pattern
      ++ strong_matches l (codes "PASSPORT") foreign_context text military_id_pattern

  unfoldable pub series_number_match : Match → List PiiMatch
  series_number_match m =
      if is_blank_number m
      then []
      else group_match (codes "PASSPORT") text (hundredths l 99) (codes "series") m
        ++ group_match (codes "PASSPORT") text (hundredths l 99) (codes "number") m

  unfoldable pub detect_passport : List PiiMatch
  detect_passport =
      bind (finditer passport_pattern text) passport_match
      ++ foreign_passport_matches
      ++ bind (finditer (passport_series_number_pattern l.chars) text) series_number_match

  unfoldable pub detect_unit_code : List PiiMatch
  detect_unit_code =
      scored_matches l (codes "PASSPORT_UNIT_CODE") unit_code_context text
        passport_unit_code_pattern

  unfoldable pub detect_driving_license : List PiiMatch
  detect_driving_license =
      scored_matches l (codes "DRIVING_LICENSE") driving_license_context text
        driving_license_pattern

  passport_match-AreSound : (m : Match) → IsWithin text m → AreSound text (passport_match m)
  unfolding passport_match
  passport_match-AreSound m w =
      if-AreSound text _ [] _ (nil-AreSound text)
        (whole_match-AreSound text (codes "PASSPORT") _ m w)

  foreign_passport_matches-AreSound : AreSound text foreign_passport_matches
  unfolding foreign_passport_matches consumes
  foreign_passport_matches-AreSound =
      append-AreSound text _ _
        (append-AreSound text _ _
          (bind-AreSound text foreign_passport_pattern _ refl
            (strong_match-AreSound text l (codes "PASSPORT") foreign_context))
          (bind-AreSound text foreign_alpha_passport_pattern _ refl
            (strong_match-AreSound text l (codes "PASSPORT") foreign_alpha_context)))
        (bind-AreSound text military_id_pattern _ refl
          (strong_match-AreSound text l (codes "PASSPORT") foreign_context))

  series_number_match-AreSound :
      (m : Match) → IsWithin text m → HoldsGroups m → AreSound text (series_number_match m)
  unfolding series_number_match
  series_number_match-AreSound m w g = if-AreSound text _ [] _ (nil-AreSound text) (
      append-AreSound text _ _
        (group_match-AreSound text (codes "PASSPORT") _ (codes "series") m w g)
        (group_match-AreSound text (codes "PASSPORT") _ (codes "number") m w g))

  pub detect_passport-AreSound : AreSound text detect_passport
  unfolding detect_passport consumes fills
  detect_passport-AreSound =
      append-AreSound text _ _
        (append-AreSound text _ _
          (bind-AreSound text passport_pattern _ refl passport_match-AreSound)
          foreign_passport_matches-AreSound)
        (bind_groups-AreSound text (passport_series_number_pattern l.chars) _ refl refl
          series_number_match-AreSound)

  pub detect_unit_code-AreSound : AreSound text detect_unit_code
  unfolding detect_unit_code consumes
  detect_unit_code-AreSound =
      bind-AreSound text passport_unit_code_pattern _ refl
        (scored_match-AreSound text l (codes "PASSPORT_UNIT_CODE") unit_code_context)

  pub detect_driving_license-AreSound : AreSound text detect_driving_license
  unfolding detect_driving_license consumes
  detect_driving_license-AreSound =
      bind-AreSound text driving_license_pattern _ refl
        (scored_match-AreSound text l (codes "DRIVING_LICENSE") driving_license_context)

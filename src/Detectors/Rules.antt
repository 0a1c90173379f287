-- ===== src/Detectors/Rules.antt =====
-- app/pii.py: `default_rule_detectors`, and what the detectors with rules give to the masker.
--
-- `AddressDetector`, whose code is app/address_detector.py, is the argument `address`: any
-- detector stands for it.
use privy_gate.Common.{
  ◌≡◌, ◌<◌, sym, ap, ◌∙◌, Bool, true, inl, inr, arith, List, [], ◌∷◌, ◌++◌, some, Option-cases, All,
  Text,
}
use privy_gate.Regex.Cursors.{All-weaken}
use privy_gate.Demask.{demask}
use privy_gate.Demask.Scan.{is_separate}
use privy_gate.Common.Dict.{keys}
use privy_gate.Mask.{
  PiiMatch, Detector, MaskerConfig, Masker, new_masker, typed_placeholder, rule_candidates,
  ml_candidates, chosen, mask_chosen, mask,
}
use privy_gate.Mask.Overlap.{Spans}
use privy_gate.Mask.Splice.{HoldsSlices, PlainOutside}
use privy_gate.Mask.Unmask.{demask-mask}
use privy_gate.Context.{Platform}
use privy_gate.Names.{NameSets}
use privy_gate.Detectors.Sound.{IsSound, AreSound, nil-AreSound, append-AreSound}
use privy_gate.Detectors.Contacts.{
  detect_email, detect_phone, detect_email-AreSound, detect_phone-AreSound,
}
use privy_gate.Detectors.Passports.{
  detect_passport, detect_unit_code, detect_driving_license, detect_passport-AreSound,
  detect_unit_code-AreSound, detect_driving_license-AreSound,
}
use privy_gate.Detectors.Numbers.{
  detect_snils, detect_inn, detect_kpp, detect_ogrn, detect_card, detect_snils-AreSound,
  detect_inn-AreSound, detect_kpp-AreSound, detect_ogrn-AreSound, detect_card-AreSound,
}
use privy_gate.Detectors.Dates.{
  detect_birth_date, detect_issue_date, detect_birth_date-AreSound, detect_issue_date-AreSound,
}
use privy_gate.Detectors.Places.{detect_birth_place, detect_citizenship, detect_authority}
use privy_gate.Detectors.Values.{
  detect_birth_place-IsValue, detect_citizenship-IsValue, detect_authority-IsValue,
  IsValue-AreSound,
}
use privy_gate.Detectors.Cards.{
  detect_cvv, detect_pin, detect_card_holder, detect_cvv-AreSound, detect_pin-AreSound,
  detect_card_holder-AreSound,
}
use privy_gate.Detectors.Persons.{detect_name}
use privy_gate.Detectors.Written.{detect_name-AreSound}

-- A detector that does not raise.
abbrev always : (Text → List PiiMatch) → Detector
always detect text = some (detect text)

unfoldable pub default_rule_detectors : Platform → NameSets → Detector → Bool → List Detector
default_rule_detectors l n address require_card_for_pin =
    always (detect_email l)
    ∷ always (detect_phone l)
    ∷ always (detect_passport l)
    ∷ always (detect_snils l)
    ∷ always (detect_inn l)
    ∷ always (detect_kpp l)
    ∷ always (detect_ogrn l)
    ∷ always (detect_card l)
    ∷ always (detect_birth_date l)
    ∷ always (detect_birth_place l)
    ∷ always (detect_citizenship l)
    ∷ always (detect_authority l)
    ∷ always (detect_unit_code l)
    ∷ always (detect_issue_date l)
    ∷ always (detect_driving_license l)
    ∷ address
    ∷ always (detect_cvv l)
    ∷ always (λ text. detect_pin l text require_card_for_pin)
    ∷ always (detect_card_holder l)
    ∷ detect_name l n
    ∷ []

-- On a text, the matches of the detector are sound, unless it raises.
abbrev pub IsSoundOn : Text → Detector → Type 0
IsSoundOn text detect = (ms : List PiiMatch) → detect text ≡ some ms → AreSound text ms

pub always-IsSoundOn :
    (detect : Text → List PiiMatch) (text : Text)
    → ((s : Text) → AreSound s (detect s))
    → IsSoundOn text (always detect)
always-IsSoundOn detect text h ms e =
    let same : detect text ≡ ms = ground arith in rw (← same) (h text)

module _ (text : Text) where
  pub default_rule_detectors-IsSoundOn :
      (l : Platform) (n : NameSets) (address : Detector) (require_card : Bool)
      → IsSoundOn text address
      → All (IsSoundOn text) (default_rule_detectors l n address require_card)
  unfolding default_rule_detectors
  default_rule_detectors-IsSoundOn l n address require_card h = (
    always-IsSoundOn _ text (detect_email-AreSound l),
    (
      always-IsSoundOn _ text (detect_phone-AreSound l),
      (
        always-IsSoundOn _ text (detect_passport-AreSound l),
        (
          always-IsSoundOn _ text (detect_snils-AreSound l),
          (
            always-IsSoundOn _ text (detect_inn-AreSound l),
            (
              always-IsSoundOn _ text (detect_kpp-AreSound l),
              (
                always-IsSoundOn _ text (detect_ogrn-AreSound l),
                (
                  always-IsSoundOn _ text (detect_card-AreSound l),
                  (
                    always-IsSoundOn _ text (detect_birth_date-AreSound l),
                    (
                      always-IsSoundOn _ text
                          (λ s. IsValue-AreSound s _ (detect_birth_place-IsValue l s)),
                      (
                        always-IsSoundOn _ text
                            (λ s. IsValue-AreSound s _ (detect_citizenship-IsValue l s)),
                        (
                          always-IsSoundOn _ text
                              (λ s. IsValue-AreSound s _ (detect_authority-IsValue l s)),
                          (
                            always-IsSoundOn _ text (detect_unit_code-AreSound l),
                            (
                              always-IsSoundOn _ text (detect_issue_date-AreSound l),
                              (
                                always-IsSoundOn _ text (detect_driving_license-AreSound l),
                                (
                                  h,
                                  (
                                    always-IsSoundOn _ text (detect_cvv-AreSound l),
                                    (
                                      always-IsSoundOn _ text
                                          (λ s. detect_pin-AreSound l s require_card),
                                      (
                                        always-IsSoundOn _ text (detect_card_holder-AreSound l),
                                        (λ ms e. detect_name-AreSound l n text ms e, tt),
                                      ),
                                    ),
                                  ),
                                ),
                              ),
                            ),
                          ),
                        ),
                      ),
                    ),
                  ),
                ),
              ),
            ),
          ),
        ),
      ),
    ),
  )

  module _ (c : MaskerConfig) where
    pub rule_candidates-AreSound :
        (ds : List Detector) (ms : List PiiMatch)
        → All (IsSoundOn text) ds
        → rule_candidates c text ds ≡ some ms
        → AreSound text ms
    unfolding rule_candidates
    rule_candidates-AreSound [] ms h e =
        let same : [] ≡ ms = ground arith in rw (← same) (nil-AreSound text)
    rule_candidates-AreSound (d ∷ ds) ms h e = elim (Option-cases (d text)) [
      | inl raised ↦ absurd (ground arith)
      | inr (xs, found) ↦ elim (Option-cases (rule_candidates c text ds)) [
        | inl later ↦ absurd (ground arith)
        | inr (ys, more) ↦
            let same : xs ++ ys ≡ ms = ground arith in
            rw (← same)
              (append-AreSound text xs ys (h.0 xs found) (rule_candidates-AreSound ds ys h.1 more))
      ]
    ]

  AreSound-Spans : (ms : List PiiMatch) → AreSound text ms → Spans ms × HoldsSlices text ms
  unfolding AreSound
  AreSound-Spans ms h = (
    All-weaken (IsSound text) (λ m. m.start < m.end) ms h (λ m s. s.0),
    All-weaken (IsSound text) _ ms h (λ m s. s.2),
  )

  -- With typed placeholders and the default detectors with rules, where none of them raises, and
  -- where the matches of the ML detectors and of the address detector have a span in the text and
  -- hold their part of it, the text has no underscore outside the chosen matches and no placeholder
  -- that was given out stands inside another: `mask` with a new masker returns, and demasking the
  -- masked text with the masker's mapping returns the text.
  pub default_rule_detectors-demask :
      (l : Platform) (n : NameSets) (address : Detector) (require_card : Bool) (c : MaskerConfig)
      (given found : List PiiMatch)
      → let candidates : List PiiMatch = given ++ found in
        let r : Text × Masker = mask_chosen c text (chosen c candidates) new_masker in
        c.detectors ≡ default_rule_detectors l n address require_card
        → c.masking_mode ≡ typed_placeholder
        → IsSoundOn text address
        → rule_candidates c text c.detectors ≡ some given
        → ml_candidates c text c.ml_detectors ≡ some found
        → AreSound text found
        → PlainOutside text 0 (chosen c candidates)
        → is_separate (keys r.1.mapping) ≡ true
        → (mask c text new_masker ≡ some r) × (demask r.0 r.1.mapping ≡ some text)
  default_rule_detectors-demask l n address require_card c given found default typed address_sound
        rules ml found_sound plain sep =
      let given_sound =
        rule_candidates-AreSound c (default_rule_detectors l n address require_card) given
          (default_rule_detectors-IsSoundOn l n address require_card address_sound)
          (ap (rule_candidates c text) (sym default) ∙ rules) in
      let (spans, held) =
        AreSound-Spans (given ++ found)
          (append-AreSound text given found given_sound found_sound) in
      demask-mask c typed text given found rules ml spans held plain sep

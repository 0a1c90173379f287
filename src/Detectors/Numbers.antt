-- ===== src/Detectors/Numbers.antt =====
-- app/pii.py: `SNILSDetector`, `INNDetector`, `KPPDetector`, `OGRNDetector` and `CardDetector`.
use privy_gate.Common.{refl, List, [], ◌∷◌, ◌++◌, Text, codes, if◌then◌else◌}
use privy_gate.Regex.{Match, finditer, bind, whole}
use privy_gate.Regex.Cursors.{consumes}
use privy_gate.Regex.Places.{IsWithin}
use privy_gate.Patterns.{
  snils_pattern, inn_pattern, inn_13_pattern, kpp_pattern, ogrn_pattern, card_pattern,
}
use privy_gate.Mask.{PiiMatch}
use privy_gate.Checksums.{
  digits_of, snils_checksum, inn_checksum, passes_luhn, is_sequential_digits,
}
use privy_gate.Context.{Platform, ContextConfig, context_config, hundredths}
use privy_gate.Detectors.{whole_match, strong_match, strong_matches}
use privy_gate.Detectors.Sound.{
  AreSound, nil-AreSound, append-AreSound, if-AreSound, bind-AreSound, whole_match-AreSound,
  strong_match-AreSound,
}

abbrev pub inn_context : ContextConfig
inn_context = context_config ((codes "инн", 45) ∷ (codes "налоговый номер", 45) ∷ [])

abbrev pub kpp_context : ContextConfig
kpp_context = context_config ((codes "кпп", 45) ∷ (codes "кпп ", 45) ∷ [])

abbrev pub ogrn_context : ContextConfig
ogrn_context = context_config ((codes "огрн", 45) ∷ (codes "огрнип", 45) ∷ [])

abbrev pub card_context : ContextConfig
card_context = context_config (
    (codes "карта", 45) ∷ (codes "карты", 45) ∷ (codes "номер карты", 45) ∷ (codes "card", 45) ∷ [])

module _ (l : Platform) (text : Text) where
  unfoldable pub snils_match : Match → List PiiMatch
  snils_match m =
      if snils_checksum (digits_of (whole text m))
      then whole_match (codes "SNILS") text (hundredths l 100) m ∷ []
      else []

  unfoldable pub detect_snils : List PiiMatch
  detect_snils = bind (finditer snils_pattern text) snils_match

  unfoldable pub inn_match : Match → List PiiMatch
  inn_match m =
      if inn_checksum (whole text m)
      then whole_match (codes "INN") text (hundredths l 100) m ∷ []
      else strong_match l (codes "INN") inn_context text m

  unfoldable pub detect_inn : List PiiMatch
  detect_inn =
      bind (finditer inn_pattern text) inn_match
      ++ strong_matches l (codes "INN") inn_context text inn_13_pattern

  unfoldable pub detect_kpp : List PiiMatch
  detect_kpp = strong_matches l (codes "KPP") kpp_context text kpp_pattern

  unfoldable pub detect_ogrn : List PiiMatch
  detect_ogrn = strong_matches l (codes "OGRN") ogrn_context text ogrn_pattern

  unfoldable pub card_match : Match → List PiiMatch
  card_match m =
      if passes_luhn (digits_of (whole text m))
      then whole_match (codes "CARD") text (hundredths l 100) m ∷ []
      else if is_sequential_digits (digits_of (whole text m))
      then []
      else strong_match l (codes "CARD") card_context text m

  unfoldable pub detect_card : List PiiMatch
  detect_card = bind (finditer card_pattern text) card_match

  snils_match-AreSound : (m : Match) → IsWithin text m → AreSound text (snils_match m)
  unfolding snils_match
  snils_match-AreSound m w =
      if-AreSound text _ _ [] (whole_match-AreSound text (codes "SNILS") _ m w) (nil-AreSound text)

  pub detect_snils-AreSound : AreSound text detect_snils
  unfolding detect_snils consumes
  detect_snils-AreSound = bind-AreSound text snils_pattern _ refl snils_match-AreSound

  inn_match-AreSound : (m : Match) → IsWithin text m → AreSound text (inn_match m)
  unfolding inn_match
  inn_match-AreSound m w =
      if-AreSound text _ _ _ (whole_match-AreSound text (codes "INN") _ m w)
        (strong_match-AreSound text l (codes "INN") inn_context m w)

  pub detect_inn-AreSound : AreSound text detect_inn
  unfolding detect_inn consumes
  detect_inn-AreSound =
      append-AreSound text _ _ (bind-AreSound text inn_pattern _ refl inn_match-AreSound) (
        bind-AreSound text inn_13_pattern _ refl
          (strong_match-AreSound text l (codes "INN") inn_context))

  pub detect_kpp-AreSound : AreSound text detect_kpp
  unfolding detect_kpp consumes
  detect_kpp-AreSound =
      bind-AreSound text kpp_pattern _ refl (strong_match-AreSound text l (codes "KPP") kpp_context)

  pub detect_ogrn-AreSound : AreSound text detect_ogrn
  unfolding detect_ogrn consumes
  detect_ogrn-AreSound =
      bind-AreSound text ogrn_pattern _ refl
        (strong_match-AreSound text l (codes "OGRN") ogrn_context)

  card_match-AreSound : (m : Match) → IsWithin text m → AreSound text (card_match m)
  unfolding card_match
  card_match-AreSound m w =
      if-AreSound text _ _ _ (whole_match-AreSound text (codes "CARD") _ m w) (
        if-AreSound text _ [] _ (nil-AreSound text)
          (strong_match-AreSound text l (codes "CARD") card_context m w))

  pub detect_card-AreSound : AreSound text detect_card
  unfolding detect_card consumes
  detect_card-AreSound = bind-AreSound text card_pattern _ refl card_match-AreSound

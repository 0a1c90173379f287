-- ===== src/Detectors/Cards.antt =====
-- app/pii.py: `CVVDetector`, `PinCodeDetector` and `CardHolderDetector`.
use privy_gate.Common.{
  ℕ, refl, Bool, not, ◌&&◌, ◌||◌, List, [], ◌∷◌, Text, codes, any, leb, min, if◌then◌else◌,
}
use privy_gate.Regex.{Match, finditer, bind, whole}
use privy_gate.Regex.Cursors.{consumes}
use privy_gate.Patterns.{card_pattern, cvv_pattern, pin_pattern, card_holder_pattern}
use privy_gate.Mask.{PiiMatch}
use privy_gate.Checksums.{digits_of, passes_luhn}
use privy_gate.Context.{Platform, ContextConfig, context_config, hundredths, context_confidence}
use privy_gate.Detectors.{whole_match, scored_matches}
use privy_gate.Detectors.Sound.{
  AreSound, bind-AreSound, whole_match-AreSound, scored_match-AreSound,
}
use privy_gate.Detectors.Numbers.{card_context}

abbrev pub cvv_context : ContextConfig
cvv_context =
    context_config ((codes "cvv", 45) ∷ (codes "cvc", 45) ∷ (codes "код безопасности", 40) ∷ [])

abbrev pub pin_context : ContextConfig
pin_context =
    context_config
      ((codes "пин", 45) ∷ (codes "пин-код", 45) ∷ (codes "пин код", 45) ∷ (codes "pin", 45) ∷ [])

abbrev pub card_holder_context : ContextConfig
card_holder_context = context_config (
    (codes "cardholder", 45)
    ∷ (codes "card holder", 45)
    ∷ (codes "держатель карты", 40)
    ∷ (codes "имя держателя", 40)
    ∷ [])

module _ (l : Platform) (text : Text) where
  unfoldable pub detect_cvv : List PiiMatch
  detect_cvv = scored_matches l (codes "CVV") cvv_context text cvv_pattern

  unfoldable pub has_card : Bool
  has_card =
      any (λ m. passes_luhn (digits_of (whole text m))) (finditer card_pattern text)
      || any (λ m. leb (hundredths l 80) (context_confidence l text m.start m.end card_context))
          (finditer card_pattern text)

  unfoldable pub pin_confidence : Bool → Match → ℕ
  pin_confidence require_card m =
      let confidence = context_confidence l text m.start m.end pin_context in
      if require_card && not has_card then min confidence (hundredths l 50) else confidence

  unfoldable pub detect_pin : Bool → List PiiMatch
  detect_pin require_card =
      bind (finditer pin_pattern text)
        (λ m. whole_match (codes "PIN") text (pin_confidence require_card m) m ∷ [])

  unfoldable pub detect_card_holder : List PiiMatch
  detect_card_holder =
      scored_matches l (codes "CARD_HOLDER") card_holder_context text card_holder_pattern

  pub detect_cvv-AreSound : AreSound text detect_cvv
  unfolding detect_cvv consumes
  detect_cvv-AreSound =
      bind-AreSound text cvv_pattern _ refl (scored_match-AreSound text l (codes "CVV") cvv_context)

  pub detect_pin-AreSound : (require_card : Bool) → AreSound text (detect_pin require_card)
  unfolding detect_pin consumes
  detect_pin-AreSound require_card =
      bind-AreSound text pin_pattern _ refl (λ m w. whole_match-AreSound text (codes "PIN") _ m w)

  pub detect_card_holder-AreSound : AreSound text detect_card_holder
  unfolding detect_card_holder consumes
  detect_card_holder-AreSound =
      bind-AreSound text card_holder_pattern _ refl
        (scored_match-AreSound text l (codes "CARD_HOLDER") card_holder_context)

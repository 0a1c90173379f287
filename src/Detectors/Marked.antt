-- ===== src/Detectors/Marked.antt =====
-- The matches of the detectors of numbers: their checksums, and the markers beside them.
use privy_gate.Common.{
  ℕ, ◌≤◌, ◌<◌, ◌≡◌, refl, Bool, true, false, ◌⊎◌, inl, inr, arith, tests, List, [], ◌∷◌, All,
  All-append, In, Text, codes, any, leb, Bool-cases, ltb, if◌then◌else◌,
}
use privy_gate.Regex.{Match, finditer, bind, whole}
use privy_gate.Patterns.{card_pattern, pin_pattern, ogrn_pattern, kpp_pattern}
use privy_gate.Mask.{PiiMatch}
use privy_gate.Checksums.{digits_of, passes_luhn, is_sequential_digits}
use privy_gate.Context.{
  Platform, ContextConfig, boundary_multiplier, markers, hundredths, context_confidence,
}
use privy_gate.Context.Marks.{IsNear, context_confidence-marked}
use privy_gate.Detectors.{whole_match, strong_match}
use privy_gate.Detectors.Numbers.{
  kpp_context, ogrn_context, card_context, card_match, detect_card, detect_kpp, detect_ogrn,
}
use privy_gate.Detectors.Cards.{has_card, pin_confidence, detect_pin}

module _ {A B : Type 0} (P : B → Type 0) where
  pub bind-All : (xs : List A) (f : A → List B) → ((x : A) → All P (f x)) → All P (bind xs f)
  bind-All [] f h = tt
  bind-All (x ∷ xs) f h = All-append P (f x) (bind xs f) (h x) (bind-All xs f h)

module _ {B : Type 0} (P : B → Type 0) where
  if-All :
      (b : Bool) (xs ys : List B)
      → (b ≡ true → All P xs)
      → (b ≡ false → All P ys)
      → All P (if b then xs else ys)
  if-All true xs ys p q = p refl
  if-All false xs ys p q = q refl

module _ (l : Platform) (text : Text) where
  -- A phrase of the configuration has a marker in the text that stands beside the match, within the
  -- window and with no hard boundary between.
  abbrev pub IsMarked : ContextConfig → PiiMatch → Type 0
  IsMarked config m =
      (phrase : Text) × (weight : ℕ) × (marker : Match) × In (phrase, weight)
        config.positive_context_weights
      × In marker (markers l phrase text)
      × IsNear config.context_window_chars (boundary_multiplier l.chars config) text m.start m.end
          marker

  strong_match-All :
      (P : PiiMatch → Type 0) (pii_type : Text) (config : ContextConfig) (m : Match)
      → hundredths l config.weak_confidence < hundredths l 80
      → ((confidence : ℕ)
          → IsMarked config (whole_match pii_type text confidence m)
          → P (whole_match pii_type text confidence m))
      → All P (strong_match l pii_type config text m)
  unfolding strong_match
  strong_match-All P pii_type config m weak h =
      let confidence = context_confidence l text m.start m.end config in
      if-All P (ltb confidence (hundredths l 80)) [] (whole_match pii_type text confidence m ∷ [])
        (λ e. tt)
        (λ e.
          (h confidence (context_confidence-marked l text m.start m.end config (omega tests)), tt))

  -- If a unit is not zero, each KPP and each OGRN that is found has a marker beside it.
  pub detect_codes-IsMarked :
      0 < l.hundredth
      → All (IsMarked kpp_context) (detect_kpp l text)
        × All (IsMarked ogrn_context) (detect_ogrn l text)
  unfolding detect_kpp detect_ogrn
  detect_codes-IsMarked unit = (
    bind-All (IsMarked kpp_context) (finditer kpp_pattern text) _ (λ m.
        strong_match-All (IsMarked kpp_context) (codes "KPP") kpp_context m (omega arith)
          (λ n k. k)),
    bind-All (IsMarked ogrn_context) (finditer ogrn_pattern text) _ (λ m.
        strong_match-All (IsMarked ogrn_context) (codes "OGRN") ogrn_context m (omega arith)
          (λ n k. k)),
  )

  -- A card number by its checksum, or by a marker beside it when its digits are not in a row.
  abbrev pub IsCard : PiiMatch → Type 0
  IsCard m =
      (passes_luhn (digits_of m.value) ≡ true)
      ⊎ ((is_sequential_digits (digits_of m.value) ≡ false) × IsMarked card_context m)

  card_match-IsCard : (m : Match) → 0 < l.hundredth → All IsCard (card_match l text m)
  unfolding card_match
  card_match-IsCard m unit =
      let found = strong_match l (codes "CARD") card_context text m in
      let in_row = is_sequential_digits (digits_of (whole text m)) in
      if-All IsCard (passes_luhn (digits_of (whole text m)))
        (whole_match (codes "CARD") text (hundredths l 100) m ∷ []) (if in_row then [] else found)
        (λ e. (inl e, tt))
        (λ e.
          if-All IsCard in_row [] found (λ e. tt)
            (λ apart.
              strong_match-All IsCard (codes "CARD") card_context m (omega arith)
                (λ n k. inr (apart, k))))

  -- If a unit is not zero, each card number that is found passes the Luhn checksum, or its digits
  -- are not in a row and it has a marker beside it.
  pub detect_card-IsCard : 0 < l.hundredth → All IsCard (detect_card l text)
  unfolding detect_card
  detect_card-IsCard unit =
      bind-All IsCard (finditer card_pattern text) _ (λ m. card_match-IsCard m unit)

  -- What tells that a match of the card pattern is a card.
  abbrev pub ShowsCard : Match → Type 0
  ShowsCard k =
      (passes_luhn (digits_of (whole text k)) ≡ true)
      ⊎ IsMarked card_context (whole_match (codes "CARD") text 0 k)

  context_confidence-card-IsMarked :
      (k : Match)
      → 0 < l.hundredth
      → leb (hundredths l 80) (context_confidence l text k.start k.end card_context) ≡ true
      → IsMarked card_context (whole_match (codes "CARD") text 0 k)
  context_confidence-card-IsMarked k unit h =
      context_confidence-marked l text k.start k.end card_context (omega tests)

  ShowsCard-of_luhn :
      (ks : List Match)
      → any (λ k. passes_luhn (digits_of (whole text k))) ks ≡ true
      → (k : Match) × In k ks × ShowsCard k
  ShowsCard-of_luhn [] h = absurd (ground arith)
  ShowsCard-of_luhn (k ∷ ks) h = elim (Bool-cases (passes_luhn (digits_of (whole text k)))) [
    | inl passes ↦ (k, inl refl, inl passes)
    | inr no_luhn ↦ let (j, i, v) = ShowsCard-of_luhn ks (ground arith) in (j, inr i, v)
  ]

  ShowsCard-of_marker :
      (ks : List Match)
      → 0 < l.hundredth
      → any (λ k. leb (hundredths l 80) (context_confidence l text k.start k.end card_context)) ks
        ≡ true
      → (k : Match) × In k ks × ShowsCard k
  ShowsCard-of_marker [] unit h = absurd (ground arith)
  ShowsCard-of_marker (k ∷ ks) unit h =
      elim (Bool-cases
        (leb (hundredths l 80) (context_confidence l text k.start k.end card_context))) [
          | inl marked ↦ (k, inl refl, inr (context_confidence-card-IsMarked k unit marked))
          | inr unmarked ↦
              let (j, i, v) = ShowsCard-of_marker ks unit (ground arith) in (j, inr i, v)
        ]

  no_luhn :
      (ks : List Match)
      → any (λ k. passes_luhn (digits_of (whole text k))) ks ≡ false
      → All (λ k. passes_luhn (digits_of (whole text k)) ≡ false) ks
  no_luhn [] h = tt
  no_luhn (k ∷ ks) h = (ground arith, no_luhn ks (ground arith))

  pin_confidence-no_card :
      (m : Match) → has_card l text ≡ false → pin_confidence l text true m ≤ hundredths l 50
  unfolding pin_confidence
  pin_confidence-no_card m h = ground arith

  detect_pin-no_card :
      has_card l text ≡ false → All (λ m. m.confidence ≤ hundredths l 50) (detect_pin l text true)
  unfolding detect_pin
  detect_pin-no_card h =
      bind-All (λ m. m.confidence ≤ hundredths l 50) (finditer pin_pattern text) _
        (λ m. (pin_confidence-no_card m h, tt))

  detect_pin-has_card : has_card l text ≡ true → detect_pin l text true ≡ detect_pin l text false
  unfolding detect_pin pin_confidence
  detect_pin-has_card h = rw h refl

  -- If a unit is not zero: either the text has a match of the card pattern that passes the Luhn
  -- checksum or has a card's marker beside it, and the rule for PINs changes nothing in what is
  -- found; or every match of the card pattern fails the checksum, and with the rule no PIN has a
  -- confidence above 0.50.
  pub detect_pin-ShowsCard :
      0 < l.hundredth
      → ((k : Match) × In k (finditer card_pattern text)
          × ShowsCard k
          × (detect_pin l text true ≡ detect_pin l text false))
        ⊎ (All (λ k. passes_luhn (digits_of (whole text k)) ≡ false) (finditer card_pattern text)
            × All (λ m. m.confidence ≤ hundredths l 50) (detect_pin l text true))
  unfolding has_card
  detect_pin-ShowsCard unit =
      let ks = finditer card_pattern text in
      elim (Bool-cases (any (λ k. passes_luhn (digits_of (whole text k))) ks)) [
        | inl luhn ↦
            let (k, i, v) = ShowsCard-of_luhn ks luhn in
            inl (k, i, v, detect_pin-has_card (ground arith))
        | inr none_passes ↦
            elim (Bool-cases (
              any
                (λ k. leb (hundredths l 80) (context_confidence l text k.start k.end card_context))
                ks)) [
                  | inl marked ↦
                      let (k, i, v) = ShowsCard-of_marker ks unit marked in
                      inl (k, i, v, detect_pin-has_card (ground arith))
                  | inr unmarked ↦ inr (no_luhn ks none_passes, detect_pin-no_card (ground arith))
                ]
      ]

-- ===== src/Detectors/Contacts.antt =====
-- app/pii.py: `EmailDetector`, `CustomTermDetector` and `PhoneDetector`.
use privy_gate.Common.{
  ℕ, ◌+◌, ◌-◌, ◌≡◌, refl, Bool, true, false, not, ◌&&◌, List, [], ◌∷◌, ◌++◌, Option, none, some,
  Text, codes, length, map, any, all, arith, inl, inr, Bool-cases, Option-cases, find, starts_with,
  keep_if, min, if◌then◌else◌,
}
use privy_gate.Regex.{Chars, Regex, word_boundary, casefold, Match, finditer, bind, slice, whole}
use privy_gate.Regex.Classes.{literal_ignoring, alternatives, ◌~◌}
use privy_gate.Regex.Cursors.{consumes}
use privy_gate.Regex.Places.{IsWithin}
use privy_gate.Patterns.{
  email_pattern, phone_pattern, ambiguous_phone_pattern, foreign_phone_pattern,
}
use privy_gate.Mask.{PiiMatch}
use privy_gate.Checksums.{digits_of}
use privy_gate.Context.{
  Platform, ContextConfig, context_config, has_boundary, marker_influence, strongest_influence,
  strongest_of, markers, hundredths, bounded,
}
use privy_gate.Detectors.{whole_match, strong_matches}
use privy_gate.Detectors.Sound.{
  AreSound, append-AreSound, nil-AreSound, if-AreSound, bind-AreSound, whole_match-AreSound,
  strong_match-AreSound,
}

unfoldable pub detect_email : Platform → Text → List PiiMatch
detect_email l text =
    bind (finditer (email_pattern l.chars) text)
      (λ m. whole_match (codes "EMAIL") text (hundredths l 100) m ∷ [])

abbrev is_empty : Text → Bool
is_empty [] = true
is_empty (c ∷ s) = false

-- `_pattern` of a `CustomTermDetector`: \b(?:...)\b, where a term is left.
unfoldable pub terms_pattern : Chars → List Text → Option Regex
terms_pattern u terms = elim (keep_if (λ t. not (is_empty t)) terms) [
  | [] ↦ none
  | (t ∷ ts) ↦ some (
      word_boundary u.is_word
      ~ alternatives (map (literal_ignoring u) (t ∷ ts))
      ~ word_boundary u.is_word)
]

unfoldable pub detect_custom_terms : Platform → List Text → Text → List PiiMatch
detect_custom_terms l terms text = elim (terms_pattern l.chars terms) [
  | none ↦ []
  | some r ↦
      bind (finditer r text) (λ m. whole_match (codes "CUSTOM_TERM") text (hundredths l 100) m ∷ [])
]

-- `PhoneDetectorConfig()`; `strong_confidence` and `weak_confidence` are its
-- `strong_phone_confidence` and `ambiguous_phone_confidence`.
abbrev pub phone_config : ContextConfig
phone_config = record {
  context_window_chars = 48;
  distance_decay_power = 100;
  hard_context_boundaries = codes ",.;!?\n";
  soft_context_boundaries = codes ":—–";
  soft_boundary_multiplier = 75;
  strong_confidence = 99;
  weak_confidence = 55;
  positive_context_weights =
      (codes "телефон", 35)
      ∷ (codes "мобильный", 35)
      ∷ (codes "позвони", 35)
      ∷ (codes "номер телефона", 40)
      ∷ (codes "связаться", 35)
      ∷ [];
  negative_context_weights =
      (codes "заказ", 55)
      ∷ (codes "тикет", 55)
      ∷ (codes "артикул", 55)
      ∷ (codes "договор", 55)
      ∷ [];
}

abbrev pub foreign_phone_context : ContextConfig
foreign_phone_context = context_config (
    (codes "phone", 45)
    ∷ (codes "номер", 35)
    ∷ (codes "тел", 35)
    ∷ (codes "телефон", 35)
    ∷ (codes "мобильный", 35)
    ∷ [])

abbrev pub corporate_markers : List Text
corporate_markers =
    codes "горячая линия"
    ∷ codes "служба поддержки"
    ∷ codes "контактный центр"
    ∷ codes "поддержка"
    ∷ codes "справочная"
    ∷ codes "колл-центр"
    ∷ []

-- marker in window
abbrev is_in : Text → Text → Bool
is_in marker window = elim (find marker window) [ none ↦ false | some i ↦ true ]

unfoldable pub is_corporate : Chars → Text → ℕ → ℕ → Bool
is_corporate u text start end =
    let window = slice (start - 60) (min (length text) (end + 60)) (casefold u text) in
    any (λ marker. is_in marker window) corporate_markers

unfoldable pub is_toll_free : Text → Bool
is_toll_free value = starts_with (codes "8800") (digits_of value)

-- `_boundary_multiplier` of `PhoneDetector`, which knows no abbreviations.
unfoldable pub phone_boundary_multiplier : ContextConfig → Text → ℕ
phone_boundary_multiplier config between =
    if has_boundary config.hard_context_boundaries between
    then 0
    else if has_boundary config.soft_context_boundaries between
    then config.soft_boundary_multiplier
    else 100

module _ (l : Platform) (text : Text) where
  -- `_context_influence` of `PhoneDetector`.
  unfoldable pub phone_influence : Match → Text → ℕ → ℕ
  phone_influence m phrase weight =
      strongest_influence
        (marker_influence
          (λ distance multiplier.
            l.influence weight distance phone_config.context_window_chars
              phone_config.distance_decay_power multiplier)
          phone_config.context_window_chars (phone_boundary_multiplier phone_config) text m.start
          m.end)
        0 (markers l phrase text)

  unfoldable pub ambiguous_match : Match → PiiMatch
  ambiguous_match m =
      whole_match (codes "PHONE") text
        (bounded l (hundredths l phone_config.weak_confidence)
          (strongest_of (phone_influence m) phone_config.positive_context_weights)
          (strongest_of (phone_influence m) phone_config.negative_context_weights))
        m

  unfoldable pub personal_phone : Match → List PiiMatch
  personal_phone m =
      if not (is_toll_free (whole text m)) && not (is_corporate l.chars text m.start m.end)
      then whole_match (codes "PHONE") text (hundredths l phone_config.strong_confidence) m ∷ []
      else []

  unfoldable pub detect_phone : List PiiMatch
  detect_phone =
      bind (finditer (phone_pattern l.chars) text) personal_phone
      ++ bind (finditer ambiguous_phone_pattern text) (λ m. ambiguous_match m ∷ [])
      ++ strong_matches l (codes "PHONE") foreign_phone_context text (foreign_phone_pattern l.chars)

module _ (l : Platform) (text : Text) where
  pub detect_email-AreSound : AreSound text (detect_email l text)
  unfolding detect_email consumes
  detect_email-AreSound =
      bind-AreSound text _ _ refl (λ m w. whole_match-AreSound text (codes "EMAIL") _ m w)

  personal_phone-AreSound : (m : Match) → IsWithin text m → AreSound text (personal_phone l text m)
  unfolding personal_phone
  personal_phone-AreSound m w =
      if-AreSound text _ _ [] (whole_match-AreSound text (codes "PHONE") _ m w) (nil-AreSound text)

  ambiguous_match-AreSound :
      (m : Match) → IsWithin text m → AreSound text (ambiguous_match l text m ∷ [])
  unfolding ambiguous_match
  ambiguous_match-AreSound m w = whole_match-AreSound text (codes "PHONE") _ m w

  pub detect_phone-AreSound : AreSound text (detect_phone l text)
  unfolding detect_phone consumes
  detect_phone-AreSound =
      append-AreSound text _ _
        (append-AreSound text _ _
          (bind-AreSound text (phone_pattern l.chars) _ refl personal_phone-AreSound)
          (bind-AreSound text ambiguous_phone_pattern (λ m. ambiguous_match l text m ∷ []) refl
            ambiguous_match-AreSound))
        (bind-AreSound text (foreign_phone_pattern l.chars) _ refl
          (strong_match-AreSound text l (codes "PHONE") foreign_phone_context))

-- A pattern of terms takes a character with each match, since no term is empty.
alternatives-consumes :
    (u : Chars) (t : Text) (ts : List Text)
    → all (λ t. not (is_empty t)) (t ∷ ts) ≡ true
    → consumes (alternatives (map (literal_ignoring u) (t ∷ ts))) ≡ true
unfolding consumes
alternatives-consumes u [] ts h = absurd (ground arith)
alternatives-consumes u (c ∷ t) [] h = refl
alternatives-consumes u (c ∷ t) (t' ∷ ts) h = alternatives-consumes u t' ts h

all-keep_if : (p : Text → Bool) (ts : List Text) → all p (keep_if p ts) ≡ true
all-keep_if p [] = refl
all-keep_if p (t ∷ ts) = elim (Bool-cases (p t)) [
  | inl kept ↦ let later = all-keep_if p ts in rw kept (ground arith)
  | inr left ↦ rw left (all-keep_if p ts)
]

terms_pattern-consumes :
    (u : Chars) (terms : List Text) {r : Regex} → terms_pattern u terms ≡ some r → consumes r ≡ true
unfolding terms_pattern consumes
terms_pattern-consumes u terms {r} h =
    left (keep_if (λ t. not (is_empty t)) terms) (all-keep_if _ terms) h
  where
    left :
        (ts : List Text)
        → all (λ t. not (is_empty t)) ts ≡ true
        → (elim ts [
          | [] ↦ none
          | (t ∷ ts) ↦ some (
              word_boundary u.is_word
              ~ alternatives (map (literal_ignoring u) (t ∷ ts))
              ~ word_boundary u.is_word)
        ])
          ≡ some r
        → consumes r ≡ true
    left [] a e = absurd (ground arith)
    left (t ∷ ts) a e = let takes = alternatives-consumes u t ts a in ground (arith, takes)

pub detect_custom_terms-AreSound :
    (l : Platform) (terms : List Text) (text : Text)
    → AreSound text (detect_custom_terms l terms text)
unfolding detect_custom_terms
detect_custom_terms-AreSound l terms text = elim (Option-cases (terms_pattern l.chars terms)) [
  | inl none_left ↦ rw (detect_custom_terms, none_left) (nil-AreSound text)
  | inr (r, found) ↦
      rw (detect_custom_terms, found)
        (bind-AreSound text r _ (terms_pattern-consumes l.chars terms found)
          (λ m w. whole_match-AreSound text (codes "CUSTOM_TERM") _ m w))
]

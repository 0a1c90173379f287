-- ===== src/Detectors/Tests.antt =====
-- Tests of the detectors on short texts, with the Latin and Russian letters as the characters.
use privy_gate.Common.{
  ℕ, ◌+◌, ◌-◌, ◌*◌, ◌/◌, ◌≤◌, ◌≡◌, refl, Bool, true, false, arith, List, [], ◌∷◌, none, some, All,
  In, ◌⊎◌, Text, codes, text_eq, print_nat, digits, starts_with, find, insert_by, if◌then◌else◌,
}
use privy_gate.Common.Dict
use privy_gate.Patterns.{card_pattern}
use privy_gate.Regex.{
  Match, whole, Chars, casefold, advance, times, optional, run, find_from, finditer, match_at,
}
use privy_gate.Regex.Classes.{lower, upper, cyrillic_lower, cyrillic_upper, digit, among, ◌or◌}
use privy_gate.Demask.{demask}
use privy_gate.Demask.Scan.{is_separate}
use privy_gate.Mask.{
  PiiMatch, Detector, MaskerConfig, Masker, new_masker, typed_placeholder, fail_closed,
  rule_candidates, ml_candidates, chosen, mask_chosen, mask, resolve_overlapping_matches,
  unique_matches, add_unique, same_key, sort_by, select, is_apart, rank_leb, position_leb,
  is_eligible, is_enabled, splice, placeholder, typed_value,
}
use privy_gate.Checksums.{digits_of, passes_luhn}
use privy_gate.Context.{
  Platform, strip_periods, boundary_multiplier, near_influence, marker_influence,
  strongest_influence, strongest_of, context_influence, context_confidence,
}
use privy_gate.Names.{
  NameSets, split_from, join, is_full, is_surname, spans_of, first_such, is_known_person,
}
use privy_gate.Detectors.{scored_match, strong_match}
use privy_gate.Detectors.Sound.{AreSound}
use privy_gate.Detectors.Contacts.{detect_email, detect_phone}
use privy_gate.Detectors.Numbers.{
  kpp_context, ogrn_context, detect_kpp, detect_ogrn, detect_inn, detect_card, detect_snils,
}
use privy_gate.Detectors.Cards.{
  has_card, pin_confidence, detect_cvv, detect_pin, detect_card_holder,
}
use privy_gate.Detectors.Dates.{detect_birth_date, detect_issue_date}
use privy_gate.Detectors.Places.{
  detect_birth_place, detect_citizenship, detect_authority, value_match, authority_match,
}
use privy_gate.Detectors.Values.{IsValue, detect_values-AreValues}
use privy_gate.Boundaries.{
  authority_end, authority_stops, end_from, trim_from, trim_end, is_abbreviation_continuation,
  past_blanks, is_date_start, is_textual_date_start,
}
use privy_gate.Detectors.Passports.{
  detect_passport, foreign_passport_matches, detect_unit_code, detect_driving_license,
}
use privy_gate.Detectors.Persons.{name_span, placed, candidate_match, context_names, detect_name}
use privy_gate.Detectors.Rules.{default_rule_detectors, IsSoundOn, default_rule_detectors-demask}
use privy_gate.Detectors.Marked.{
  IsMarked, IsCard, detect_codes-IsMarked, detect_card-IsCard, ShowsCard, detect_pin-ShowsCard,
}
use privy_gate.Detectors.Written.{detect_name-returns}
use privy_gate.Detectors.Persons

abbrev russian : ℕ → Bool
russian = cyrillic_lower or cyrillic_upper

abbrev pub chars : Chars
chars = record {
  fold_char = λ c. (if (upper or cyrillic_upper) c then c + 32 else c) ∷ [];
  variants = λ c. if upper c then (c + 32) ∷ [] else if lower c then (c - 32) ∷ [] else [];
  is_alpha = lower or upper or russian;
  is_digit = digit;
  is_space = among (codes " \t\n");
  is_upper = upper or cyrillic_upper;
  is_word = lower or upper or russian or digit;
}

abbrev pub platform : Platform
platform = record {
  chars = chars;
  hundredth = 1;
  influence = λ weight distance window power multiplier. weight * multiplier / 100;
}

abbrev pub names : NameSets
names = record {
  is_first_name = text_eq (codes "иван");
  is_patronymic = λ t. false;
  in_surnames = text_eq (codes "ли");
}

program : Unit {0}
unfolding casefold advance times optional run find_from finditer match_at starts_with find
    strip_periods boundary_multiplier near_influence marker_influence strongest_influence
    strongest_of context_influence context_confidence scored_match strong_match text_eq Dict.get
    detect_email detect_kpp detect_pin pin_confidence has_card passes_luhn digits_of split_from join
    is_full is_surname spans_of first_such is_known_person name_span placed candidate_match
    context_names detect_name Persons.marker_match detect_cvv Persons.latin_match
program = tt

abbrev letter : Text
letter = codes "a@b.ru"

email_run :
    detect_email platform letter
    ≡ record {
      pii_type = codes "EMAIL";
      value = codes "a@b.ru";
      start = 0;
      end = 6;
      confidence = 100;
    }
      ∷ []
unfolding program
email_run = refl

abbrev confidences : List PiiMatch → List ℕ
confidences [] = []
confidences (m ∷ ms) = m.confidence ∷ confidences ms

kpp_run : confidences (detect_kpp platform (codes "КПП: 770701001, 123456789")) ≡ 88 ∷ []
unfolding program
kpp_run = refl

cvv_run : confidences (detect_cvv platform (codes "cvv. 123")) ≡ 55 ∷ []
unfolding program
cvv_run = refl

-- A full name with two spaces between its words makes the detector raise.
name_raises : detect_name platform names (codes "Иван  Ли") ≡ none
unfolding program
name_raises = refl

detect_codes-IsMarked_example :
    All
      (IsMarked platform (codes "кпп 770701001") kpp_context)
      (detect_kpp platform (codes "кпп 770701001"))
    × All
        (IsMarked platform (codes "кпп 770701001") ogrn_context)
        (detect_ogrn platform (codes "кпп 770701001"))
detect_codes-IsMarked_example = detect_codes-IsMarked platform (codes "кпп 770701001") (omega arith)

detect_card-IsCard_example :
    All
      (IsCard platform (codes "карта 4276 1600 1234 5678"))
      (detect_card platform (codes "карта 4276 1600 1234 5678"))
detect_card-IsCard_example =
    detect_card-IsCard platform (codes "карта 4276 1600 1234 5678") (omega arith)

abbrev no_card : Text
no_card = codes "пин 1234"

detect_pin-ShowsCard_example :
    ((k : Match) × In k (finditer card_pattern no_card)
      × ShowsCard platform no_card k
      × (detect_pin platform no_card true ≡ detect_pin platform no_card false))
    ⊎ (All (λ k. passes_luhn (digits_of (whole no_card k)) ≡ false) (finditer card_pattern no_card)
        × All (λ m. m.confidence ≤ 50) (detect_pin platform no_card true))
detect_pin-ShowsCard_example = detect_pin-ShowsCard platform no_card (omega arith)

detect_name-returns_example :
    (xs : List PiiMatch) × (detect_name platform names (codes "Иван Ли") ≡ some xs)
unfolding program
detect_name-returns_example = detect_name-returns platform names (codes "Иван Ли") (refl, tt)

-- No address in the texts below.
abbrev pub no_address : Detector
no_address text = some []

abbrev config : MaskerConfig
config = record {
  detectors = default_rule_detectors platform names no_address true;
  min_confidence = 80;
  enabled_pii_types = none;
  masking_mode = typed_placeholder;
  ml_detectors = [];
  degradation = fail_closed;
  custom_terms = [];
  is_space = chars.is_space;
}

abbrev email : PiiMatch
email = record { pii_type = codes "EMAIL"; value = letter; start = 0; end = 6; confidence = 100 }

abbrev masked : Text × Masker
masked = mask_chosen config letter (chosen config (email ∷ [])) new_masker

unfoldable pub masking : Unit {0}
unfolding program chosen resolve_overlapping_matches unique_matches add_unique same_key sort_by
    select is_apart rank_leb position_leb insert_by is_eligible is_enabled splice placeholder
    typed_value print_nat digits Dict.put rule_candidates ml_candidates mask is_separate
    default_rule_detectors detect_phone detect_snils detect_inn detect_ogrn detect_card
    detect_passport foreign_passport_matches detect_birth_date detect_issue_date detect_birth_place
    detect_citizenship detect_authority detect_unit_code detect_driving_license detect_card_holder
    AreSound
masking = tt

rules_run : rule_candidates config letter config.detectors ≡ some (email ∷ [])
unfolding masking
rules_run = refl

pub no_address-IsSoundOn : (text : Text) → IsSoundOn text no_address
unfolding AreSound
no_address-IsSoundOn text [] e = tt
no_address-IsSoundOn text (m ∷ ms) e = absurd (ground arith)

default_rule_detectors-demask_example :
    (mask config letter new_masker ≡ some masked) × (demask masked.0 masked.1.mapping ≡ some letter)
unfolding masking
default_rule_detectors-demask_example =
    default_rule_detectors-demask letter platform names no_address true config (email ∷ []) [] refl
      refl (no_address-IsSoundOn letter) rules_run refl tt (tt, tt) refl

abbrev issued : Text
issued = codes "выдан УВД г. Тулы, 2001"

authority_run :
    detect_authority platform issued
    ≡ record {
      pii_type = codes "PASSPORT_AUTHORITY";
      value = codes "УВД г. Тулы";
      start = 6;
      end = 17;
      confidence = 85;
    }
      ∷ []
unfolding masking value_match authority_match authority_end authority_stops end_from trim_from
    trim_end is_abbreviation_continuation past_blanks is_date_start is_textual_date_start
authority_run = refl

detect_values-AreValues_example :
    All (IsValue issued) (detect_birth_place platform issued)
    × All (IsValue issued) (detect_citizenship platform issued)
    × All (IsValue issued) (detect_authority platform issued)
detect_values-AreValues_example = detect_values-AreValues platform issued

-- ===== src/Mask/Tests.antt =====
-- Runs of the masker on a short text with three candidates, and the properties at them.
use privy_gate.Common.{
  inr, inl, map, ℕ, ◌≡◌, refl, true, not, List, [], ◌∷◌, none, some, Text, codes, text_eq, text_leb,
  insert_by, print_nat, digits, starts_with, find, arith, ◌==◌, all,
}
use privy_gate.Common.Dict
use privy_gate.Common.Dict.{Dict}
use privy_gate.Demask.{demask}
use privy_gate.Demask.Scan.{is_separate}
use privy_gate.Mask.{
  PiiMatch, MaskerConfig, Masker, new_masker, typed_placeholder, rule_only, mask, mask_chosen,
  chosen, rule_candidates, ml_candidates, resolve_overlapping_matches, unique_matches, add_unique,
  same_key, sort_by, select, is_apart, rank_leb, position_leb, is_eligible, is_enabled, splice,
  placeholder, typed_value,
}
use privy_gate.Mask.Decisions.{
  masked_action, overlap_rejected, same_match, action_of, decisions, Says, action_of-Says,
}
use privy_gate.Mask.Overlap.{Chain, resolve-Chain}
use privy_gate.Mask.Typed.{IsPlain, underscore, typed_value-injective}
use privy_gate.Mask.Unmask.{demask-mask}

abbrev letter : Text
letter = codes "mail a@b.c to Bob"

abbrev email : PiiMatch
email = record {
  pii_type = codes "EMAIL";
  value = codes "a@b.c";
  start = 5;
  end = 10;
  confidence = 95;
}

abbrev host : PiiMatch
host = record {
  pii_type = codes "PERSON";
  value = codes "b.c";
  start = 7;
  end = 10;
  confidence = 60;
}

abbrev person : PiiMatch
person = record {
  pii_type = codes "PERSON";
  value = codes "Bob";
  start = 14;
  end = 17;
  confidence = 80;
}

-- Two rule detectors; one ML detector that fails, and one that finds two names.
abbrev config : MaskerConfig
config = record {
  detectors = (λ text. some (email ∷ [])) ∷ (λ text. some []) ∷ [];
  min_confidence = 50;
  enabled_pii_types = some (codes "PERSON" ∷ codes "EMAIL" ∷ []);
  masking_mode = typed_placeholder;
  ml_detectors = (λ text. none) ∷ (λ text. some (person ∷ host ∷ [])) ∷ [];
  degradation = rule_only;
  custom_terms = [];
  is_space = λ c. c == b' ';
}

abbrev candidates : List PiiMatch
candidates = email ∷ person ∷ host ∷ []

abbrev masked : Text × Masker
masked = mask_chosen config letter (chosen config candidates) new_masker

IsPlain-if : (s : Text) → all (λ c. not (c == underscore)) s ≡ true → IsPlain s
IsPlain-if [] h = tt
IsPlain-if (c ∷ s) h = ((λ e. ground arith), IsPlain-if s (ground arith))

program : Unit {0}
unfolding chosen resolve_overlapping_matches unique_matches add_unique same_key sort_by select
    is_apart rank_leb position_leb insert_by is_eligible is_enabled text_eq text_leb splice
    placeholder typed_value print_nat digits Dict.get Dict.put rule_candidates ml_candidates mask
    starts_with find is_separate
program = tt

chosen_run : chosen config candidates ≡ email ∷ person ∷ []
unfolding program
chosen_run = refl

masked_run : masked.0 ≡ codes "mail __PII_EMAIL_1__ to __PII_PERSON_1__"
unfolding program
masked_run = refl

demask-mask_example :
    (mask config letter new_masker ≡ some masked) × (demask masked.0 masked.1.mapping ≡ some letter)
unfolding program
demask-mask_example =
    demask-mask config refl letter (email ∷ []) (person ∷ host ∷ []) refl refl
      (omega arith, (omega arith, (omega arith, tt))) (refl, (refl, (refl, tt)))
      (IsPlain-if (codes "mail ") refl, (IsPlain-if (codes " to ") refl, tt)) refl

resolve-Chain_example : Chain 0 (resolve_overlapping_matches candidates)
resolve-Chain_example = resolve-Chain candidates (omega arith, (omega arith, (omega arith, tt)))

typed_value-injective_example : (codes "EMAIL" ≡ codes "EMAIL") × ◌≡◌ {A = ℕ} 1 1
typed_value-injective_example = typed_value-injective (codes "EMAIL") (codes "EMAIL") 1 1 refl

-- The third candidate overlaps the address, and the address is chosen.
decisions_run :
    map (λ d. d.action) (decisions config candidates)
    ≡ masked_action ∷ overlap_rejected ∷ masked_action ∷ []
unfolding program decisions action_of same_match
decisions_run = refl

-- The host is left out for the address.
action_of-Says_example : Says config candidates host overlap_rejected
unfolding program action_of same_match
action_of-Says_example = action_of-Says config candidates host (inr (inr (inl refl))) (omega arith)

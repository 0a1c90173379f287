-- ===== src/Engine/Tests.antt =====
-- A test of the engine with a consumer's own term.
use privy_gate.Common.{◌≡◌, refl, false, [], ◌∷◌, none, some, codes}
use privy_gate.Mask.{PiiMatch}
use privy_gate.Policy.{ConsumerPolicy, default_registry, effective_pii_types}
use privy_gate.Detectors.Contacts.{detect_custom_terms, terms_pattern}
use privy_gate.Detectors.Sound.{AreSound}
use privy_gate.Detectors.Tests.{platform, names, no_address, no_address-IsSoundOn, masking}
use privy_gate.Engine.{Engine, engine_detectors, engine_mask}
use privy_gate.Engine.Candidates.{engine_detectors-AreSound}

abbrev base : ConsumerPolicy
base = (default_registry false 30 none).default_policy

abbrev policy : ConsumerPolicy
policy = record base { custom_terms = codes "Acme" ∷ codes "" ∷ [] }

abbrev engine : Engine
engine = record {
  platform = platform;
  names = names;
  address = no_address;
  ml_detectors = [];
  default_policy = base;
}

program : Unit {0}
unfolding masking detect_custom_terms terms_pattern engine_detectors engine_mask effective_pii_types
program = tt

engine_run :
    engine_mask engine (codes "acme") (some policy)
    ≡ some (codes "__PII_CUSTOM_TERM_1__", 1, codes "CUSTOM_TERM" ∷ [])
unfolding program
engine_run = refl

-- Without the term in the policy the text goes through.
engine_default_run : engine_mask engine (codes "acme") none ≡ some (codes "acme", 0, [])
unfolding program
engine_default_run = refl

abbrev term : PiiMatch
term = record {
  pii_type = codes "CUSTOM_TERM";
  value = codes "acme";
  start = 0;
  end = 4;
  confidence = 100;
}

engine_detectors-AreSound_example : AreSound (codes "acme") (term ∷ [])
unfolding program
engine_detectors-AreSound_example =
    engine_detectors-AreSound engine policy (codes "acme") (term ∷ [])
      (no_address-IsSoundOn (codes "acme")) refl

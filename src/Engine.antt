-- ===== src/Engine.antt =====
-- app/pii_engine.py: `PIIMaskingEngine`, which masks a payload of /process with a new masker.
--
-- The detectors of the engine are those of `default_rule_detectors`, as app/main.py makes them; the
-- rule for PINs, which `PIIMasker._with_pin_rule` puts into them, is their argument. The thread
-- pool is left out: a call is what the worker runs.
pub mod Candidates
pub mod Tests
use privy_gate.Common.{
  ℕ, List, [], ◌∷◌, ◌++◌, Option, none, some, Text, length, text_leb, insert_by,
}
use privy_gate.Mask.{Detector, MaskerConfig, Masker, new_masker, mask}
use privy_gate.Context.{Platform, hundredths}
use privy_gate.Names.{NameSets}
use privy_gate.Detectors.Contacts.{detect_custom_terms}
use privy_gate.Detectors.Rules.{default_rule_detectors}
use privy_gate.Policy.{ConsumerPolicy, effective_pii_types, or_default}

pub record Engine : Type 0 where
  pub platform : Platform
  pub names : NameSets
  pub address : Detector
  pub ml_detectors : List Detector
  pub default_policy : ConsumerPolicy

abbrev custom_detectors : Platform → List Text → List Detector
custom_detectors l [] = []
custom_detectors l (t ∷ ts) = (λ text. some (detect_custom_terms l (t ∷ ts) text)) ∷ []

unfoldable pub engine_detectors : Engine → ConsumerPolicy → List Detector
engine_detectors e p =
    default_rule_detectors e.platform e.names e.address p.require_card_for_pin
    ++ custom_detectors e.platform p.custom_terms

abbrev pub engine_masker : Engine → ConsumerPolicy → MaskerConfig
engine_masker e p = record {
  detectors = engine_detectors e p;
  min_confidence = or_default (hundredths e.platform 80) p.min_confidence;
  enabled_pii_types = some (effective_pii_types p);
  masking_mode = p.masking_mode;
  ml_detectors = e.ml_detectors;
  degradation = p.degradation;
  custom_terms = p.custom_terms;
  is_space = e.platform.chars.is_space;
}

-- `sorted(self._pii_types)`
abbrev pub sorted : List Text → List Text
sorted [] = []
sorted (t ∷ ts) = insert_by text_leb t (sorted ts)

abbrev pub diagnostics : Option (Text × Masker) → Option (Text × ℕ × List Text)
diagnostics none = none
diagnostics (some (masked, s)) = some (masked, length s.mapping, sorted s.pii_types)

-- `none`: a detector raised.
unfoldable pub engine_mask : Engine → Text → Option ConsumerPolicy → Option (Text × ℕ × List Text)
engine_mask e text policy =
    diagnostics (mask (engine_masker e (or_default e.default_policy policy)) text new_masker)

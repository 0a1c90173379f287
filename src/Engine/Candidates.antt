-- ===== src/Engine/Candidates.antt =====
-- The matches that the engine's detectors with rules give.
use privy_gate.Common.{◌≡◌, List, [], ◌∷◌, ◌++◌, some, All, All-append, Text}
use privy_gate.Mask.{PiiMatch, rule_candidates}
use privy_gate.Context.{Platform}
use privy_gate.Detectors.Sound.{AreSound}
use privy_gate.Detectors.Contacts.{detect_custom_terms, detect_custom_terms-AreSound}
use privy_gate.Detectors.Rules.{
  IsSoundOn, always-IsSoundOn, default_rule_detectors, default_rule_detectors-IsSoundOn,
  rule_candidates-AreSound,
}
use privy_gate.Policy.{ConsumerPolicy}
use privy_gate.Engine.{Engine, custom_detectors, engine_detectors, engine_masker}

custom_detectors-IsSoundOn :
    (l : Platform) (text : Text) (terms : List Text)
    → All (IsSoundOn text) (custom_detectors l terms)
custom_detectors-IsSoundOn l text [] = tt
custom_detectors-IsSoundOn l text (t ∷ ts) = (
  always-IsSoundOn (detect_custom_terms l (t ∷ ts)) text (detect_custom_terms-AreSound l (t ∷ ts)),
  tt,
)

-- Where the address detector's matches have a span with a character at least, in the text, and
-- hold their part of the text, all matches of the engine's detectors with rules do, those of the
-- policy's own terms included.
pub engine_detectors-AreSound :
    (e : Engine) (p : ConsumerPolicy) (text : Text) (ms : List PiiMatch)
    → IsSoundOn text e.address
    → rule_candidates (engine_masker e p) text (engine_detectors e p) ≡ some ms
    → AreSound text ms
unfolding engine_detectors
engine_detectors-AreSound e p text ms h found =
    rule_candidates-AreSound text (engine_masker e p)
      (default_rule_detectors e.platform e.names e.address p.require_card_for_pin
        ++ custom_detectors e.platform p.custom_terms)
      ms
      (All-append (IsSoundOn text) _ _
        (default_rule_detectors-IsSoundOn text e.platform e.names e.address p.require_card_for_pin
          h)
        (custom_detectors-IsSoundOn e.platform text p.custom_terms))
      found

-- ===== src/Context.antt =====
-- app/pii.py: the context scoring that the detectors share, `_context_confidence` and its helpers.
--
-- The floats of the configuration are written in hundredths. A score is a natural number of units,
-- and 0.01 is `hundredth` units; sums and differences of scores are taken to be exact, and one
-- float expression, `weight * (1.0 - distance / (window + 1)) ** power * multiplier`, is the
-- parameter `influence`, in units.
pub mod Marks
use privy_gate.Common.{
  ℕ, ◌+◌, ◌-◌, ◌*◌, Bool, ◌&&◌, List, [], ◌∷◌, Option, none, some, Text, codes, ltb, leb, ◌==◌, any,
  min, max, if◌then◌else◌,
}
use privy_gate.Common.Dict.{Dict}
use privy_gate.Regex.{Chars, casefold, Match, finditer, slice, test_of}
use privy_gate.Regex.Classes.{among, literal}

pub record Platform : Type 0 where
  pub chars : Chars
  pub hundredth : ℕ
  -- Of a weight, a distance, a window, a power and a multiplier.
  pub influence : ℕ → ℕ → ℕ → ℕ → ℕ → ℕ

pub record ContextConfig : Type 0 where
  pub context_window_chars : ℕ
  pub distance_decay_power : ℕ
  pub hard_context_boundaries : Text
  pub soft_context_boundaries : Text
  pub soft_boundary_multiplier : ℕ
  pub strong_confidence : ℕ
  pub weak_confidence : ℕ
  pub positive_context_weights : Dict ℕ
  pub negative_context_weights : Dict ℕ

-- `ContextConfig(positive_context_weights=weights)`
abbrev pub context_config : Dict ℕ → ContextConfig
context_config weights = record {
  context_window_chars = 64;
  distance_decay_power = 100;
  hard_context_boundaries = codes ",.;!?\n";
  soft_context_boundaries = codes ":—–";
  soft_boundary_multiplier = 75;
  strong_confidence = 99;
  weak_confidence = 55;
  positive_context_weights = weights;
  negative_context_weights = [];
}

-- any(boundary in between for boundary in boundaries)
abbrev pub has_boundary : Text → Text → Bool
has_boundary boundaries between = any (λ c. among boundaries c) between

-- The loop of `_strip_abbreviation_periods`, with the character before.
unfoldable pub strip_periods : Chars → Option ℕ → Text → Text
strip_periods u before [] = []
strip_periods u before (c ∷ s) =
    let rest = strip_periods u (some c) s in
    if c == b'.' && test_of u.is_alpha before then rest else c ∷ rest

abbrev pub strip_abbreviation_periods : Chars → Text → Text
strip_abbreviation_periods u text = strip_periods u none text

unfoldable pub boundary_multiplier : Chars → ContextConfig → Text → ℕ
boundary_multiplier u config between =
    if has_boundary config.hard_context_boundaries between
      && has_boundary config.hard_context_boundaries (strip_abbreviation_periods u between)
    then 0
    else if has_boundary config.soft_context_boundaries between
    then config.soft_boundary_multiplier
    else 100

-- What a marker at a distance adds, with a text between; `none` where the loop goes on.
unfoldable pub near_influence : (ℕ → ℕ → ℕ) → ℕ → (Text → ℕ) → ℕ → Text → Option ℕ
near_influence influence window multiplier distance between =
    if ltb window distance
    then none
    else if multiplier between == 0
    then none
    else some (influence distance (multiplier between))

unfoldable pub marker_influence : (ℕ → ℕ → ℕ) → ℕ → (Text → ℕ) → Text → ℕ → ℕ → Match → Option ℕ
marker_influence influence window multiplier text start end marker =
    if leb marker.end start
    then near_influence influence window multiplier (start - marker.end)
        (slice marker.end start text)
    else if leb end marker.start
    then near_influence influence window multiplier (marker.start - end)
        (slice end marker.start text)
    else none

abbrev pub stronger : ℕ → Option ℕ → ℕ
stronger strongest none = strongest
stronger strongest (some influence) = max strongest influence

unfoldable pub strongest_influence : (Match → Option ℕ) → ℕ → List Match → ℕ
strongest_influence influence strongest [] = strongest
strongest_influence influence strongest (m ∷ ms) =
    strongest_influence influence (stronger strongest (influence m)) ms

-- max(... for phrase, weight in weights.items(), default=0.0)
unfoldable pub strongest_of : (Text → ℕ → ℕ) → Dict ℕ → ℕ
strongest_of influence [] = 0
strongest_of influence ((phrase, weight) ∷ ws) =
    max (influence phrase weight) (strongest_of influence ws)

module _ (l : Platform) where
  abbrev pub markers : Text → Text → List Match
  markers phrase text = finditer (literal (casefold l.chars phrase)) (casefold l.chars text)

  unfoldable pub context_influence : Text → ℕ → ℕ → Text → ℕ → ContextConfig → ℕ
  context_influence text start end phrase weight config =
      strongest_influence
        (marker_influence
          (λ distance multiplier.
            l.influence weight distance config.context_window_chars config.distance_decay_power
              multiplier)
          config.context_window_chars (boundary_multiplier l.chars config) text start end)
        0 (markers phrase text)

  -- A score in hundredths, in units.
  abbrev pub hundredths : ℕ → ℕ
  hundredths n = n * l.hundredth

  -- min(1.0, max(0.0, weak + positive - negative))
  abbrev pub bounded : ℕ → ℕ → ℕ → ℕ
  bounded weak positive negative = min (hundredths 100) (weak + positive - negative)

  unfoldable pub context_confidence : Text → ℕ → ℕ → ContextConfig → ℕ
  context_confidence text start end config =
      bounded (hundredths config.weak_confidence)
        (strongest_of (λ phrase weight. context_influence text start end phrase weight config)
          config.positive_context_weights)
        (strongest_of (λ phrase weight. context_influence text start end phrase weight config)
          config.negative_context_weights)

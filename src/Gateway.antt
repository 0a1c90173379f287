-- ===== src/Gateway.antt =====
-- app/main.py: `chat_completions` up to the call of the upstream, with `_extract_api_key` and
-- `_mask_payload`, and the request of app/models.py.
--
-- The registries are there, as `lifespan` sets them. Each call of a registry has its own reading.
-- The detectors and the default confidence of the masker are arguments. Of a message the code
-- changes the content only, and the other fields of a request go on as they are.
pub mod Guards
pub mod Tests
use privy_gate.Common.{
  ℕ, Bool, true, false, List, [], ◌∷◌, Option, none, some, Text, codes, starts_with, drop,
  if◌then◌else◌,
}
use privy_gate.Common.Int.{ℤ, pos, ltb_ℤ}
use privy_gate.Regex.{Chars, casefold}
use privy_gate.Mask.{Detector, MaskerConfig, Masker, new_masker, mask}
use privy_gate.Policy.{
  ConsumerPolicy, effective_pii_types, PolicyRegistry, Reading, resolve, is_allowed,
}
use privy_gate.Models.{ModelConfig, ModelRegistry, ModelsReading, resolve_model}

pub record Headers : Type 0 where
  pub authorization : Option Text
  pub x_api_key : Option Text
  pub x_consumer_id : Option Text

pub record ChatMessage : Type 0 where
  pub role : Text
  pub content : Text

pub record ChatRequest : Type 0 where
  pub model : Text
  pub messages : List ChatMessage
  pub max_tokens : Option ℤ

-- s.strip()
unfoldable pub skip_spaces : (ℕ → Bool) → Text → Text
skip_spaces is_space [] = []
skip_spaces is_space (c ∷ s) =
    let rest = skip_spaces is_space s in if is_space c then rest else c ∷ s

abbrev pub before : (ℕ → Bool) → ℕ → Text → Text
before is_space c [] = if is_space c then [] else c ∷ []
before is_space c (d ∷ s) = c ∷ d ∷ s

unfoldable pub drop_spaces : (ℕ → Bool) → Text → Text
drop_spaces is_space [] = []
drop_spaces is_space (c ∷ s) = before is_space c (drop_spaces is_space s)

abbrev pub strip : (ℕ → Bool) → Text → Text
strip is_space s = drop_spaces is_space (skip_spaces is_space s)

-- `s or None`
abbrev pub or_none : Text → Option Text
or_none [] = none
or_none (c ∷ s) = some (c ∷ s)

unfoldable pub extract_api_key : Chars → Headers → Option Text
extract_api_key u h = elim h.authorization [
  | none ↦ h.x_api_key
  | some auth ↦
      if starts_with (codes "bearer ") (casefold u auth)
      then or_none (strip u.is_space (drop 7 auth))
      else h.x_api_key
]

-- The loop of `_mask_payload`; `none` where a detector raised.
unfoldable pub mask_messages :
    MaskerConfig → List ChatMessage → Masker → Option (List ChatMessage × Masker)
mask_messages c [] s = some ([], s)
mask_messages c (m ∷ ms) s = elim (mask c m.content s) [
  | none ↦ none
  | some (content, s') ↦ elim (mask_messages c ms s') [
    | none ↦ none
    | some (rest, s'') ↦ some (record m { content = content } ∷ rest, s'')
  ]
]

pub record Gateway : Type 0 where
  pub chars : Chars
  pub detectors : List Detector
  pub ml_detectors : List Detector
  pub default_confidence : ℕ
  pub policies : PolicyRegistry
  pub models : ModelRegistry

-- What `mask_kwargs` makes of a policy.
abbrev pub masker_for : Gateway → ConsumerPolicy → MaskerConfig
masker_for g p = record {
  detectors = g.detectors;
  min_confidence = g.default_confidence;
  enabled_pii_types = some (effective_pii_types p);
  masking_mode = p.masking_mode;
  ml_detectors = g.ml_detectors;
  degradation = p.degradation;
  custom_terms = [];
  is_space = g.chars.is_space;
}

pub record ChatReadings : Type 0 where
  pub at_allowed : Reading
  pub at_resolve : Reading
  pub at_model : ModelsReading

-- The answers 500, 403, 404 and 429, or what is sent to the upstream.
pub data ChatOutcome : Type 0 where
  failed forbidden unknown_model over_quota : ChatOutcome
  ready : ConsumerPolicy → ModelConfig → List ChatMessage → Masker → ChatOutcome

abbrev pub tokens_of : Option ℤ → ℤ
tokens_of none = pos 0
tokens_of (some n) = n

abbrev pub exceeds : ConsumerPolicy → ChatRequest → Bool
exceeds p body = elim p.max_tokens_per_request [
  | none ↦ false
  | some quota ↦ ltb_ℤ quota (tokens_of body.max_tokens)
]

module _ (g : Gateway) (r : ChatReadings) (h : Headers) (body : ChatRequest) where
  unfoldable pub masked_chat : ConsumerPolicy → ModelConfig → ChatOutcome
  masked_chat p config =
      if exceeds p body
      then over_quota
      else elim (mask_messages (masker_for g p) body.messages new_masker) [
        | none ↦ failed
        | some (messages, masker) ↦ ready p config messages masker
      ]

  unfoldable pub resolved_chat : PolicyRegistry → Gateway × ChatOutcome
  resolved_chat s = elim (resolve r.at_resolve s h.x_consumer_id) [
    | none ↦ (record g { policies = s }, failed)
    | some (s', p) ↦ elim (resolve_model r.at_model g.models body.model) [
      | none ↦ (record g { policies = s' }, failed)
      | some (models, found) ↦ (
        record g { policies = s'; models = models },
        elim found [ none ↦ unknown_model | some config ↦ masked_chat p config ],
      )
    ]
  ]

  unfoldable pub allowed_chat : PolicyRegistry → Bool → Gateway × ChatOutcome
  allowed_chat s false = (record g { policies = s }, forbidden)
  allowed_chat s true = resolved_chat s

  unfoldable pub chat_completions : Gateway × ChatOutcome
  chat_completions =
      elim (is_allowed r.at_allowed g.policies h.x_consumer_id (extract_api_key g.chars h)) [
        | none ↦ (g, failed)
        | some (s, allowed) ↦ allowed_chat s allowed
      ]

-- ===== src/Gateway/Tests.antt =====
-- A test of the gateway: one consumer, one model, and a detector of one text.
use privy_gate.Common.{
  ◌≡◌, refl, true, false, List, [], ◌∷◌, none, some, Text, codes, text_eq, text_leb, starts_with,
  print_nat, digits, insert_by, ◌==◌,
}
use privy_gate.Common.Dict
use privy_gate.Regex.{Chars, casefold}
use privy_gate.Mask.{
  PiiMatch, Masker, rule_candidates, ml_candidates, chosen, mask, resolve_overlapping_matches,
  unique_matches, add_unique, same_key, sort_by, select, is_apart, rank_leb, position_leb,
  is_eligible, is_enabled, splice, placeholder, typed_value, new_masker, mask_chosen,
}
use privy_gate.Policy.{
  ConsumerPolicy, missing, load, maybe_reload, resolve, is_allowed, allows, effective_pii_types,
  default_registry,
}
use privy_gate.Models
use privy_gate.Models.{ModelConfig, load_models, reload_models, resolve_model}
use privy_gate.Gateway.{
  Headers, ChatMessage, ChatRequest, extract_api_key, skip_spaces, drop_spaces, mask_messages,
  Gateway, masker_for, ChatReadings, masked_chat, resolved_chat, allowed_chat, chat_completions,
}
use privy_gate.Gateway.Guards.{IsReady, chat_completions-IsReady}

abbrev chars : Chars
chars = record {
  fold_char = λ c. c ∷ [];
  variants = λ c. [];
  is_alpha = λ c. false;
  is_digit = λ c. false;
  is_space = λ c. c == b' ';
  is_upper = λ c. false;
  is_word = λ c. false;
}

abbrev email : PiiMatch
email = record {
  pii_type = codes "EMAIL";
  value = codes "a@b.ru";
  start = 3;
  end = 9;
  confidence = 100;
}

abbrev policy : ConsumerPolicy
policy = (default_registry true 30 none).default_policy

abbrev gateway : Gateway
gateway = record {
  chars = chars;
  detectors = (λ text. some (email ∷ [])) ∷ [];
  ml_detectors = [];
  default_confidence = 80;
  policies = record (default_registry true 30 none) {
    entries = (codes "crm", record { policy = policy; api_keys = codes "k1" ∷ [] }) ∷ [];
  };
  models = record {
    has_path = true;
    reload_interval = 30;
    models =
        (codes "m", record { name = codes "m"; api_base = codes "http://m"; model = codes "m" })
        ∷ [];
    last_load = 0;
  };
}

abbrev readings : ChatReadings
readings = record {
  at_allowed = record { now = 100; file = missing; loaded_at = 100 };
  at_resolve = record { now = 101; file = missing; loaded_at = 101 };
  at_model = record { now = 102; file = Models.missing; loaded_at = 102 };
}

abbrev headers : Headers
headers = record {
  authorization = some (codes "bearer  k1 ");
  x_api_key = none;
  x_consumer_id = some (codes "crm");
}

abbrev request : ChatRequest
request = record {
  model = codes "m";
  messages = record { role = codes "user"; content = codes "to a@b.ru" } ∷ [];
  max_tokens = none;
}

program : Unit {0}
unfolding casefold text_eq text_leb starts_with print_nat digits insert_by Dict.get Dict.put
    rule_candidates ml_candidates chosen mask resolve_overlapping_matches unique_matches add_unique
    same_key sort_by select is_apart rank_leb position_leb is_eligible is_enabled splice placeholder
    typed_value load maybe_reload resolve is_allowed allows effective_pii_types load_models
    reload_models resolve_model extract_api_key skip_spaces drop_spaces mask_messages masked_chat
    resolved_chat allowed_chat chat_completions
program = tt

key_run : extract_api_key chars headers ≡ some (codes "k1")
unfolding program
key_run = refl

abbrev masked : Text × Masker
masked = mask_chosen (masker_for gateway policy) (codes "to a@b.ru") (email ∷ []) new_masker

abbrev model_m : ModelConfig
model_m = record { name = codes "m"; api_base = codes "http://m"; model = codes "m" }

abbrev sent : List ChatMessage
sent = record { role = codes "user"; content = codes "to __PII_EMAIL_1__" } ∷ []

chat_completions-IsReady_example :
    IsReady gateway readings headers request policy model_m (sent, masked.1)
unfolding program
chat_completions-IsReady_example =
    chat_completions-IsReady gateway readings headers request policy model_m sent masked.1 refl

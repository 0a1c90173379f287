-- ===== src/Policy.antt =====
-- app/policy.py: the consumer policies and their registry.
--
-- What `json.load` gives is a parameter of each call: the file is missing; it cannot be opened or is
-- not JSON; it is not UTF-8; it is JSON of another shape; or it holds items with the fields that
-- `item.get` finds, each of its documented type or null. A mode is one of those that the masker
-- tells apart; null is none of them, which the masker treats as the default one.
-- The registry keeps the time of its last load in ticks; `none` as the result of a call means that
-- it raised.
pub mod Items
pub mod Loading
pub mod Allowed
pub mod Tests
use privy_gate.Common.{
  ℕ, ◌+◌, Bool, true, false, not, List, [], ◌∷◌, Option, none, some, Text, codes, text_eq, any,
  keep_if, ltb, if◌then◌else◌,
}
use privy_gate.Common.Fields.{Field, absent, null, given}
use privy_gate.Common.Int.{ℤ}
use privy_gate.Common.Dict
use privy_gate.Common.Dict.{Dict}
use privy_gate.Mask.{MaskingMode, typed_placeholder, DegradationMode, fail_closed}

abbrev pub all_pii_types : List Text
all_pii_types =
    codes "PERSON"
    ∷ codes "DATE_OF_BIRTH"
    ∷ codes "BIRTH_PLACE"
    ∷ codes "PASSPORT"
    ∷ codes "CITIZENSHIP"
    ∷ codes "PASSPORT_AUTHORITY"
    ∷ codes "PASSPORT_UNIT_CODE"
    ∷ codes "PASSPORT_ISSUE_DATE"
    ∷ codes "DRIVING_LICENSE"
    ∷ codes "ADDRESS"
    ∷ codes "EMAIL"
    ∷ codes "PHONE"
    ∷ codes "INN"
    ∷ codes "CARD"
    ∷ codes "CVV"
    ∷ codes "PIN"
    ∷ codes "CARD_HOLDER"
    ∷ []

pub record ConsumerPolicy : Type 0 where
  pub consumer_id : Text
  pub enabled : Bool
  pub enabled_pii_types : List Text
  pub excluded_pii_types : List Text
  pub allow_demasking : Bool
  pub min_confidence : Option ℕ
  pub masking_mode : MaskingMode
  pub degradation : DegradationMode
  pub require_card_for_pin : Bool
  pub custom_terms : List Text
  pub max_tokens_per_request : Option ℤ

-- `x in s`
abbrev pub has_text : Text → List Text → Bool
has_text x s = any (λ y. text_eq y x) s

-- `self.enabled_pii_types - self.excluded_pii_types`
unfoldable pub effective_pii_types : ConsumerPolicy → List Text
effective_pii_types p = keep_if (λ t. not (has_text t p.excluded_pii_types)) p.enabled_pii_types

pub record ConsumerEntry : Type 0 where
  pub policy : ConsumerPolicy
  pub api_keys : List Text

-- The fields of an item. `none` stands where the code does not tell a null from a missing key.
pub record Item : Type 0 where
  pub consumer_id : Field Text
  pub enabled : Field Bool
  pub enabled_pii_types : Option (List Text)
  pub excluded_pii_types : Option (List Text)
  pub allow_demasking : Field Bool
  pub min_confidence : Option ℕ
  pub masking_mode : Option MaskingMode
  pub degradation : Option DegradationMode
  pub require_card_for_pin : Field Bool
  pub custom_terms : Option (List Text)
  pub max_tokens_per_request : Option ℤ
  pub api_keys : Field (List Text)

pub data ConfigFile : Type 0 where
  -- `unreadable`: OSError or JSONDecodeError; `undecodable`: UnicodeDecodeError; `misshapen`: the
  -- file or an item is not an object, or `consumers` is null.
  missing unreadable undecodable misshapen : ConfigFile
  consumers : List Item → ConfigFile

module _ {A : Type 0} where
  abbrev pub or_default : A → Option A → A
  or_default d none = d
  or_default d (some a) = a

-- `bool(item.get(key, d))`
abbrev pub truth : Bool → Field Bool → Bool
truth d absent = d
truth d null = false
truth d (given b) = b

-- `str(item["consumer_id"])`; `none`: it raised.
abbrev pub id_of : Field Text → Option Text
id_of absent = none
id_of null = some (codes "None")
id_of (given id) = some id

-- `frozenset(item.get("api_keys", []))`; `none`: it raised.
abbrev pub keys_of : Field (List Text) → Option (List Text)
keys_of absent = some []
keys_of null = none
keys_of (given keys) = some keys

-- The policy of an item that has a consumer_id.
abbrev pub policy_of : Text → Item → ConsumerPolicy
policy_of id item = record {
  consumer_id = id;
  enabled = truth true item.enabled;
  enabled_pii_types = or_default all_pii_types item.enabled_pii_types;
  excluded_pii_types = or_default [] item.excluded_pii_types;
  allow_demasking = truth true item.allow_demasking;
  min_confidence = item.min_confidence;
  masking_mode = or_default typed_placeholder item.masking_mode;
  degradation = or_default fail_closed item.degradation;
  require_card_for_pin = truth true item.require_card_for_pin;
  custom_terms = or_default [] item.custom_terms;
  max_tokens_per_request = item.max_tokens_per_request;
}

-- `none`: item["consumer_id"] raised.
unfoldable pub parse_policy : Item → Option ConsumerPolicy
parse_policy item = elim (id_of item.consumer_id) [
  | none ↦ none
  | some id ↦ some (policy_of id item)
]

-- One round of the loop of `_load`.
unfoldable pub entry_of : Item → Option ConsumerEntry
entry_of item = elim (parse_policy item) [
  | none ↦ none
  | some policy ↦ elim (keys_of item.api_keys) [
    | none ↦ none
    | some keys ↦ some (record { policy = policy; api_keys = keys })
  ]
]

unfoldable pub add_entries : List Item → Dict ConsumerEntry → Option (Dict ConsumerEntry)
add_entries [] entries = some entries
add_entries (item ∷ items) entries = elim (entry_of item) [
  | none ↦ none
  | some entry ↦ add_entries items (Dict.put entry.policy.consumer_id entry entries)
]

pub record PolicyRegistry : Type 0 where
  -- Whether a path of a file is given.
  pub has_path : Bool
  pub reload_interval : ℕ
  pub default_policy : ConsumerPolicy
  pub entries : Dict ConsumerEntry
  pub last_load : ℕ

-- What a call finds: the time when it asks, the file, and the time when the file is loaded.
pub record Reading : Type 0 where
  pub now : ℕ
  pub file : ConfigFile
  pub loaded_at : ℕ

unfoldable pub load : Reading → PolicyRegistry → Option PolicyRegistry
load r s = elim r.file [
  | missing ↦ some s
  | unreadable ↦ some s
  | undecodable ↦ none
  | misshapen ↦ none
  | consumers items ↦ elim (add_entries items []) [
    | none ↦ none
    | some entries ↦ some (record s { entries = entries; last_load = r.loaded_at })
  ]
]

abbrev pub default_registry : Bool → ℕ → Option ConsumerPolicy → PolicyRegistry
default_registry has_path reload_interval default_policy = record {
  has_path = has_path;
  reload_interval = reload_interval;
  default_policy = or_default (policy_of (codes "alfasonar") no_fields) default_policy;
  entries = [];
  last_load = 0;
}
  where
    no_fields : Item
    no_fields = record {
      consumer_id = absent;
      enabled = absent;
      enabled_pii_types = none;
      excluded_pii_types = none;
      allow_demasking = absent;
      min_confidence = none;
      masking_mode = none;
      degradation = none;
      require_card_for_pin = absent;
      custom_terms = none;
      max_tokens_per_request = none;
      api_keys = absent;
    }

-- `__init__`
unfoldable pub new_registry : Bool → ℕ → Option ConsumerPolicy → Reading → Option PolicyRegistry
new_registry has_path reload_interval default_policy r =
    let s = default_registry has_path reload_interval default_policy in
    if has_path then load r s else some s

unfoldable pub maybe_reload : Reading → PolicyRegistry → Option PolicyRegistry
maybe_reload r s =
    if not s.has_path
    then some s
    else if ltb r.now (s.last_load + s.reload_interval)
    then some s
    else load r s

-- The policy of an entry, or the default one.
abbrev pub policy_or : ConsumerPolicy → Option ConsumerEntry → ConsumerPolicy
policy_or d none = d
policy_or d (some entry) = entry.policy

abbrev pub policy_for : PolicyRegistry → Option Text → ConsumerPolicy
policy_for s none = s.default_policy
policy_for s (some id) = policy_or s.default_policy (Dict.get id s.entries)

unfoldable pub resolve :
    Reading → PolicyRegistry → Option Text → Option (PolicyRegistry × ConsumerPolicy)
resolve r s consumer_id = elim (maybe_reload r s) [
  | none ↦ none
  | some s' ↦ some (s', policy_for s' consumer_id)
]

-- `api_key is not None and api_key in keys`
abbrev pub has_key : Option Text → List Text → Bool
has_key none keys = false
has_key (some key) keys = has_text key keys

abbrev pub no_keys : List Text → Bool
no_keys [] = true
no_keys (k ∷ ks) = false

unfoldable pub allows : Option Text → ConsumerEntry → Bool
allows api_key entry =
    if not entry.policy.enabled
    then false
    else if no_keys entry.api_keys
    then true
    else has_key api_key entry.api_keys

abbrev pub allows_entry : Option Text → Option ConsumerEntry → Bool
allows_entry api_key none = false
allows_entry api_key (some entry) = allows api_key entry

abbrev pub permits : PolicyRegistry → Option Text → Option Text → Bool
permits s none api_key = false
permits s (some id) api_key = allows_entry api_key (Dict.get id s.entries)

unfoldable pub is_allowed :
    Reading → PolicyRegistry → Option Text → Option Text → Option (PolicyRegistry × Bool)
is_allowed r s consumer_id api_key = elim (maybe_reload r s) [
  | none ↦ none
  | some s' ↦ some (s', permits s' consumer_id api_key)
]

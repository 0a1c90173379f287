-- ===== src/Models.antt =====
-- app/model_registry.py: `ModelRegistry`.
--
-- What `json.loads` gives is a parameter of each call: the file is missing; it cannot be opened or
-- is not JSON; it is not UTF-8; it is JSON of another shape; or it holds items with the texts or
-- nulls that `item.get` finds. The registry keeps the time of its last load in ticks; `none` as the
-- result of a call means that it raised. Logging is left out.
pub mod Loading
pub mod Offers
pub mod Tests
use privy_gate.Common.{
  ℕ, ◌+◌, Bool, not, List, [], ◌∷◌, Option, none, some, Text, codes, text_leb, insert_by, ltb,
  if◌then◌else◌,
}
use privy_gate.Common.Fields.{Field, absent, null, given}
use privy_gate.Common.Dict
use privy_gate.Common.Dict.{Dict, keys}
use privy_gate.Routing.{rstrip}

pub record ModelConfig : Type 0 where
  pub name : Text
  pub api_base : Text
  pub model : Text

-- The fields of an item. `none` stands where the code does not tell a null from a missing key.
pub record ModelItem : Type 0 where
  pub name : Option Text
  pub api_base : Option Text
  pub model : Field Text

pub data ModelsFile : Type 0 where
  -- `unreadable`: OSError or JSONDecodeError; `undecodable`: UnicodeDecodeError; `misshapen`: the
  -- file or an item is not an object, or `models` is null.
  missing unreadable undecodable misshapen : ModelsFile
  models : List ModelItem → ModelsFile

-- A text that is there and not empty.
abbrev pub filled : Option Text → Option Text
filled none = none
filled (some []) = none
filled (some (c ∷ s)) = some (c ∷ s)

-- `str(item.get("model", name))`
abbrev pub model_or : Text → Field Text → Text
model_or name absent = name
model_or name null = codes "None"
model_or name (given s) = s

-- One round of the loop of `_load`: `none` where it goes on.
unfoldable pub config_of : ModelItem → Option ModelConfig
config_of item = elim (filled item.name) [
  | none ↦ none
  | some name ↦ elim (filled item.api_base) [
    | none ↦ none
    | some api_base ↦
        some (record {
          name = name;
          api_base = rstrip b'/' api_base;
          model = model_or name item.model;
        })
  ]
]

abbrev pub add_config : Option ModelConfig → Dict ModelConfig → Dict ModelConfig
add_config none known = known
add_config (some config) known = Dict.put config.name config known

unfoldable pub add_models : List ModelItem → Dict ModelConfig → Dict ModelConfig
add_models [] known = known
add_models (item ∷ items) known = add_models items (add_config (config_of item) known)

pub record ModelRegistry : Type 0 where
  -- Whether a path of a file is given.
  pub has_path : Bool
  pub reload_interval : ℕ
  pub models : Dict ModelConfig
  pub last_load : ℕ

-- What a call finds: the time when it asks, the file, and the time when the file is loaded.
pub record ModelsReading : Type 0 where
  pub now : ℕ
  pub file : ModelsFile
  pub loaded_at : ℕ

abbrev pub with_file : ModelsReading → ModelRegistry → ModelsFile → Option ModelRegistry
with_file r s missing = some s
with_file r s unreadable = some s
with_file r s undecodable = none
with_file r s misshapen = none
with_file r s (models items) =
    some (record s { models = add_models items []; last_load = r.loaded_at })

unfoldable pub load_models : ModelsReading → ModelRegistry → Option ModelRegistry
load_models r s = if not s.has_path then some s else with_file r s r.file

-- `__init__`
unfoldable pub new_model_registry : Bool → ℕ → ModelsReading → Option ModelRegistry
new_model_registry has_path reload_interval r =
    load_models r (record {
      has_path = has_path;
      reload_interval = reload_interval;
      models = [];
      last_load = 0;
    })

unfoldable pub reload_models : ModelsReading → ModelRegistry → Option ModelRegistry
reload_models r s =
    if not s.has_path
    then some s
    else if ltb r.now (s.last_load + s.reload_interval)
    then some s
    else load_models r s

unfoldable pub resolve_model :
    ModelsReading → ModelRegistry → Text → Option (ModelRegistry × Option ModelConfig)
resolve_model r s model_name = elim (reload_models r s) [
  | none ↦ none
  | some s' ↦ some (s', Dict.get model_name s'.models)
]

abbrev pub sorted : List Text → List Text
sorted [] = []
sorted (t ∷ ts) = insert_by text_leb t (sorted ts)

unfoldable pub names : ModelsReading → ModelRegistry → Option (ModelRegistry × List Text)
names r s = elim (reload_models r s) [ none ↦ none | some s' ↦ some (s', sorted (keys s'.models)) ]

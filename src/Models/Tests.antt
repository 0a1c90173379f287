-- ===== src/Models/Tests.antt =====
-- Tests of the registry of models.
use privy_gate.Common.{
  ◌≡◌, ◌≢◌, refl, true, arith, List, [], ◌∷◌, Option, none, some, Text, codes, text_eq, text_leb,
  insert_by,
}
use privy_gate.Common.Fields.{absent, null}
use privy_gate.Common.Dict
use privy_gate.Routing.{rstrip}
use privy_gate.Models.{
  ModelConfig, ModelItem, models, config_of, add_models, ModelRegistry, ModelsReading, load_models,
  new_model_registry, reload_models, resolve_model, names,
}
use privy_gate.Models.Loading.{AreNamed, resolve_model-AreNamed}
use privy_gate.Models.Offers.{Outcome, resolve_model-last_offer}

program : Unit {0}
unfolding text_eq text_leb insert_by Dict.get Dict.put rstrip config_of add_models load_models
    new_model_registry reload_models resolve_model names
program = tt

abbrev item : Text → Text → ModelItem
item name api_base = record { name = some name; api_base = some api_base; model = absent }

-- The second model has no address.
abbrev items : List ModelItem
items =
    item (codes "b") (codes "http://b/")
    ∷ item (codes "c") []
    ∷ item (codes "a") (codes "http://a")
    ∷ []

abbrev reading : ModelsReading
reading = record { now = 100; file = models items; loaded_at = 101 }

abbrev empty : ModelRegistry
empty = record { has_path = true; reload_interval = 30; models = []; last_load = 0 }

abbrev model_b : ModelConfig
model_b = record { name = codes "b"; api_base = codes "http://b"; model = codes "b" }

abbrev loaded : ModelRegistry
loaded = record empty {
  models =
      (codes "b", model_b)
      ∷ (codes "a", record { name = codes "a"; api_base = codes "http://a"; model = codes "a" })
      ∷ [];
  last_load = 101;
}

resolve_run : resolve_model reading empty (codes "b") ≡ some (loaded, some model_b)
unfolding program
resolve_run = refl

names_run : names reading empty ≡ some (loaded, codes "a" ∷ codes "b" ∷ [])
unfolding program
names_run = refl

-- A model that is null is `None`.
null_run :
    config_of (record (item (codes "b") (codes "http://b")) { model = null })
    ≡ some (record model_b { model = codes "None" })
unfolding program
null_run = refl

resolve_model-last_offer_example :
    (s' : ModelRegistry) × (found : Option ModelConfig) × (resolve_model reading empty (codes "c")
      ≡ some (s', found))
    × Outcome (codes "c") items none found
resolve_model-last_offer_example =
    resolve_model-last_offer reading empty items (codes "c") refl (omega arith) refl

resolve_model-AreNamed_example : (codes "b" ≡ codes "b") × (codes "b" ≢ []) × AreNamed loaded.models
unfolding program
resolve_model-AreNamed_example =
    resolve_model-AreNamed reading empty loaded (codes "b") model_b tt refl

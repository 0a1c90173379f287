-- ===== src/Policy/Tests.antt =====
-- Tests of the policies: a file with an item that is changed by a later one.
use privy_gate.Common.{
  ◌≡◌, ◌↔◌, inl, inr, refl, true, false, arith, List, [], ◌∷◌, none, some, Text, codes, text_eq,
}
use privy_gate.Common.Fields.{Field, absent, null, given}
use privy_gate.Common.Dict
use privy_gate.Policy.{
  ConsumerPolicy, Item, ConfigFile, missing, consumers, policy_of, parse_policy, entry_of,
  add_entries, PolicyRegistry, Reading, default_registry, load, new_registry, maybe_reload, resolve,
  effective_pii_types, allows, is_allowed,
}
use privy_gate.Policy.Loading.{Answers, resolve-last_entry, resolve-raises, after_calls}
use privy_gate.Policy.Allowed.{IsAllowed, is_allowed_iff}

program : Unit {0}
unfolding text_eq Dict.get Dict.put parse_policy entry_of add_entries load new_registry maybe_reload
    resolve effective_pii_types allows is_allowed
program = tt

abbrev item : Field Text → List Text → List Text → Item
item id excluded keys = record {
  consumer_id = id;
  enabled = absent;
  enabled_pii_types = some (codes "EMAIL" ∷ codes "PHONE" ∷ []);
  excluded_pii_types = some excluded;
  allow_demasking = absent;
  min_confidence = none;
  masking_mode = none;
  degradation = none;
  require_card_for_pin = absent;
  custom_terms = none;
  max_tokens_per_request = none;
  api_keys = given keys;
}

abbrev first : Item
first = item (given (codes "crm")) [] []

abbrev second : Item
second = item (given (codes "crm")) (codes "PHONE" ∷ []) (codes "k1" ∷ [])

abbrev nameless : Item
nameless = item absent [] []

abbrev reading : ConfigFile → Reading
reading file = record { now = 100; file = file; loaded_at = 101 }

abbrev empty : PolicyRegistry
empty = default_registry true 30 none

abbrev loaded : PolicyRegistry
loaded = record empty {
  entries =
      (codes "crm", record { policy = policy_of (codes "crm") second; api_keys = codes "k1" ∷ [] })
      ∷ [];
  last_load = 101;
}

new_run : new_registry true 30 none (reading (consumers (first ∷ second ∷ []))) ≡ some loaded
unfolding program
new_run = refl

-- With an id that has keys, another key is refused.
refused :
    is_allowed (reading missing) loaded (some (codes "crm")) (some (codes "k2"))
    ≡ some (loaded, false)
unfolding program
refused = refl

-- A null is no flag, an id that is null is `None`, and null keys raise.
abbrev nulls : Item
nulls = record (item null [] []) { enabled = null; api_keys = absent }

abbrev null_keys : Item
null_keys = record first { api_keys = null }

nulls_run :
    resolve (reading (consumers (nulls ∷ []))) empty (some (codes "None"))
    ≡ some (
      record empty {
        entries =
            (
              codes "None",
              record {
                policy = record (policy_of (codes "None") first) { enabled = false };
                api_keys = [];
              },
            )
            ∷ [];
        last_load = 101;
      },
      record (policy_of (codes "None") first) { enabled = false },
    )
unfolding program
nulls_run = refl

resolve-last_entry_example :
    (s : PolicyRegistry) × (p : ConsumerPolicy) × (resolve
        (reading (consumers (first ∷ second ∷ [])))
        empty
        (some (codes "crm"))
      ≡ some (s, p))
    × Answers empty (codes "crm") (first ∷ second ∷ []) p
resolve-last_entry_example =
    resolve-last_entry (reading (consumers (first ∷ second ∷ []))) empty (first ∷ second ∷ [])
      (codes "crm") refl (omega arith) refl ((λ e. cc, λ e. cc), ((λ e. cc, λ e. cc), tt))

resolve-raises_example :
    (resolve (reading (consumers (first ∷ null_keys ∷ []))) empty none ≡ none)
    × (is_allowed (reading (consumers (first ∷ null_keys ∷ []))) empty none none ≡ none)
resolve-raises_example =
    resolve-raises (reading (consumers (first ∷ null_keys ∷ []))) empty none none refl (omega arith)
      (null_keys, inr (inl refl), inr refl)

abbrev calls : List Reading
calls =
    reading (consumers (second ∷ []))
    ∷ record { now = 140; file = consumers (first ∷ nameless ∷ []); loaded_at = 140 }
    ∷ []

after_calls_run : after_calls calls empty ≡ loaded
unfolding program
after_calls_run = refl

is_allowed_iff_example :
    (is_allowed (reading missing) loaded (some (codes "crm")) (some (codes "k1"))
      ≡ some (loaded, true))
    ↔ IsAllowed loaded (some (codes "crm")) (some (codes "k1"))
unfolding program
is_allowed_iff_example =
    is_allowed_iff (reading missing) loaded loaded (some (codes "crm")) (some (codes "k1")) refl

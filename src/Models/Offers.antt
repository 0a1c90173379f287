-- ===== src/Models/Offers.antt =====
-- What the items of the file offer under a name.
use privy_gate.Common.{
  ◌+◌, ◌≤◌, ◌≡◌, ◌≢◌, refl, sym, ◌∙◌, ◌⊎◌, true, inl, inr, arith, List, [], ◌∷◌, Option, none, some,
  Bool-cases, Text, codes, text_eq, text_eq_iff,
}
use mathlib.Core.Option.{some-injective}
use privy_gate.Common.Fields.{Field, absent, null, given, NoneOf, IsLast}
use privy_gate.Common.Dict
use privy_gate.Common.Dict.{Dict, get-put}
use privy_gate.Routing.{rstrip}
use privy_gate.Models.{
  ModelConfig, ModelItem, models, filled, model_or, config_of, add_models, ModelRegistry,
  ModelsReading, load_models, with_file, reload_models, resolve_model,
}

-- An item offers a name if it has that name, which is not empty, and an address that is not empty.
abbrev pub Offers : Text → ModelItem → Type 0
Offers name item =
    (item.name ≡ some name) × (name ≢ []) × (a : Text) × (item.api_base ≡ some a) × (a ≢ [])

abbrev pub IsModel : Text → Field Text → Text → Type 0
IsModel name absent m = m ≡ name
IsModel name null m = m ≡ codes "None"
IsModel name (given s) m = m ≡ s

-- The configuration that an item offers under a name: the address without slashes at its end, and
-- the model of the item, or its name if it says none.
pub record IsConfig (name : Text) (item : ModelItem) (config : ModelConfig) : Type 0 where
  pub is_offered : Offers name item
  pub is_name : config.name ≡ name
  pub address : Text
  pub is_address : item.api_base ≡ some address
  pub is_base : config.api_base ≡ rstrip b'/' address
  pub is_model : IsModel name item.model config.model

model_or-IsModel : (name : Text) (f : Field Text) → IsModel name f (model_or name f)
model_or-IsModel name absent = refl
model_or-IsModel name null = refl
model_or-IsModel name (given s) = refl

filled-cases :
    (o : Option Text)
    → ((filled o ≡ none) × ((t : Text) → o ≡ some t → t ≡ []))
      ⊎ ((t : Text) × (filled o ≡ some t) × (o ≡ some t) × (t ≢ []))
filled-cases none = inl (refl, λ t e. absurd (ground arith))
filled-cases (some []) = inl (refl, λ t e. sym (some-injective _ _ e))
filled-cases (some (c ∷ s)) = inr (c ∷ s, refl, refl, λ e. ground arith)

-- An item gives a configuration exactly if it offers one.
config_of-cases :
    (item : ModelItem)
    → ((config_of item ≡ none) × ((name : Text) → ¬ Offers name item))
      ⊎ ((config : ModelConfig) × (config_of item ≡ some config) × IsConfig config.name item config)
unfolding config_of
config_of-cases item = elim (filled-cases item.name) [
  | inl (e, empty) ↦
      inl (rw (config_of, e) refl, λ name (n, full, a, at, there). full (empty name n))
  | inr (name, e, named, full) ↦ elim (filled-cases item.api_base) [
    | inl (e', empty) ↦
        inl (rw (config_of, e, e') refl, λ n (named, full, a, at, there). there (empty a at))
    | inr (a, e', at, there) ↦ inr (
      record { name = name; api_base = rstrip b'/' a; model = model_or name item.model },
      rw (config_of, e, e') refl,
      record {
        is_offered = (named, full, a, at, there);
        is_name = refl;
        address = a;
        is_address = at;
        is_base = refl;
        is_model = model_or-IsModel name item.model;
      },
    )
  ]
]

-- What a name has: a configuration that the last item which offers it has, or what was there.
abbrev pub Outcome : Text → List ModelItem → Option ModelConfig → Option ModelConfig → Type 0
Outcome name items old new =
    ((item : ModelItem) × (config : ModelConfig) × IsLast (Offers name) item items
      × IsConfig name item config
      × (new ≡ some config))
    ⊎ (NoneOf (Offers name) items × (new ≡ old))

offered_name : (item : ModelItem) (a b : Text) → Offers a item → Offers b item → a ≡ b
offered_name item a b p q = some-injective _ _ (sym p.0 ∙ q.0)

add_models-Outcome :
    (name : Text) (items : List ModelItem) (known : Dict ModelConfig)
    → Outcome name items (Dict.get name known) (Dict.get name (add_models items known))
unfolding add_models
add_models-Outcome name [] known = inr (tt, refl)
add_models-Outcome name (item ∷ items) known = elim (config_of-cases item) [
  | inl (nothing, never) ↦ rw nothing (skipped (add_models-Outcome name items known) (never name))
  | inr (config, found, its) ↦
      let later = Dict.put config.name config known in
      rw found (
        put_offer item config its (Dict.get name (add_models items later))
          (add_models-Outcome name items later))
]
  where
    skipped :
        {new : Option ModelConfig}
        → Outcome name items (Dict.get name known) new
        → ¬ Offers name item
        → Outcome name (item ∷ items) (Dict.get name known) new
    skipped (inl (it, c, last, its, same)) never = inl (it, c, inr last, its, same)
    skipped (inr (others, same)) never = inr ((never, others), same)

    put_offer :
        (item : ModelItem) (config : ModelConfig)
        → IsConfig config.name item config
        → (new : Option ModelConfig)
        → Outcome name items (Dict.get name (Dict.put config.name config known)) new
        → Outcome name (item ∷ items) (Dict.get name known) new
    put_offer item config its new (inl (it, c, last, is, same)) = inl (it, c, inr last, is, same)
    put_offer item config its new (inr (others, same)) =
        let there = get-put name config.name config known in
        elim (Bool-cases (text_eq config.name name)) [
          | inl e ↦
              let named : config.name ≡ name = (text_eq_iff config.name name).0 e in
              let here : IsConfig name item config = rw (← named) its in
              inl
                (item, config, inl (refl, here.is_offered, others), here, same ∙ there ∙ rw e refl)
          | inr e ↦ inr (
            (
              λ offered.
                  let named : config.name ≡ name =
                    offered_name item config.name name its.is_offered offered in
                  let yes = (text_eq_iff config.name name).1 named in absurd (ground arith),
              others,
            ),
            same ∙ there ∙ rw e refl,
          )
        ]

due-reload :
    (r : ModelsReading) (s : ModelRegistry)
    → s.has_path ≡ true
    → s.last_load + s.reload_interval ≤ r.now
    → reload_models r s ≡ with_file r s r.file
unfolding reload_models load_models
due-reload r s path late = ground arith

-- Where the time since the last load is up and the file is read, `resolve` returns, and answers the
-- configuration of the last item that offers the name (an item with that name, not empty, and an
-- address that is not empty), or nothing where no item offers it.
pub resolve_model-last_offer :
    (r : ModelsReading) (s : ModelRegistry) (items : List ModelItem) (name : Text)
    → s.has_path ≡ true
    → s.last_load + s.reload_interval ≤ r.now
    → r.file ≡ models items
    → (s' : ModelRegistry) × (found : Option ModelConfig) × (resolve_model r s name
        ≡ some (s', found))
      × Outcome name items none found
unfolding resolve_model Dict.get
resolve_model-last_offer r s items name path late e =
    let due = due-reload r s path late in
    (
      record s { models = add_models items []; last_load = r.loaded_at },
      Dict.get name (add_models items []),
      rw (resolve_model, due, e) refl,
      add_models-Outcome name items [],
    )

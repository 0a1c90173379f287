-- ===== src/Models/Loading.antt =====
-- The registry of models keeps each model under its own name.
use privy_gate.Common.{
  ◌+◌, ◌≡◌, ◌≢◌, refl, sym, ap, inl, inr, arith, List, [], ◌∷◌, Option, none, some, Option-cases,
  Bool-cases, All, Text, text_eq, text_eq_iff, ltb,
}
use mathlib.Core.Option.{some-injective}
use privy_gate.Common.Dict
use privy_gate.Common.Dict.{Dict}
use privy_gate.Models.{
  ModelConfig, ModelItem, ModelsFile, missing, unreadable, undecodable, misshapen, models, filled,
  config_of, add_models, ModelRegistry, ModelsReading, load_models, with_file, reload_models,
  resolve_model,
}

-- Every model is under its own name, which is not empty.
abbrev pub AreNamed : Dict ModelConfig → Type 0
AreNamed = All (λ e. (e.0 ≡ e.1.name) × (e.0 ≢ []))

put-AreNamed :
    (config : ModelConfig) (known : Dict ModelConfig)
    → config.name ≢ []
    → AreNamed known
    → AreNamed (Dict.put config.name config known)
unfolding Dict.put
put-AreNamed config [] h a = ((refl, h), tt)
put-AreNamed config ((name, old) ∷ known) h a = elim (Bool-cases (text_eq name config.name)) [
  | inl e ↦
      let same = (text_eq_iff name config.name).0 e in rw (Dict.put, e) ((same, rw same h), a.1)
  | inr e ↦ rw (Dict.put, e) (a.0, put-AreNamed config known h a.1)
]

filled-full : (o : Option Text) (s : Text) → filled o ≡ some s → s ≢ []
filled-full none s h = absurd (ground arith)
filled-full (some []) s h = absurd (ground arith)
filled-full (some (c ∷ t)) s h = λ e. ground arith

config_of-named :
    (item : ModelItem) (config : ModelConfig) → config_of item ≡ some config → config.name ≢ []
unfolding config_of
config_of-named item config h = elim (Option-cases (filled item.name)) [
  | inl e ↦ absurd (ground arith)
  | inr (name, e) ↦ elim (Option-cases (filled item.api_base)) [
    | inl e' ↦ absurd (ground arith)
    | inr (api_base, e') ↦
        let same : name ≡ config.name =
          ap (λ c. c.name) (some-injective _ _ (rw (config_of, e, e') at h)) in
        rw (← same) (filled-full item.name name e)
  ]
]

add_models-AreNamed :
    (items : List ModelItem) (known : Dict ModelConfig)
    → AreNamed known
    → AreNamed (add_models items known)
unfolding add_models
add_models-AreNamed [] known a = a
add_models-AreNamed (item ∷ items) known a = elim (Option-cases (config_of item)) [
  | inl e ↦ rw (add_models, e) (add_models-AreNamed items known a)
  | inr (config, e) ↦
      rw (add_models, e)
        (add_models-AreNamed items _ (put-AreNamed config known (config_of-named item config e) a))
]

with_file-AreNamed :
    (r : ModelsReading) (s s' : ModelRegistry) (f : ModelsFile)
    → AreNamed s.models
    → with_file r s f ≡ some s'
    → AreNamed s'.models
with_file-AreNamed r s s' missing a h = rw (← some-injective _ _ h) a
with_file-AreNamed r s s' unreadable a h = rw (← some-injective _ _ h) a
with_file-AreNamed r s s' undecodable a h = absurd (ground arith)
with_file-AreNamed r s s' misshapen a h = absurd (ground arith)
with_file-AreNamed r s s' (models items) a h =
    rw (← some-injective _ _ h) (add_models-AreNamed items [] tt)

reload_models-AreNamed :
    (r : ModelsReading) (s s' : ModelRegistry)
    → AreNamed s.models
    → reload_models r s ≡ some s'
    → AreNamed s'.models
unfolding reload_models load_models
reload_models-AreNamed r s s' a h = elim (Bool-cases s.has_path) [
  | inr none_given ↦ let same : s ≡ s' = ground arith in rw (← same) a
  | inl path ↦ elim (Bool-cases (ltb r.now (s.last_load + s.reload_interval))) [
    | inl early ↦ let same : s ≡ s' = ground arith in rw (← same) a
    | inr late ↦ with_file-AreNamed r s s' r.file a (ground arith)
  ]
]

get-AreNamed :
    (name : Text) (known : Dict ModelConfig) (config : ModelConfig)
    → AreNamed known
    → Dict.get name known ≡ some config
    → (config.name ≡ name) × (name ≢ [])
unfolding Dict.get
get-AreNamed name [] config a h = absurd (ground arith)
get-AreNamed name ((k, c) ∷ known) config a h = elim (Bool-cases (text_eq k name)) [
  | inr e ↦ get-AreNamed name known config a.1 (rw (Dict.get, e) at h)
  | inl e ↦
      let same = (text_eq_iff k name).0 e in
      let it = some-injective _ _ (rw (Dict.get, e) at h) in rw (← it, ← same) (sym a.0.0, a.0.1)
]

-- In a registry whose models are each under their own name, not empty, a name that is resolved is
-- the name of the configuration, and the registry is such a registry again.
pub resolve_model-AreNamed :
    (r : ModelsReading) (s s' : ModelRegistry) (name : Text) (config : ModelConfig)
    → AreNamed s.models
    → resolve_model r s name ≡ some (s', some config)
    → (config.name ≡ name) × (name ≢ []) × AreNamed s'.models
unfolding resolve_model
resolve_model-AreNamed r s s' name config a h = elim (Option-cases (reload_models r s)) [
  | inl raised ↦ absurd (ground arith)
  | inr (t, reloaded) ↦
      let pair : (t, Dict.get name t.models) ≡ (s', some config) =
        some-injective _ _ (rw (resolve_model, reloaded) at h) in
      let same : t ≡ s' = ap (λ p. p.0) pair in
      let kept = reload_models-AreNamed r s t a reloaded in
      let (named, full) = get-AreNamed name t.models config kept (ap (λ p. p.1) pair) in
      (named, full, rw (← same) kept)
]

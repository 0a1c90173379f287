-- ===== src/Policy/Allowed.antt =====
-- Whom the registry lets in, and what a policy masks.
use privy_gate.Common.{
  ◌≡◌, ◌↔◌, refl, sym, ap, ◌∙◌, Bool, true, false, not, ◌⊎◌, inl, inr, arith, List, [], ◌∷◌, Option,
  none, some, In, Option-cases, Bool-cases, Text, text_eq, text_eq_iff, In-keep_if, keep_if-In,
  if◌then◌else◌,
}
use mathlib.Core.Option.{some-injective}
use privy_gate.Common.Dict
use privy_gate.Common.Dict.{Dict}
use privy_gate.Policy.{
  ConsumerPolicy, ConsumerEntry, has_text, effective_pii_types, PolicyRegistry, Reading,
  maybe_reload, has_key, no_keys, allows, permits, is_allowed,
}

has_text→In : (x : Text) (s : List Text) → has_text x s ≡ true → In x s
has_text→In x [] h = absurd (ground arith)
has_text→In x (y ∷ s) h = elim (Bool-cases (text_eq y x)) [
  | inl e ↦ inl (sym ((text_eq_iff y x).0 e))
  | inr e ↦ inr (has_text→In x s (ground arith))
]

In→has_text : (x : Text) (s : List Text) → In x s → has_text x s ≡ true
In→has_text x [] i = absurd i
In→has_text x (y ∷ s) (inl e) = let same = (text_eq_iff y x).1 (sym e) in rw same refl
In→has_text x (y ∷ s) (inr i) = let later = In→has_text x s i in ground arith

-- An identity that is registered and enabled, without keys of its own or with the key given.
pub record IsAllowed (s : PolicyRegistry) (consumer_id api_key : Option Text) : Type 0 where
  pub id : Text
  pub is_given : consumer_id ≡ some id
  pub entry : ConsumerEntry
  pub is_registered : Dict.get id s.entries ≡ some entry
  pub is_enabled : entry.policy.enabled ≡ true
  pub key_fits : (entry.api_keys ≡ []) ⊎ ((k : Text) × (api_key ≡ some k) × In k entry.api_keys)

allows-key :
    (api_key : Option Text) (keys : List Text)
    → (if no_keys keys then true else has_key api_key keys) ≡ true
    → (keys ≡ []) ⊎ ((k : Text) × (api_key ≡ some k) × In k keys)
allows-key api_key [] h = inl refl
allows-key none (k ∷ ks) h = absurd (ground arith)
allows-key (some key) (k ∷ ks) h = inr (key, refl, has_text→In key (k ∷ ks) h)

key-allows :
    (api_key : Option Text) (keys : List Text)
    → (keys ≡ []) ⊎ ((k : Text) × (api_key ≡ some k) × In k keys)
    → (if no_keys keys then true else has_key api_key keys) ≡ true
key-allows api_key keys (inl e) = rw e refl
key-allows api_key [] (inr p) = refl
key-allows api_key (k ∷ ks) (inr (key, given, i)) = rw given (In→has_text key (k ∷ ks) i)

permits→IsAllowed :
    (s : PolicyRegistry) (consumer_id api_key : Option Text)
    → permits s consumer_id api_key ≡ true
    → IsAllowed s consumer_id api_key
unfolding allows
permits→IsAllowed s none api_key h = absurd (ground arith)
permits→IsAllowed s (some id) api_key h = elim (Option-cases (Dict.get id s.entries)) [
  | inl e ↦ absurd (ground arith)
  | inr (entry, e) ↦
      let a : allows api_key entry ≡ true = rw e at h in
      elim (Bool-cases entry.policy.enabled) [
        | inr off ↦ absurd (ground arith)
        | inl on ↦ record {
          id = id;
          is_given = refl;
          entry = entry;
          is_registered = e;
          is_enabled = on;
          key_fits = allows-key api_key entry.api_keys (ground arith);
        }
      ]
]

IsAllowed→permits :
    (s : PolicyRegistry) (consumer_id api_key : Option Text)
    → IsAllowed s consumer_id api_key
    → permits s consumer_id api_key ≡ true
unfolding allows
IsAllowed→permits s consumer_id api_key a =
    let fits = key-allows api_key a.entry.api_keys a.key_fits in
    let given = a.is_given in
    let there = a.is_registered in let on = a.is_enabled in rw (given, there, on, allows) fits

pub is_allowed-maybe_reload :
    (r : Reading) (s s' : PolicyRegistry) (consumer_id api_key : Option Text) (b : Bool)
    → is_allowed r s consumer_id api_key ≡ some (s', b)
    → maybe_reload r s ≡ some s'
unfolding is_allowed
is_allowed-maybe_reload r s s' consumer_id api_key b h = elim (Option-cases (maybe_reload r s)) [
  | inl raised ↦ absurd (ground arith)
  | inr (t, found) ↦
      let pair = some-injective _ _ (rw (is_allowed, found) at h) in
      found ∙ ap some (ap (λ x. x.0) pair)
]

-- Where the registry, reloaded if its time is up, is `s'`, `is_allowed` lets a call in exactly if
-- its identity is given, registered in `s'` and enabled, and has no keys or the key that is given.
pub is_allowed_iff :
    (r : Reading) (s s' : PolicyRegistry) (consumer_id api_key : Option Text)
    → maybe_reload r s ≡ some s'
    → (is_allowed r s consumer_id api_key ≡ some (s', true)) ↔ IsAllowed s' consumer_id api_key
unfolding is_allowed
is_allowed_iff r s s' consumer_id api_key h = (
  λ e.
      let same : some (s', permits s' consumer_id api_key) ≡ some (s', true) =
        rw (is_allowed, h) at e in
      permits→IsAllowed s' consumer_id api_key (ap (λ p. p.1) (some-injective _ _ same)),
  λ a. let yes = IsAllowed→permits s' consumer_id api_key a in rw (is_allowed, h, yes) refl,
)

-- A type is masked for a consumer exactly if its policy has it among the enabled types and not
-- among the excluded ones.
pub effective_pii_types_iff :
    (p : ConsumerPolicy) (t : Text)
    → In t (effective_pii_types p) ↔ (In t p.enabled_pii_types × ¬ In t p.excluded_pii_types)
unfolding effective_pii_types
effective_pii_types_iff p t = (
  λ i.
      let (j, h) = In-keep_if outside p.enabled_pii_types t i in
      (j, λ k. let e = In→has_text t p.excluded_pii_types k in ground arith),
  λ h.
      keep_if-In outside p.enabled_pii_types t h.0
        (outside_if (has_text t p.excluded_pii_types) refl h.1),
)
  where
    outside : Text → Bool
    outside t = not (has_text t p.excluded_pii_types)

    outside_if :
        (b : Bool)
        → b ≡ has_text t p.excluded_pii_types
        → ¬ In t p.excluded_pii_types
        → not b ≡ true
    outside_if false e h = refl
    outside_if true e h = absurd (h (has_text→In t p.excluded_pii_types (sym e)))

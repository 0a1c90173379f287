-- ===== src/Policy/Items.antt =====
-- What an item of the file says of its consumer.
use privy_gate.Common.{
  ◌≡◌, ◌≢◌, ◌↔◌, refl, sym, ◌∙◌, ◌⊎◌, Bool, true, false, inl, inr, arith, List, [], Option, none,
  some, In, Text, codes, Option-cases,
}
use privy_gate.Common.Fields.{Field, absent, null, given}
use privy_gate.Mask.{typed_placeholder, fail_closed}
use privy_gate.Policy.{
  effective_pii_types, ConsumerEntry, Item, truth, or_default, id_of, keys_of, all_pii_types,
  policy_of, parse_policy, entry_of,
}
use privy_gate.Policy.Allowed.{effective_pii_types_iff}

-- The identity of an item: its text, or `None` for a null.
abbrev pub IsId : Field Text → Text → Type 0
IsId absent id = ⊥
IsId null id = codes "None" ≡ id
IsId (given t) id = t ≡ id

abbrev pub HasId : Text → Item → Type 0
HasId id item = IsId item.consumer_id id

-- A type that an item lists under a key, where one that it does not list has a default.
abbrev pub Lists : Type 0 → Option (List Text) → Text → Type 0
Lists default none t = default
Lists default (some ts) t = In t ts

abbrev pub HasKey : Field (List Text) → Text → Type 0
HasKey (given keys) k = In k keys
HasKey _ k = ⊥

abbrev pub IsOff : Field Bool → Type 0
IsOff f = (f ≡ null) ⊎ (f ≡ given false)

module _ {A : Type 0} where
  -- A value that is given, or the default.
  abbrev pub IsOr : A → Option A → A → Type 0
  IsOr d none a = a ≡ d
  IsOr d (some b) a = a ≡ b

  IsOr-default : (d : A) (o : Option A) → IsOr d o (or_default d o)
  IsOr-default d none = refl
  IsOr-default d (some b) = refl

-- What an item says of its consumer: it is off, and must not demask, only if the item says so or has
-- null there; it masks the types that are enabled (all the built-in ones by default) and not
-- excluded (none by default); its keys are those listed; the rule for PINs is off only if the item
-- says so or has null there; the rest is as the item says, or the default.
pub record Describes (item : Item) (entry : ConsumerEntry) : Type 0 where
  pub has_id : HasId entry.policy.consumer_id item
  pub is_off : (entry.policy.enabled ≡ false) ↔ IsOff item.enabled
  pub keeps_masks : (entry.policy.allow_demasking ≡ false) ↔ IsOff item.allow_demasking
  pub masks :
      (t : Text)
      → In t (effective_pii_types entry.policy) ↔ (
          Lists (In t all_pii_types) item.enabled_pii_types t × ¬ Lists ⊥ item.excluded_pii_types t)
  pub drops_card : (entry.policy.require_card_for_pin ≡ false) ↔ IsOff item.require_card_for_pin
  pub is_confident : entry.policy.min_confidence ≡ item.min_confidence
  pub is_mode : IsOr typed_placeholder item.masking_mode entry.policy.masking_mode
  pub is_degraded : IsOr fail_closed item.degradation entry.policy.degradation
  pub has_terms : IsOr [] item.custom_terms entry.policy.custom_terms
  pub is_quota : entry.policy.max_tokens_per_request ≡ item.max_tokens_per_request
  pub has_keys : (k : Text) → In k entry.api_keys ↔ HasKey item.api_keys k

-- An item with a consumer_id, null or not, and without a null for its keys.
abbrev pub Loads : Item → Type 0
Loads item = (item.consumer_id ≢ absent) × (item.api_keys ≢ null)

truth_iff : (f : Field Bool) → (truth true f ≡ false) ↔ IsOff f
truth_iff absent = (λ e. absurd (ground arith), λ o. elim o [ inl e ↦ cc | inr e ↦ cc ])
truth_iff null = (λ e. inl refl, λ o. refl)
truth_iff (given true) = (λ e. absurd (ground arith), λ o. elim o [ inl e ↦ cc | inr e ↦ cc ])
truth_iff (given false) = (λ e. inr refl, λ o. refl)

Lists-or :
    (o : Option (List Text)) (d : List Text) (t : Text) → In t (or_default d o) ↔ Lists (In t d) o t
Lists-or none d t = (λ i. i, λ i. i)
Lists-or (some ts) d t = (λ i. i, λ i. i)

masks_iff :
    (id : Text) (item : Item) (t : Text)
    → In t (effective_pii_types (policy_of id item))
      ↔ (Lists (In t all_pii_types) item.enabled_pii_types t × ¬ Lists ⊥ item.excluded_pii_types t)
masks_iff id item t =
    let (to, from) = effective_pii_types_iff (policy_of id item) t in
    let on = Lists-or item.enabled_pii_types all_pii_types t in
    let out = Lists-or item.excluded_pii_types [] t in
    (
      λ i. let (a, b) = to i in (on.0 a, λ x. b (out.1 x)),
      λ (p : Lists (In t all_pii_types) item.enabled_pii_types t
            × ¬ Lists ⊥ item.excluded_pii_types t).
          from (on.1 p.0, λ x. p.1 (out.0 x)),
    )

id_of-IsId : (f : Field Text) → f ≢ absent → (id : Text) × (id_of f ≡ some id) × IsId f id
id_of-IsId absent h = absurd (h refl)
id_of-IsId null h = (codes "None", refl, refl)
id_of-IsId (given t) h = (t, refl, refl)

keys_of-HasKey :
    (f : Field (List Text))
    → f ≢ null
    → (keys : List Text) × (keys_of f ≡ some keys) × ((k : Text) → In k keys ↔ HasKey f k)
keys_of-HasKey absent h = ([], refl, λ k. (λ i. i, λ i. i))
keys_of-HasKey null h = absurd (h refl)
keys_of-HasKey (given keys) h = (keys, refl, λ k. (λ i. i, λ i. i))

pub entry_of-Describes :
    (item : Item)
    → Loads item
    → (entry : ConsumerEntry) × (entry_of item ≡ some entry) × Describes item entry
unfolding entry_of parse_policy
entry_of-Describes item (there, listed) =
    let (id, known, is_id) = id_of-IsId item.consumer_id there in
    let (keys, given_keys, has_keys) = keys_of-HasKey item.api_keys listed in
    (
      record { policy = policy_of id item; api_keys = keys },
      rw (entry_of, parse_policy, known, given_keys) refl,
      record {
        has_id = is_id;
        is_off = truth_iff item.enabled;
        keeps_masks = truth_iff item.allow_demasking;
        masks = masks_iff id item;
        drops_card = truth_iff item.require_card_for_pin;
        is_confident = refl;
        is_mode = IsOr-default typed_placeholder item.masking_mode;
        is_degraded = IsOr-default fail_closed item.degradation;
        has_terms = IsOr-default [] item.custom_terms;
        is_quota = refl;
        has_keys = has_keys;
      },
    )

-- An item that raises.
abbrev pub BreaksItem : Item → Type 0
BreaksItem item = (item.consumer_id ≡ absent) ⊎ (item.api_keys ≡ null)

pub entry_of-raises : (item : Item) → BreaksItem item → entry_of item ≡ none
unfolding entry_of parse_policy
entry_of-raises item (inl e) = rw (entry_of, parse_policy, e) refl
entry_of-raises item (inr e) = elim (Option-cases (parse_policy item)) [
  | inl raised ↦ rw (entry_of, raised) refl
  | inr (policy, found) ↦ rw (entry_of, found, e) refl
]

pub IsId-unique : (f : Field Text) (a b : Text) → IsId f a → IsId f b → a ≡ b
IsId-unique absent a b p q = absurd p
IsId-unique null a b p q = sym p ∙ q
IsId-unique (given t) a b p q = sym p ∙ q

-- ===== src/Policy/Loading.antt =====
-- What a load of the file leaves in the registry.
use privy_gate.Common.{
  ◌+◌, ◌≤◌, ◌≡◌, refl, ap, ◌∙◌, ◌⊎◌, true, inl, inr, arith, List, [], ◌∷◌, Option, none, some, All,
  In, Text, text_eq, text_eq_iff, Bool-cases, Option-cases,
}
use privy_gate.Common.Fields.{NoneOf, IsLast}
use privy_gate.Common.Dict
use privy_gate.Common.Dict.{Dict, get-put}
use privy_gate.Policy.{
  ConsumerPolicy, ConsumerEntry, Item, ConfigFile, missing, unreadable, undecodable, misshapen,
  consumers, or_default, entry_of, add_entries, PolicyRegistry, Reading, load, maybe_reload,
  policy_or, resolve, is_allowed,
}
use privy_gate.Policy.Items.{
  HasId, Describes, Loads, entry_of-Describes, BreaksItem, entry_of-raises, IsId-unique,
}

-- What an id is given: an entry that the last item of that id describes, or what was there.
abbrev pub Outcome : Text → List Item → Option ConsumerEntry → Option ConsumerEntry → Type 0
Outcome id items old new =
    ((item : Item) × (entry : ConsumerEntry) × IsLast (HasId id) item items
      × Describes item entry
      × (new ≡ some entry))
    ⊎ (NoneOf (HasId id) items × (new ≡ old))

put-Outcome :
    (id : Text) (item : Item) (items : List Item) (entry : ConsumerEntry)
    (entries : Dict ConsumerEntry) (new : Option ConsumerEntry)
    → Describes item entry
    → Outcome id items (Dict.get id (Dict.put entry.policy.consumer_id entry entries)) new
    → Outcome id (item ∷ items) (Dict.get id entries) new
put-Outcome id item items entry entries new d (inl (it, e, last, its, same)) =
    inl (it, e, inr last, its, same)
put-Outcome id item items entry entries new d (inr (others, same)) =
    let own = entry.policy.consumer_id in
    let there = get-put id own entry entries in
    elim (Bool-cases (text_eq own id)) [
      | inl e ↦
          let named : own ≡ id = (text_eq_iff own id).0 e in
          inl (item, entry, inl (refl, rw (← named) d.has_id, others), d, same ∙ there ∙ rw e refl)
      | inr e ↦ inr (
        (
          λ h.
              let named : own ≡ id = IsId-unique item.consumer_id own id d.has_id h in
              let yes = (text_eq_iff own id).1 named in absurd (ground arith),
          others,
        ),
        same ∙ there ∙ rw e refl,
      )
    ]

add_entries-Outcome :
    (id : Text) (items : List Item) (entries : Dict ConsumerEntry)
    → All Loads items
    → (es : Dict ConsumerEntry) × (add_entries items entries ≡ some es)
      × Outcome id items (Dict.get id entries) (Dict.get id es)
unfolding add_entries
add_entries-Outcome id [] entries h = (entries, refl, inr (tt, refl))
add_entries-Outcome id (item ∷ items) entries h =
    let (entry, found, d) = entry_of-Describes item h.0 in
    let (es, loaded, out) =
      add_entries-Outcome id items (Dict.put entry.policy.consumer_id entry entries) h.1 in
    (es, rw (add_entries, found) loaded, put-Outcome id item items entry entries _ d out)

-- The policy that is answered: that of an entry which the last item of the id describes, or the
-- default one where no item has the id.
abbrev pub Answers : PolicyRegistry → Text → List Item → ConsumerPolicy → Type 0
Answers s id items p =
    ((item : Item) × (entry : ConsumerEntry) × IsLast (HasId id) item items
      × Describes item entry
      × (p ≡ entry.policy))
    ⊎ (NoneOf (HasId id) items × (p ≡ s.default_policy))

Outcome-Answers :
    (s : PolicyRegistry) (id : Text) (items : List Item) (new : Option ConsumerEntry)
    → Outcome id items none new
    → Answers s id items (policy_or s.default_policy new)
Outcome-Answers s id items new (inl (item, entry, last, d, e)) =
    inl (item, entry, last, d, ap (policy_or s.default_policy) e)
Outcome-Answers s id items new (inr (others, e)) = inr (others, ap (policy_or s.default_policy) e)

due-load :
    (r : Reading) (s : PolicyRegistry)
    → s.has_path ≡ true
    → s.last_load + s.reload_interval ≤ r.now
    → maybe_reload r s ≡ load r s
unfolding maybe_reload
due-load r s path late = ground arith

-- Where the time since the last load is up and each item of the file has a consumer_id (null is
-- read as `None`) and no null for its keys, `resolve` returns, and answers the policy that the last
-- item of the id describes, or the default policy where no item has the id.
pub resolve-last_entry :
    (r : Reading) (s : PolicyRegistry) (items : List Item) (id : Text)
    → s.has_path ≡ true
    → s.last_load + s.reload_interval ≤ r.now
    → r.file ≡ consumers items
    → All Loads items
    → (s' : PolicyRegistry) × (p : ConsumerPolicy) × (resolve r s (some id) ≡ some (s', p))
      × Answers s id items p
unfolding resolve load Dict.get
resolve-last_entry r s items id path late e h =
    let (es, loaded, out) = add_entries-Outcome id items [] h in
    let due = due-load r s path late in
    (
      record s { entries = es; last_load = r.loaded_at },
      policy_or s.default_policy (Dict.get id es),
      rw (resolve, due, load, e, loaded) refl,
      Outcome-Answers s id items (Dict.get id es) out,
    )

-- A file that cannot be decoded, is of another shape, or has an item without a consumer_id or with
-- a null for its keys.
abbrev pub Breaks : ConfigFile → Type 0
Breaks missing = ⊥
Breaks unreadable = ⊥
Breaks undecodable = Unit
Breaks misshapen = Unit
Breaks (consumers items) = (item : Item) × In item items × BreaksItem item

add_entries-raises :
    (items : List Item) (entries : Dict ConsumerEntry) (item : Item)
    → In item items
    → BreaksItem item
    → add_entries items entries ≡ none
unfolding add_entries
add_entries-raises [] entries item i h = absurd i
add_entries-raises (x ∷ items) entries item i h = elim (Option-cases (entry_of x)) [
  | inl raised ↦ rw (add_entries, raised) refl
  | inr (entry, found) ↦
      let later = Dict.put entry.policy.consumer_id entry entries in
      elim i [
        | inl same ↦
            let raised : entry_of x ≡ none = rw (← same) (entry_of-raises item h) in
            absurd (ground arith)
        | inr i ↦ rw (add_entries, found) (add_entries-raises items later item i h)
      ]
]

load-raises :
    (r : Reading) (s : PolicyRegistry) (f : ConfigFile) → r.file ≡ f → Breaks f → load r s ≡ none
unfolding load
load-raises r s missing e b = absurd b
load-raises r s unreadable e b = absurd b
load-raises r s undecodable e b = rw (load, e) refl
load-raises r s misshapen e b = rw (load, e) refl
load-raises r s (consumers items) e (item, i, h) =
    let raised = add_entries-raises items [] item i h in rw (load, e, raised) refl

-- Where the time since the last load is up and the file is not UTF-8, is JSON of another shape, or
-- has an item without a consumer_id or with a null for its keys, `resolve` and `is_allowed` raise,
-- whatever was loaded before.
pub resolve-raises :
    (r : Reading) (s : PolicyRegistry) (consumer_id api_key : Option Text)
    → s.has_path ≡ true
    → s.last_load + s.reload_interval ≤ r.now
    → Breaks r.file
    → (resolve r s consumer_id ≡ none) × (is_allowed r s consumer_id api_key ≡ none)
unfolding resolve is_allowed
resolve-raises r s consumer_id api_key path late b =
    let due = due-load r s path late in
    let raised = load-raises r s r.file refl b in
    (rw (resolve, due, raised) refl, rw (is_allowed, due, raised) refl)

-- The registry after calls, each with what it found; one that raises leaves it as it was.
abbrev pub after_calls : List Reading → PolicyRegistry → PolicyRegistry
after_calls [] s = s
after_calls (r ∷ rs) s = after_calls rs (or_default s (maybe_reload r s))

-- The entries are those of one of the files that were read, whole.
abbrev pub IsLoaded : List Reading → Dict ConsumerEntry → Type 0
IsLoaded rs es =
    (r : Reading) × (items : List Item) × In r rs
    × (r.file ≡ consumers items)
    × (add_entries items [] ≡ some es)

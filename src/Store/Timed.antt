-- ===== src/Store/Timed.antt =====
-- The invariant of the expiry heap, as a predicate: it is in order, every session has its entry in it, an entry
-- of the version of its session has the expiry of that session, and no version is ahead of the
-- counter.
use privy_gate.Common.{
  ℕ, suc, ◌≤◌, ◌≡◌, ◌∙◌, ap, inl, inr, List, ◌∷◌, none, some, Text, arith, ◌==◌, All, In, insert_by,
  ◌≢◌, text_eq_iff, if◌then◌else◌,
}
use privy_gate.Common.Dict
use privy_gate.Common.Dict.{Dict, get-remove, get-put_inv}
use privy_gate.Store.{ProcessSession, ExpiryEntry, expiry_leb}
use privy_gate.Store.Heap.{
  IsOrdered, insert_by-IsOrdered, In-insert_by, In-insert_by_self, In-insert_by_inv, All-In,
  All-insert_by_version, All-version_weaken,
}

abbrev pub entry_of : Text → ProcessSession → ExpiryEntry
entry_of id session = record {
  expires_at = session.expires_at;
  version = session.version;
  payload_id = id;
}

pub record Timed (heap : List ExpiryEntry) (sessions : Dict ProcessSession) (counter : ℕ)
    : Type 0 where
  pub ordered : IsOrdered heap
  pub covers :
      (id : Text) (session : ProcessSession)
      → Dict.get id sessions ≡ some session
      → In (entry_of id session) heap
  pub honest :
      (session : ProcessSession) (e : ExpiryEntry)
      → Dict.get e.payload_id sessions ≡ some session
      → In e heap
      → e.version ≡ session.version
      → e.expires_at ≡ session.expires_at
  pub counted : All (λ e. e.version ≤ counter) heap

-- What a round of the eviction does to the sessions.
unfoldable pub drop_due : ExpiryEntry → Dict ProcessSession → Dict ProcessSession
drop_due e sessions = elim (Dict.get e.payload_id sessions) [
  | none ↦ sessions
  | some session ↦
      if session.version == e.version then Dict.remove e.payload_id sessions else sessions
]

-- A session that is there after the round was there before, and is not that of the entry.
get-drop_due :
    (e : ExpiryEntry) (sessions : Dict ProcessSession) (id : Text) {session : ProcessSession}
    → Dict.get id (drop_due e sessions) ≡ some session
    → (Dict.get id sessions ≡ some session) × (entry_of id session ≢ e)
unfolding drop_due
get-drop_due e sessions id {session} h = (
  ground (arith, get-remove id e.payload_id sessions),
  λ same. ground (
    arith,
    get-remove id e.payload_id sessions,
    text_eq_iff e.payload_id id,
    ap (λ (f : ExpiryEntry). f.version) same,
    ap (λ (f : ExpiryEntry). f.payload_id) same,
  ),
)

pub Timed-drop_due :
    (e : ExpiryEntry) (heap : List ExpiryEntry) (sessions : Dict ProcessSession) (counter : ℕ)
    → Timed (e ∷ heap) sessions counter
    → Timed heap (drop_due e sessions) counter
Timed-drop_due e heap sessions counter t = record {
  ordered = t.ordered.1;
  covers = λ id session h.
      let (old, other) = get-drop_due e sessions id h in
      elim (t.covers id session old) [ inl here ↦ absurd (other here) | inr there ↦ there ];
  honest =
      λ session f h i v. t.honest session f (get-drop_due e sessions f.payload_id h).0 (inr i) v;
  counted = t.counted.1;
}

-- A session with the next version takes the place of what its id had, and its entry is pushed.
pub Timed-push :
    (id : Text) (session : ProcessSession) (heap : List ExpiryEntry)
    (sessions : Dict ProcessSession) (counter : ℕ)
    → session.version ≡ suc counter
    → Timed heap sessions counter
    → Timed
        (insert_by expiry_leb (entry_of id session) heap)
        (Dict.put id session sessions)
        (suc counter)
Timed-push id session heap sessions counter next t = record {
  ordered = insert_by-IsOrdered (entry_of id session) heap t.ordered;
  covers = λ j other h. elim (get-put_inv j id session sessions h) [
    | inl (here, is_new) ↦ rw (here, is_new) (In-insert_by_self (entry_of id session) heap)
    | inr old ↦ In-insert_by _ _ heap (t.covers j other old)
  ];
  honest = λ other f h i v. elim (In-insert_by_inv f (entry_of id session) heap i) [
    | inl new ↦ elim (get-put_inv f.payload_id id session sessions h) [
      | inl (here, is_new) ↦ rw (new, is_new)
      | inr old ↦ absurd (
          omega (
            arith,
            next,
            v,
            ap (λ (e : ExpiryEntry). e.version) new,
            All-In counter _ heap t.counted (t.covers f.payload_id other old),
          ))
    ]
    | inr there ↦ elim (get-put_inv f.payload_id id session sessions h) [
      | inl (here, is_new) ↦ absurd (
          omega (
            arith,
            next,
            v,
            ap (λ (x : ProcessSession). x.version) is_new,
            All-In counter f heap t.counted there,
          ))
      | inr old ↦ t.honest other f old there v
    ]
  ];
  counted =
      All-insert_by_version (suc counter) (entry_of id session) heap (omega arith)
        (All-version_weaken counter heap t.counted);
}

-- A session that keeps its version and its expiry takes the place of the one that is there.
pub Timed-update :
    (id : Text) (session : ProcessSession) (heap : List ExpiryEntry)
    (sessions : Dict ProcessSession) (counter : ℕ) {old : ProcessSession}
    → Dict.get id sessions ≡ some old
    → session.version ≡ old.version
    → session.expires_at ≡ old.expires_at
    → Timed heap sessions counter
    → Timed heap (Dict.put id session sessions) counter
Timed-update id session heap sessions counter {old} there v x t = record {
  ordered = t.ordered;
  covers = λ j other h. elim (get-put_inv j id session sessions h) [
    | inl (here, is_new) ↦ rw (here, is_new, v, x) (t.covers id old there)
    | inr kept ↦ t.covers j other kept
  ];
  honest = λ other f h i w. elim (get-put_inv f.payload_id id session sessions h) [
    | inl (here, is_new) ↦
        rw (is_new, x)
          (t.honest old f (rw here there) i (w ∙ ap (λ (y : ProcessSession). y.version) is_new ∙ v))
    | inr kept ↦ t.honest other f kept i w
  ];
  counted = t.counted;
}

pub Timed-remove :
    (id : Text) (heap : List ExpiryEntry) (sessions : Dict ProcessSession) (counter : ℕ)
    → Timed heap sessions counter
    → Timed heap (Dict.remove id sessions) counter
Timed-remove id heap sessions counter t = record {
  ordered = t.ordered;
  covers = λ j other h. t.covers j other (ground (arith, get-remove j id sessions));
  honest =
      λ other f h i w. t.honest other f (ground (arith, get-remove f.payload_id id sessions)) i w;
  counted = t.counted;
}

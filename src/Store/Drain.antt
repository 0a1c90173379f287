-- ===== src/Store/Drain.antt =====
-- The eviction loop over the expiry heap: what it leaves of the sessions, and its invariant.
use privy_gate.Common.{
  ℕ, ◌≡◌, refl, sym, ◌∙◌, ap, Bool-cases, inl, inr, true, false, List, [], ◌∷◌, Option, none, some,
  Text, arith, ltb, leb, ◌==◌, Option-cases, text_eq_iff, if◌then◌else◌, ltb→lt, ==_iff,
}
use privy_gate.Common.Dict
use privy_gate.Common.Dict.{Dict, get-remove}
use privy_gate.Store.{Config, Store, ProcessSession, ExpiryEntry, read_time}
use privy_gate.Store.Evict.{evict_session, evict_entry, evict_loop, at_limit, pop_pending, pop_all}
use privy_gate.Store.Heap.{In-later, All-later}
use privy_gate.Store.Timed.{Timed, drop_due, Timed-drop_due, Timed-remove}
use privy_gate.Store.Trim.{Frame-bury, Frame-trim_tombstones}

abbrev pub IsTimed : Store → Type 0
IsTimed s = Timed s.expiry_heap s.sessions s.version_counter

-- What is left of a session at the time `now`: nothing, if its expiry has come.
abbrev pub alive : ℕ → Option ProcessSession → Option ProcessSession
alive now none = none
alive now (some session) = if leb session.expires_at now then none else some session

module _ (c : Config) where
  -- An eviction touches one session, and neither the heap nor the counter of the versions.
  pub sessions-evict_session :
      (id : Text) (session : ProcessSession) (s : Store)
      → (evict_session c id session s).sessions ≡ Dict.remove id s.sessions
  unfolding evict_session
  sessions-evict_session id session s =
      (Frame-trim_tombstones c _).sessions ∙ (Frame-bury c (read_time c s) id _).sessions

  heap-evict_session :
      (id : Text) (session : ProcessSession) (s : Store)
      → (evict_session c id session s).expiry_heap ≡ s.expiry_heap
  unfolding evict_session
  heap-evict_session id session s =
      (Frame-trim_tombstones c _).expiry_heap ∙ (Frame-bury c (read_time c s) id _).expiry_heap

  counter-evict_session :
      (id : Text) (session : ProcessSession) (s : Store)
      → (evict_session c id session s).version_counter ≡ s.version_counter
  unfolding evict_session
  counter-evict_session id session s =
      (Frame-trim_tombstones c _).version_counter
      ∙ (Frame-bury c (read_time c s) id _).version_counter

  pub evict_session-IsTimed :
      (id : Text) (session : ProcessSession) (s : Store)
      → IsTimed s
      → IsTimed (evict_session c id session s)
  evict_session-IsTimed id session s t =
      rw
        (
          sessions-evict_session id session s,
          heap-evict_session id session s,
          counter-evict_session id session s,
        )
        (Timed-remove id s.expiry_heap s.sessions s.version_counter t)

  abbrev round : ExpiryEntry → List ExpiryEntry → Store × ℕ → Store × ℕ
  round e heap p = evict_entry c e (record p.0 { expiry_heap = heap }, p.1)

  record RoundFacts (e : ExpiryEntry) (heap : List ExpiryEntry) (p : Store × ℕ) : Type 0 where
    sessions : (round e heap p).0.sessions ≡ drop_due e p.0.sessions
    expiry_heap : (round e heap p).0.expiry_heap ≡ heap
    version_counter : (round e heap p).0.version_counter ≡ p.0.version_counter

  round_facts : (e : ExpiryEntry) (heap : List ExpiryEntry) (p : Store × ℕ) → RoundFacts e heap p
  unfolding evict_entry drop_due
  round_facts e heap p = elim (Option-cases (Dict.get e.payload_id p.0.sessions)) [
    | inl gone ↦ record {
      sessions = rw (gone, evict_entry, drop_due);
      expiry_heap = rw (gone, evict_entry);
      version_counter = rw (gone, evict_entry);
    }
    | inr (session, there) ↦ elim (Bool-cases (session.version == e.version)) [
      | inl fresh ↦ record {
        sessions =
            rw (there, evict_entry, drop_due)
              (rw fresh (sessions-evict_session e.payload_id session _));
        expiry_heap =
            rw (there, evict_entry) (rw fresh (heap-evict_session e.payload_id session _));
        version_counter =
            rw (there, evict_entry) (rw fresh (counter-evict_session e.payload_id session _));
      }
      | inr stale ↦ record {
        sessions = rw (there, evict_entry, drop_due) (rw stale);
        expiry_heap = rw (there, evict_entry) (rw stale);
        version_counter = rw (there, evict_entry) (rw stale);
      }
    ]
  ]

  round-Timed :
      (e : ExpiryEntry) (heap : List ExpiryEntry) (p : Store × ℕ)
      → Timed (e ∷ heap) p.0.sessions p.0.version_counter
      → Timed heap (round e heap p).0.sessions (round e heap p).0.version_counter
  round-Timed e heap p t =
      let f = round_facts e heap p in
      rw (f.sessions, f.version_counter) (Timed-drop_due e heap p.0.sessions p.0.version_counter t)

  -- The loop keeps the invariant, with the heap that it leaves.
  pub evict_loop-IsTimed :
      (limit : Option ℕ) (now : ℕ) (heap : List ExpiryEntry) (p : Store × ℕ)
      → p.0.expiry_heap ≡ heap
      → Timed heap p.0.sessions p.0.version_counter
      → IsTimed (evict_loop c limit now heap p).0
  unfolding evict_loop
  evict_loop-IsTimed limit now [] p same t = rw same t
  evict_loop-IsTimed limit now (e ∷ heap) p same t = elim (Bool-cases (at_limit c limit p.1)) [
    | inl stop ↦ rw (stop, evict_loop) (rw same t)
    | inr more ↦ elim (Bool-cases (ltb now e.expires_at)) [
      | inl later ↦ rw (more, later, evict_loop) (rw same t)
      | inr due ↦
          rw (more, due, evict_loop)
            (evict_loop-IsTimed limit now heap (round e heap p) (round_facts e heap p).expiry_heap
              (round-Timed e heap p t))
    ]
  ]

-- A round takes nothing that is alive.
alive-drop_due :
    (now : ℕ) (e : ExpiryEntry) (heap : List ExpiryEntry) (sessions : Dict ProcessSession)
    (counter : ℕ) (id : Text)
    → ltb now e.expires_at ≡ false
    → Timed (e ∷ heap) sessions counter
    → alive now (Dict.get id (drop_due e sessions)) ≡ alive now (Dict.get id sessions)
unfolding drop_due
alive-drop_due now e heap sessions counter id due t =
    elim (Option-cases (Dict.get e.payload_id sessions)) [
      | inl gone ↦ rw (gone, drop_due)
      | inr (session, there) ↦ elim (Bool-cases (session.version == e.version)) [
        | inr stale ↦ rw (there, drop_due) (rw stale)
        | inl fresh ↦
            rw (there, drop_due)
              (rw (fresh, get-remove)
                (ground (
                  arith,
                  text_eq_iff e.payload_id id,
                  t.honest session e there (inl refl) (sym ((==_iff _ _).0 fresh)),
                )))
      ]
    ]

-- With every entry in the future, every session is alive.
all_alive :
    (now : ℕ) (e : ExpiryEntry) (heap : List ExpiryEntry) (sessions : Dict ProcessSession)
    (counter : ℕ) (id : Text)
    → ltb now e.expires_at ≡ true
    → Timed (e ∷ heap) sessions counter
    → Dict.get id sessions ≡ alive now (Dict.get id sessions)
all_alive now e heap sessions counter id later t = elim (Option-cases (Dict.get id sessions)) [
  | inl gone ↦ rw gone
  | inr (session, there) ↦
      let after = ltb→lt now e.expires_at later in
      let live =
        In-later now _ (e ∷ heap) (after, All-later now e.expires_at heap after t.ordered.0)
          (t.covers id session there) in
      rw there (ground arith)
]

module _ (c : Config) where
  pub evict_loop-alive :
      (now : ℕ) (heap : List ExpiryEntry) (p : Store × ℕ) (id : Text)
      → Timed heap p.0.sessions p.0.version_counter
      → Dict.get id (evict_loop c none now heap p).0.sessions ≡ alive now (Dict.get id p.0.sessions)
  unfolding evict_loop
  evict_loop-alive now [] p id t = elim (Option-cases (Dict.get id p.0.sessions)) [
    | inl gone ↦ rw gone
    | inr (session, there) ↦ absurd (t.covers id session there)
  ]
  evict_loop-alive now (e ∷ heap) p id t = elim (Bool-cases (ltb now e.expires_at)) [
    | inl later ↦
        rw (later, evict_loop) (all_alive now e heap p.0.sessions p.0.version_counter id later t)
    | inr due ↦
        rw (due, evict_loop)
          (evict_loop-alive now heap (round c e heap p) id (round-Timed c e heap p t)
            ∙ ap (λ d. alive now (Dict.get id d)) (round_facts c e heap p).sessions
            ∙ alive-drop_due now e heap p.0.sessions p.0.version_counter id due t)
  ]

pub sessions-pop_all : (ids : List Text) (s : Store) → (pop_all ids s).sessions ≡ s.sessions
unfolding pop_all pop_pending
sessions-pop_all [] s = refl
sessions-pop_all (id ∷ ids) s = sessions-pop_all ids (pop_pending id s) ∙ ground arith

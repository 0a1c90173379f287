-- ===== src/Store/Bytes.antt =====
-- The byte account of `Balance` under every operation.
use privy_gate.Common.{
  ℕ, ◌+◌, ◌≡◌, refl, Bool, Bool-cases, inl, inr, true, false, List, [], ◌∷◌, Option, none, some,
  Text, arith, ltb, leb, ◌==◌, Option-cases, length,
}
use privy_gate.Common.Dict
use mathlib.Core.Path.{subst}
use privy_gate.Common.Int.{pos, ◌+ℤ◌, ltb_ℤ}
use privy_gate.Store.{Config, Store, ProcessSession, ExpiryEntry, Future, read_time, tick}
use privy_gate.Store.Evict.{
  is_tombstoned, is_expired, evict_session, evict_entry, evict_loop, pop_pending, pop_all,
  expire_reservations, evict_expired, at_limit,
}
use privy_gate.Store.Sessions.{
  join_session, reserve, admit, get_or_create_pending, unreserve, install, publish_active,
  complete_session, store_completed, complete, touch, get, release_pending, is_active,
}
use privy_gate.Store.Absent.{evict_expired-absent, pending-is_tombstoned}
use privy_gate.Store.Trim.{Frame-bury, Frame-trim_tombstones}
use privy_gate.Store.Balance.{
  Accounts, Frame-Accounts, overwritten, Balance-remove_session, Balance-remove_pending,
  Balance-put_pending, Balance-update_session, Balance-put_session,
}

sessions-unreserve : (c : Config) (id : Text) (s : Store) → (unreserve c id s).sessions ≡ s.sessions
unfolding unreserve
sessions-unreserve c id s = ground arith

module _ (c : Config) {leak : ℕ} where
  evict_session-Accounts :
      (id : Text) (session : ProcessSession) (s : Store)
      → Dict.get id s.sessions ≡ some session
      → Accounts leak s
      → Accounts leak (evict_session c id session s)
  unfolding evict_session
  evict_session-Accounts id session s h a =
      Frame-Accounts (Frame-trim_tombstones c _)
        (Frame-Accounts (Frame-bury c (read_time c s) id _) (Balance-remove_session id h a))

  evict_entry-Accounts :
      (e : ExpiryEntry) (heap : List ExpiryEntry) (s : Store) (n : ℕ)
      → Accounts leak s
      → Accounts leak (evict_entry c e (record s { expiry_heap = heap }, n)).0
  unfolding evict_entry
  evict_entry-Accounts e heap s n a = elim (Option-cases (Dict.get e.payload_id s.sessions)) [
    | inl gone ↦ rw (gone, evict_entry) a
    | inr (session, there) ↦ elim (Bool-cases (session.version == e.version)) [
      | inl fresh ↦
          rw (there, evict_entry)
            (rw fresh (
              evict_session-Accounts e.payload_id session (record s { expiry_heap = heap }) there
                a))
      | inr stale ↦ rw (there, evict_entry) (rw stale a)
    ]
  ]

  evict_loop-Accounts :
      (limit : Option ℕ) (now : ℕ) (heap : List ExpiryEntry) (p : Store × ℕ)
      → Accounts leak p.0
      → Accounts leak (evict_loop c limit now heap p).0
  unfolding evict_loop
  evict_loop-Accounts limit now [] p a = a
  evict_loop-Accounts limit now (e ∷ heap) p a = elim (Bool-cases (at_limit c limit p.1)) [
    | inl stop ↦ rw (stop, evict_loop) a
    | inr more ↦ elim (Bool-cases (ltb now e.expires_at)) [
      | inl later ↦ rw (more, later, evict_loop) a
      | inr due ↦
          rw (more, due, evict_loop)
            (evict_loop-Accounts limit now heap _ (evict_entry-Accounts e heap p.0 p.1 a))
    ]
  ]

module _ {leak : ℕ} where
  pop_pending-Accounts :
      (id : Text) (s : Store) → Accounts leak s → Accounts leak (pop_pending id s)
  unfolding pop_pending
  pop_pending-Accounts id s a = elim (Option-cases (Dict.get id s.pending)) [
    | inl gone ↦ rw (gone, pop_pending) a
    | inr (p, there) ↦ rw (there, pop_pending) (Balance-remove_pending id there a)
  ]

  pop_all-Accounts : (ids : List Text) (s : Store) → Accounts leak s → Accounts leak (pop_all ids s)
  unfolding pop_all
  pop_all-Accounts [] s a = a
  pop_all-Accounts (id ∷ ids) s a =
      pop_all-Accounts ids (pop_pending id s) (pop_pending-Accounts id s a)

module _ (c : Config) {leak : ℕ} where
  -- Evicting what has expired, in batches or whole, keeps the account and the leak.
  pub evict_expired-Accounts :
      (limit : Option ℕ) (s : Store) → Accounts leak s → Accounts leak (evict_expired c limit s).0
  unfolding evict_expired expire_reservations
  evict_expired-Accounts limit s a =
      pop_all-Accounts _ _ (evict_loop-Accounts c limit (read_time c s) s.expiry_heap (tick s, 0) a)

  pub is_tombstoned-Accounts :
      (id : Text) (s : Store) → Accounts leak s → Accounts leak (is_tombstoned c id s).1
  unfolding is_tombstoned
  is_tombstoned-Accounts id s a = ground arith

  join_session-Accounts :
      (id : Text) (session : ProcessSession) (s : Store)
      → Dict.get id s.sessions ≡ some session
      → Accounts leak s
      → Accounts leak (join_session c id session s).1
  unfolding join_session
  join_session-Accounts id session s h a = elim (Bool-cases (is_expired c session s)) [
    | inl over ↦ rw over (evict_session-Accounts c id session (tick s) h a)
    | inr live ↦ rw live a
  ]

  reserve-Accounts :
      (id : Text) (n : ℕ) (fp : Text) (s : Store)
      → Dict.get id s.pending ≡ none
      → Accounts leak s
      → Accounts leak (reserve c id n fp s).1
  unfolding reserve
  reserve-Accounts id n fp s h a =
      elim (Bool-cases (leb c.max_entries (length s.pending + length s.sessions))) [
        | inl full ↦ rw full a
        | inr room ↦ elim (Bool-cases (ltb_ℤ (pos c.max_bytes) (s.current_bytes +ℤ pos n))) [
          | inl heavy ↦ rw (room, heavy) a
          | inr light ↦ elim (Bool-cases (leb c.tombstone_max_entries (length s.tombstones))) [
            | inl graves ↦ rw (room, light, graves) a
            | inr free ↦ rw (room, light, free) (Balance-put_pending id _ h a)
          ]
        ]
      ]

  admit-Accounts :
      (id : Text) (n : ℕ) (fp : Text) (p : Bool × Store)
      → Dict.get id p.1.pending ≡ none
      → Accounts leak p.1
      → Accounts leak (admit c id n fp p).1
  unfolding admit
  admit-Accounts id n fp (true, s) h a = a
  admit-Accounts id n fp (false, s) h a =
      reserve-Accounts id n fp (evict_expired c none s).0 (evict_expired-absent c none id s h)
        (evict_expired-Accounts none s a)

  pub get_or_create_pending-Accounts :
      (id : Text) (n : ℕ) (fp : Text) (s : Store)
      → Accounts leak s
      → Accounts leak (get_or_create_pending c id n fp s).1
  unfolding get_or_create_pending
  get_or_create_pending-Accounts id n fp s a = elim (Option-cases (Dict.get id s.pending)) [
    | inr (p, there) ↦ rw (there, get_or_create_pending) a
    | inl free ↦ elim (Option-cases (Dict.get id s.sessions)) [
      | inr (session, there) ↦
          rw (free, get_or_create_pending)
            (rw (there, get_or_create_pending) (join_session-Accounts id session s there a))
      | inl new ↦
          rw (free, get_or_create_pending)
            (rw (new, get_or_create_pending)
              (admit-Accounts id n fp (is_tombstoned c id s) (rw pending-is_tombstoned free)
                (is_tombstoned-Accounts id s a)))
    ]
  ]

  unreserve-Accounts : (id : Text) (s : Store) → Accounts leak s → Accounts leak (unreserve c id s)
  unfolding unreserve
  unreserve-Accounts id s a = elim (Option-cases (Dict.get id s.pending)) [
    | inl gone ↦ rw (gone, unreserve) a
    | inr (p, there) ↦ rw (there, unreserve) (Balance-remove_pending id there a)
  ]

  -- Publishing over a session that is there adds the bytes of that session to the leak.
  pub publish_active-Accounts :
      (id original masked : Text) (n : ℕ) (types : List Text) (s : Store)
      → Accounts leak s
      → Accounts
          (leak + overwritten (Dict.get id s.sessions))
          (publish_active c id original masked n types s)
  unfolding publish_active install
  publish_active-Accounts id original masked n types s a =
      subst
        (λ d.
          Accounts (leak + overwritten (Dict.get id d))
            (publish_active c id original masked n types s))
        (sessions-unreserve c id s) (Balance-put_session id _ (unreserve-Accounts id s a))

  pub complete-Accounts :
      (id : Text) (s : Store) → Accounts leak s → Accounts leak (complete c id s)
  unfolding complete store_completed complete_session
  complete-Accounts id s a = elim (Option-cases (Dict.get id s.sessions)) [
    | inl gone ↦ rw (gone, complete) a
    | inr (session, there) ↦
        rw (there, complete)
          (elim (Bool-cases (is_active c session.state)) [
            | inl act ↦ rw act (Balance-update_session id _ there refl a)
            | inr done ↦ rw done a
          ])
  ]

  pub get-Accounts : (id : Text) (s : Store) → Accounts leak s → Accounts leak (get c id s).1
  unfolding get touch
  get-Accounts id s a = elim (Option-cases (Dict.get id s.sessions)) [
    | inl gone ↦ rw (gone, get) a
    | inr (session, there) ↦
        rw (there, get)
          (elim (Bool-cases (is_expired c session s)) [
            | inl over ↦ rw over (evict_session-Accounts c id session (tick s) there a)
            | inr live ↦ rw live (Balance-update_session id _ there refl a)
          ])
  ]

module _ {leak : ℕ} where
  pub release_pending-Accounts :
      (id : Text) (future : Future) (s : Store)
      → Accounts leak s
      → Accounts leak (release_pending id future s)
  unfolding release_pending
  release_pending-Accounts id future s a = elim (Option-cases (Dict.get id s.pending)) [
    | inl gone ↦ rw (gone, release_pending) a
    | inr (p, there) ↦
        rw (there, release_pending)
          (elim (Bool-cases (p.future == future)) [
            | inl mine ↦ rw mine (Balance-remove_pending id there a)
            | inr other ↦ rw other a
          ])
  ]

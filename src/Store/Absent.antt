-- ===== src/Store/Absent.antt =====
-- What the evictions do to the reservations.
use privy_gate.Common.{
  ℕ, ◌≡◌, refl, Bool-cases, inl, inr, List, [], ◌∷◌, Option, none, Text, arith, ltb, ◌∙◌,
  Option-cases, ◌==◌,
}
use privy_gate.Common.Dict
use privy_gate.Common.Dict.{get-remove}
use privy_gate.Store.{Config, Store, ProcessSession, ExpiryEntry, read_time, tick}
use privy_gate.Store.Evict.{
  is_tombstoned, evict_session, evict_entry, evict_loop, at_limit, pop_pending, pop_all,
  evict_expired, expire_reservations,
}
use privy_gate.Store.Trim.{Frame-bury, Frame-trim_tombstones}

pub pop_pending-absent :
    (id j : Text) (s : Store)
    → Dict.get j s.pending ≡ none
    → Dict.get j (pop_pending id s).pending ≡ none
unfolding pop_pending
pop_pending-absent id j s h = ground (arith, get-remove j id s.pending)

pub pop_all-absent :
    (ids : List Text) (j : Text) (s : Store)
    → Dict.get j s.pending ≡ none
    → Dict.get j (pop_all ids s).pending ≡ none
unfolding pop_all
pop_all-absent [] j s h = h
pop_all-absent (id ∷ ids) j s h =
    pop_all-absent ids j (pop_pending id s) (pop_pending-absent id j s h)

module _ (c : Config) where
  pub pending-evict_session :
      (id : Text) (session : ProcessSession) (s : Store)
      → (evict_session c id session s).pending ≡ s.pending
  unfolding evict_session
  pending-evict_session id session s =
      (Frame-trim_tombstones c _).pending ∙ (Frame-bury c (read_time c s) id _).pending

  pending-evict_entry :
      (e : ExpiryEntry) (heap : List ExpiryEntry) (s : Store) (n : ℕ)
      → (evict_entry c e (record s { expiry_heap = heap }, n)).0.pending ≡ s.pending
  unfolding evict_entry
  pending-evict_entry e heap s n = elim (Option-cases (Dict.get e.payload_id s.sessions)) [
    | inl gone ↦ rw (gone, evict_entry)
    | inr (session, there) ↦ elim (Bool-cases (session.version == e.version)) [
      | inl fresh ↦
          rw (there, evict_entry) (rw fresh (pending-evict_session e.payload_id session _))
      | inr stale ↦ rw (there, evict_entry) (rw stale)
    ]
  ]

  pub pending-evict_loop :
      (limit : Option ℕ) (now : ℕ) (heap : List ExpiryEntry) (p : Store × ℕ)
      → (evict_loop c limit now heap p).0.pending ≡ p.0.pending
  unfolding evict_loop
  pending-evict_loop limit now [] p = refl
  pending-evict_loop limit now (e ∷ heap) p = elim (Bool-cases (at_limit c limit p.1)) [
    | inl stop ↦ rw (stop, evict_loop)
    | inr more ↦ elim (Bool-cases (ltb now e.expires_at)) [
      | inl later ↦ rw (more, later, evict_loop)
      | inr due ↦
          rw (more, due, evict_loop)
            (pending-evict_loop limit now heap _ ∙ pending-evict_entry e heap p.0 p.1)
    ]
  ]

  pub evict_expired-absent :
      (limit : Option ℕ) (j : Text) (s : Store)
      → Dict.get j s.pending ≡ none
      → Dict.get j (evict_expired c limit s).0.pending ≡ none
  unfolding evict_expired expire_reservations
  evict_expired-absent limit j s h =
      let kept = pending-evict_loop limit (read_time c s) s.expiry_heap (tick s, 0) in
      pop_all-absent _ j _ (rw kept h)

  pub pending-is_tombstoned : (id : Text) (s : Store) → (is_tombstoned c id s).1.pending ≡ s.pending
  unfolding is_tombstoned
  pending-is_tombstoned id s = ground arith

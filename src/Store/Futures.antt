-- ===== src/Store/Futures.antt =====
-- What the store's methods do to the table of futures.
use privy_gate.Common.{
  ℕ, ◌+◌, ◌≡◌, refl, sym, ap, ◌∙◌, Bool, true, false, Bool-cases, inl, inr, List, [], ◌∷◌, ◌++◌,
  append-nil, Option, none, Text, arith, ltb, leb, ◌==◌, Option-cases, length,
}
use privy_gate.Common.Dict
use privy_gate.Common.Int.{pos, ◌+ℤ◌, ltb_ℤ}
use privy_gate.Errors.{Outcome, ok, raise-ne-ok}
use privy_gate.Store.{
  Config, Store, ProcessSession, PendingResult, ExpiryEntry, FutureState, waiting, result,
  read_time, tick,
}
use privy_gate.Store.Evict.{
  is_tombstoned, is_expired, evict_session, evict_entry, evict_loop, pop_pending, pop_all, at_limit,
  expire_reservations, evict_expired,
}
use privy_gate.Store.Sessions.{
  join_session, reserve, admit, get_or_create_pending, store_completed, complete, get,
}
use privy_gate.Store.Trim.{Frame-bury, Frame-trim_tombstones}

futures-pop_pending : (id : Text) (s : Store) → (pop_pending id s).futures ≡ s.futures
unfolding pop_pending
futures-pop_pending id s = ground arith

futures-pop_all : (ids : List Text) (s : Store) → (pop_all ids s).futures ≡ s.futures
unfolding pop_all
futures-pop_all [] s = refl
futures-pop_all (id ∷ ids) s = futures-pop_all ids (pop_pending id s) ∙ futures-pop_pending id s

module _ (c : Config) where
  futures-evict_session :
      (id : Text) (session : ProcessSession) (s : Store)
      → (evict_session c id session s).futures ≡ s.futures
  unfolding evict_session
  futures-evict_session id session s =
      (Frame-trim_tombstones c _).futures ∙ (Frame-bury c (read_time c s) id _).futures

  futures-evict_entry :
      (e : ExpiryEntry) (heap : List ExpiryEntry) (s : Store) (n : ℕ)
      → (evict_entry c e (record s { expiry_heap = heap }, n)).0.futures ≡ s.futures
  unfolding evict_entry
  futures-evict_entry e heap s n = elim (Option-cases (Dict.get e.payload_id s.sessions)) [
    | inl gone ↦ rw (gone, evict_entry)
    | inr (session, there) ↦ elim (Bool-cases (session.version == e.version)) [
      | inl fresh ↦
          rw (there, evict_entry) (rw fresh (futures-evict_session e.payload_id session _))
      | inr stale ↦ rw (there, evict_entry) (rw stale)
    ]
  ]

  futures-evict_loop :
      (limit : Option ℕ) (now : ℕ) (heap : List ExpiryEntry) (p : Store × ℕ)
      → (evict_loop c limit now heap p).0.futures ≡ p.0.futures
  unfolding evict_loop
  futures-evict_loop limit now [] p = refl
  futures-evict_loop limit now (e ∷ heap) p = elim (Bool-cases (at_limit c limit p.1)) [
    | inl stop ↦ rw (stop, evict_loop)
    | inr more ↦ elim (Bool-cases (ltb now e.expires_at)) [
      | inl later ↦ rw (more, later, evict_loop)
      | inr due ↦
          rw (more, due, evict_loop)
            (futures-evict_loop limit now heap _ ∙ futures-evict_entry e heap p.0 p.1)
    ]
  ]

  pub futures-evict_expired :
      (limit : Option ℕ) (s : Store) → (evict_expired c limit s).0.futures ≡ s.futures
  unfolding evict_expired expire_reservations
  futures-evict_expired limit s =
      futures-pop_all _ _ ∙ futures-evict_loop limit (read_time c s) s.expiry_heap (tick s, 0)

  futures-is_tombstoned : (id : Text) (s : Store) → (is_tombstoned c id s).1.futures ≡ s.futures
  unfolding is_tombstoned
  futures-is_tombstoned id s = ground arith

  pub futures-complete : (id : Text) (s : Store) → (complete c id s).futures ≡ s.futures
  unfolding complete store_completed
  futures-complete id s = ground arith

  pub futures-get : (id : Text) (s : Store) → (get c id s).1.futures ≡ s.futures
  unfolding get
  futures-get id s = elim (Option-cases (Dict.get id s.sessions)) [
    | inl gone ↦ rw (gone, get)
    | inr (session, there) ↦
        rw (there, get)
          (elim (Bool-cases (is_expired c session s)) [
            | inl over ↦ rw over (futures-evict_session id session (tick s))
            | inr live ↦ rw live
          ])
  ]

-- What a call for a payload_id answers, and the futures that it adds.
pub record Issues (s : Store) (r : Outcome PendingResult) (t : Store) : Type 0 where
  pub added : List FutureState
  pub extends : t.futures ≡ s.futures ++ added
  pub fresh :
      (p : PendingResult)
      → r ≡ ok p
      → p.is_new ≡ true
      → (added ≡ waiting ∷ []) × (p.future ≡ length s.futures)

Issues-none :
    (s t : Store) (r : Outcome PendingResult)
    → t.futures ≡ s.futures
    → ((p : PendingResult) → r ≡ ok p → p.is_new ≡ false)
    → Issues s r t
Issues-none s t r e old = record {
  added = [];
  extends = e ∙ sym (append-nil s.futures);
  fresh = λ p h new. let never = old p h in absurd (ground arith);
}

module _ (c : Config) where
  join_session-Issues :
      (id : Text) (session : ProcessSession) (s : Store)
      → Issues s (join_session c id session s).0 (join_session c id session s).1
  unfolding join_session
  join_session-Issues id session s = elim (Bool-cases (is_expired c session s)) [
    | inl over ↦ rw over (
        Issues-none _ _ _ (futures-evict_session c id session (tick s))
          (λ p h. absurd (raise-ne-ok h)))
    | inr live ↦ rw live (record {
      added = result session.masked ∷ [];
      extends = refl;
      fresh = λ p h new. absurd (ground arith);
    })
  ]

  reserve-Issues :
      (id : Text) (n : ℕ) (fp : Text) (s : Store)
      → Issues s (reserve c id n fp s).0 (reserve c id n fp s).1
  unfolding reserve
  reserve-Issues id n fp s =
      elim (Bool-cases (leb c.max_entries (length s.pending + length s.sessions))) [
        | inl full ↦ rw full (Issues-none _ _ _ refl (λ p h. absurd (raise-ne-ok h)))
        | inr room ↦ elim (Bool-cases (ltb_ℤ (pos c.max_bytes) (s.current_bytes +ℤ pos n))) [
          | inl heavy ↦ rw (room, heavy) (Issues-none _ _ _ refl (λ p h. absurd (raise-ne-ok h)))
          | inr light ↦ elim (Bool-cases (leb c.tombstone_max_entries (length s.tombstones))) [
            | inl graves ↦
                rw (room, light, graves) (Issues-none _ _ _ refl (λ p h. absurd (raise-ne-ok h)))
            | inr free ↦
                rw (room, light, free)
                  (record {
                    added = waiting ∷ [];
                    extends = refl;
                    fresh = λ p h new. (refl, ground arith);
                  })
          ]
        ]
      ]

  Issues-after :
      {s u t : Store} {r : Outcome PendingResult}
      → u.futures ≡ s.futures
      → Issues u r t
      → Issues s r t
  Issues-after {s} e i = record {
    added = i.added;
    extends = i.extends ∙ ap (λ fs. fs ++ i.added) e;
    fresh = λ p h new. let f = i.fresh p h new in (f.0, f.1 ∙ ap length e);
  }

  admit-Issues :
      (id : Text) (n : ℕ) (fp : Text) (p : Bool × Store)
      → Issues p.1 (admit c id n fp p).0 (admit c id n fp p).1
  unfolding admit
  admit-Issues id n fp (true, s) = Issues-none _ _ _ refl (λ p h. absurd (raise-ne-ok h))
  admit-Issues id n fp (false, s) =
      Issues-after (futures-evict_expired c none s)
        (reserve-Issues id n fp (evict_expired c none s).0)

  pub get_or_create_pending-Issues :
      (id : Text) (n : ℕ) (fp : Text) (s : Store)
      → Issues s (get_or_create_pending c id n fp s).0 (get_or_create_pending c id n fp s).1
  unfolding get_or_create_pending
  get_or_create_pending-Issues id n fp s = elim (Option-cases (Dict.get id s.pending)) [
    | inr (p, there) ↦
        rw (there, get_or_create_pending) (Issues-none _ _ _ refl (λ q h. ground arith))
    | inl free ↦ elim (Option-cases (Dict.get id s.sessions)) [
      | inr (session, there) ↦
          rw (free, get_or_create_pending)
            (rw (there, get_or_create_pending) (join_session-Issues id session s))
      | inl new ↦
          rw (free, get_or_create_pending)
            (rw (new, get_or_create_pending)
              (Issues-after (futures-is_tombstoned c id s)
                (admit-Issues id n fp (is_tombstoned c id s))))
    ]
  ]

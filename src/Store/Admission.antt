-- ===== src/Store/Admission.antt =====
-- What `get_or_create_pending` tells a request for a payload_id.
use privy_gate.Common.{
  ℕ, ◌+◌, ◌≤◌, ◌<◌, ◌≡◌, refl, ◌∙◌, Bool, Bool-cases, inl, inr, true, false, not, none, some, Text,
  arith, leb, length, get_elem?, get_elem?-append_last, Option-cases, text_eq, text_eq_refl, lt→leb,
  tests,
}
use privy_gate.Common.Dict
use privy_gate.Common.Dict.{get-put, length-put_new}
use privy_gate.Common.Int.{pos, ◌+ℤ◌, ltb_ℤ, ◌≤ℤ◌}
use privy_gate.Errors.{ok, raise, raise-ne-ok, ok-injective}
use privy_gate.Store.{
  Config, Store, ProcessSession, Pending, PendingResult, waiting, read_time, tick,
}
use privy_gate.Store.Evict.{is_tombstoned, evict_expired}
use privy_gate.Store.Sessions.{
  join_session, new_pending, reserve, admit, get_or_create_pending, expired_error,
}
use privy_gate.Store.Absent.{evict_expired-absent, pending-is_tombstoned}

module _ (c : Config) where
  -- What holds when a request has reserved `id`.
  pub record Reserved (id : Text) (n : ℕ) (fp : Text) (r : PendingResult) (s : Store) : Type 0 where
    pub entries : length s.pending + length s.sessions ≤ c.max_entries
    pub bytes : s.current_bytes ≤ℤ pos c.max_bytes
    pub tombstones : length s.tombstones < c.tombstone_max_entries
    pub waits : get_elem? s.futures r.future ≡ some waiting
    pub unconflicted : r.conflict ≡ false
    pub reserved :
        (p : Pending) × (Dict.get id s.pending ≡ some p)
        × (p.future ≡ r.future)
        × (p.reserved_bytes ≡ n)
        × (p.fingerprint ≡ fp)

  reserve-Reserved :
      (id : Text) (n : ℕ) (fp : Text) (s : Store) {r : PendingResult}
      → Dict.get id s.pending ≡ none
      → (reserve c id n fp s).0 ≡ ok r
      → Reserved id n fp r (reserve c id n fp s).1
  unfolding reserve
  reserve-Reserved id n fp s {r} h e =
      elim (Bool-cases (leb c.max_entries (length s.pending + length s.sessions))) [
        | inl full ↦ absurd (raise-ne-ok (rw full at e))
        | inr room ↦ elim (Bool-cases (ltb_ℤ (pos c.max_bytes) (s.current_bytes +ℤ pos n))) [
          | inl heavy ↦ absurd (raise-ne-ok (rw (room, heavy) at e))
          | inr light ↦ elim (Bool-cases (leb c.tombstone_max_entries (length s.tombstones))) [
            | inl graves ↦ absurd (raise-ne-ok (rw (room, light, graves) at e))
            | inr free ↦
                let made = ok-injective (rw (room, light, free) at e) in
                rw (room, light, free)
                  (record {
                    entries = omega (tests, length-put_new id (new_pending c n fp s) s.pending h);
                    bytes = omega tests;
                    tombstones = omega tests;
                    waits = rw (← made) (get_elem?-append_last s.futures waiting);
                    unconflicted = rw (← made) refl;
                    reserved = (
                      new_pending c n fp s,
                      get-put id id _ s.pending ∙ rw (text_eq_refl id),
                      rw (← made) refl,
                      refl,
                      refl,
                    );
                  })
          ]
        ]
      ]

  admit-Reserved :
      (id : Text) (n : ℕ) (fp : Text) (p : Bool × Store) {r : PendingResult}
      → Dict.get id p.1.pending ≡ none
      → (admit c id n fp p).0 ≡ ok r
      → Reserved id n fp r (admit c id n fp p).1
  unfolding admit
  admit-Reserved id n fp (true, s) h e = absurd (raise-ne-ok e)
  admit-Reserved id n fp (false, s) h e =
      reserve-Reserved id n fp (evict_expired c none s).0 (evict_expired-absent c none id s h) e

  pub get_or_create_pending-admit :
      (id : Text) (n : ℕ) (fp : Text) (s : Store)
      → Dict.get id s.pending ≡ none
      → Dict.get id s.sessions ≡ none
      → get_or_create_pending c id n fp s ≡ admit c id n fp (is_tombstoned c id s)
  unfolding get_or_create_pending
  get_or_create_pending-admit id n fp s free new =
      rw (free, get_or_create_pending) (rw (new, get_or_create_pending))

  pub get_or_create_pending-session :
      (id : Text) (n : ℕ) (fp : Text) (s : Store) {session : ProcessSession}
      → Dict.get id s.pending ≡ none
      → Dict.get id s.sessions ≡ some session
      → get_or_create_pending c id n fp s ≡ join_session c id session s
  unfolding get_or_create_pending
  get_or_create_pending-session id n fp s free there =
      rw (free, get_or_create_pending) (rw (there, get_or_create_pending))

  -- When a request is told that its id is new, the store holds its reservation, with its size, its
  -- fingerprint and a future that waits; reservations and sessions together are within
  -- `max_entries`, the byte account within `max_bytes`, and the tombstones below their limit.
  pub get_or_create_pending-Reserved :
      (id : Text) (n : ℕ) (fp : Text) (s : Store) {r : PendingResult}
      → (get_or_create_pending c id n fp s).0 ≡ ok r
      → r.is_new ≡ true
      → Reserved id n fp r (get_or_create_pending c id n fp s).1
  unfolding get_or_create_pending join_session
  get_or_create_pending-Reserved id n fp s {r} e fresh =
      elim (Option-cases (Dict.get id s.pending)) [
        | inr (p, there) ↦ absurd (ground (arith, there))
        | inl free ↦ elim (Option-cases (Dict.get id s.sessions)) [
          | inr (session, there) ↦ absurd (ground (arith, free, there))
          | inl new ↦
              let path = get_or_create_pending-admit id n fp s free new in
              rw path (
                admit-Reserved id n fp (is_tombstoned c id s) (rw pending-is_tombstoned free)
                  (rw path at e))
        ]
      ]

  -- While the reservation stands, a request for the same id joins it: it gets the same future, a
  -- conflict exactly if its fingerprint differs, and the store is left as it is.
  pub get_or_create_pending-joins :
      (id : Text) (n : ℕ) (fp : Text) (s : Store) {p : Pending}
      → Dict.get id s.pending ≡ some p
      → get_or_create_pending c id n fp s ≡ (
        ok (record {
          is_new = false;
          conflict = not (text_eq p.fingerprint fp);
          future = p.future;
        }),
        s,
      )
  unfolding get_or_create_pending
  get_or_create_pending-joins id n fp s there = rw (there, get_or_create_pending)

  -- With a tombstone whose expiry lies after the time that is read, and neither a reservation
  -- nor a session, a request is refused with 410, and only the reading of the clock is new.
  pub get_or_create_pending-gone :
      (id : Text) (n : ℕ) (fp : Text) (s : Store) {t : ℕ}
      → Dict.get id s.pending ≡ none
      → Dict.get id s.sessions ≡ none
      → Dict.get id s.tombstones ≡ some t
      → read_time c s < t
      → get_or_create_pending c id n fp s ≡ (raise expired_error, tick s)
  unfolding get_or_create_pending is_tombstoned admit
  get_or_create_pending-gone id n fp s {t} free new buried live =
      let over = lt→leb t (read_time c s) live in
      rw (free, get_or_create_pending)
        (rw (new, get_or_create_pending) (rw (buried, is_tombstoned) (rw over)))

-- ===== src/Store/Timing.antt =====
-- The invariant of the expiry heap under every operation, and what `_evict_expired_locked`
-- without a limit leaves of the sessions and of the reservations.
use privy_gate.Common.{
  ℕ, suc, ◌+◌, ◌≡◌, refl, sym, ◌∙◌, ap, Bool, Bool-cases, inl, inr, true, false, List, [], ◌∷◌,
  Option, none, some, Text, arith, leb, ◌==◌, Option-cases, text_eq, text_eq_iff, any, length,
  if◌then◌else◌,
}
use privy_gate.Common.Dict
use privy_gate.Common.Dict.{Dict, IsUnique, get-remove}
use privy_gate.Common.Int.{pos, ◌+ℤ◌, ltb_ℤ}
use privy_gate.Store.{Config, Store, Pending, Future, empty, read_time, tick}
use privy_gate.Store.Evict
use privy_gate.Store.Evict.{is_expired, pop_pending, pop_all, expire_reservations, expired_pending}
use privy_gate.Store.Sessions
use privy_gate.Store.Sessions.{
  join_session, reserve, admit, new_session, unreserve, install, complete_session, store_completed,
  touch, is_active,
}
use privy_gate.Store.Absent.{pending-evict_loop}
use privy_gate.Store.Calls.{
  Call, get_or_create_pending, publish_active, complete, get, release_pending, is_tombstoned,
  evict_expired, expire_all, step, run,
}
use privy_gate.Store.Timed.{Timed-push, Timed-update}
use privy_gate.Store.Drain.{
  IsTimed, alive, evict_session-IsTimed, evict_loop-IsTimed, evict_loop-alive, sessions-pop_all,
}

-- What is left of a reservation at the time `now`.
abbrev pub current : Config → ℕ → Option Pending → Option Pending
current c now none = none
current c now (some p) = if leb (p.created_at + c.active_ttl) now then none else some p

pop_pending-IsTimed : (id : Text) (s : Store) → IsTimed s → IsTimed (pop_pending id s)
unfolding pop_pending
pop_pending-IsTimed id s t = elim (Option-cases (Dict.get id s.pending)) [
  | inl gone ↦ rw (gone, pop_pending) t
  | inr (p, there) ↦ rw (there, pop_pending) t
]

pop_all-IsTimed : (ids : List Text) (s : Store) → IsTimed s → IsTimed (pop_all ids s)
unfolding pop_all
pop_all-IsTimed [] s t = t
pop_all-IsTimed (id ∷ ids) s t = pop_all-IsTimed ids (pop_pending id s) (pop_pending-IsTimed id s t)

get-pop_all :
    (ids : List Text) (j : Text) (s : Store)
    → Dict.get j (pop_all ids s).pending
      ≡ (if any (λ id. text_eq id j) ids then none else Dict.get j s.pending)
unfolding pop_all pop_pending
get-pop_all [] j s = refl
get-pop_all (id ∷ ids) j s =
    ground
      (arith, get-pop_all ids j (pop_pending id s), get-remove j id s.pending, text_eq_iff id j)

module _ (c : Config) where
  abbrev is_due : ℕ → Option Pending → Bool
  is_due now none = false
  is_due now (some p) = leb (p.created_at + c.active_ttl) now

  any-expired_pending :
      (now : ℕ) (j : Text) (d : Dict Pending)
      → IsUnique d
      → any (λ id. text_eq id j) (expired_pending c now d) ≡ is_due now (Dict.get j d)
  unfolding expired_pending Dict.get
  any-expired_pending now j [] u = refl
  any-expired_pending now j ((i, p) ∷ d) u =
      elim (Bool-cases (leb (p.created_at + c.active_ttl) now)) [
        | inl over ↦ rw over (ground (arith, any-expired_pending now j d u.1))
        | inr fresh ↦ elim (Bool-cases (text_eq i j)) [
          | inl same ↦
              rw (fresh, same)
                (any-expired_pending now j d u.1
                  ∙ rw (← (text_eq_iff i j).0 same) (ap (is_due now) u.0)
                  ∙ sym fresh)
          | inr differs ↦ rw (fresh, differs) (any-expired_pending now j d u.1)
        ]
      ]

  if_due : (now : ℕ) (o : Option Pending) → (if is_due now o then none else o) ≡ current c now o
  if_due now none = refl
  if_due now (some p) = refl

  pub evict_expired-IsTimed :
      (limit : Option ℕ) (s : Store) → IsTimed s → IsTimed (Evict.evict_expired c limit s).0
  unfolding Evict.evict_expired expire_reservations
  evict_expired-IsTimed limit s t =
      pop_all-IsTimed _ _
        (evict_loop-IsTimed c limit (read_time c s) s.expiry_heap (tick s, 0) refl t)

  -- Eviction without a limit removes exactly the sessions whose expiry has come by the time that
  -- it reads, and leaves every other session as it was.
  pub sessions-evict_expired :
      (s : Store) (id : Text)
      → IsTimed s
      → Dict.get id (Evict.evict_expired c none s).0.sessions
        ≡ alive (read_time c s) (Dict.get id s.sessions)
  unfolding Evict.evict_expired expire_reservations
  sessions-evict_expired s id t =
      ap (Dict.get id) (sessions-pop_all _ _)
      ∙ evict_loop-alive c (read_time c s) s.expiry_heap (tick s, 0) id t

  -- Eviction with any limit, which does not bound this part of its work, removes exactly the
  -- reservations that are as old as the ACTIVE TTL at the time that it reads, and leaves every other
  -- reservation as it was.
  pub pending-evict_expired :
      (limit : Option ℕ) (s : Store) (id : Text)
      → IsUnique s.pending
      → Dict.get id (Evict.evict_expired c limit s).0.pending
        ≡ current c (read_time c s) (Dict.get id s.pending)
  unfolding Evict.evict_expired expire_reservations
  pending-evict_expired limit s id u =
      let same = pending-evict_loop c limit (read_time c s) s.expiry_heap (tick s, 0) in
      get-pop_all _ id _
      ∙ rw same (rw (any-expired_pending (read_time c s) id s.pending u) (if_due _ _))

  is_tombstoned-IsTimed :
      (id : Text) (s : Store) → IsTimed s → IsTimed (Evict.is_tombstoned c id s).1
  unfolding Evict.is_tombstoned
  is_tombstoned-IsTimed id s t = elim (Option-cases (Dict.get id s.tombstones)) [
    | inl gone ↦ rw (gone, Evict.is_tombstoned) t
    | inr (x, there) ↦
        rw (there, Evict.is_tombstoned)
          (elim (Bool-cases (leb x (read_time c s))) [
            | inl over ↦ rw over t
            | inr live ↦ rw live t
          ])
  ]

  reserve-IsTimed :
      (id : Text) (n : ℕ) (fp : Text) (s : Store) → IsTimed s → IsTimed (reserve c id n fp s).1
  unfolding reserve
  reserve-IsTimed id n fp s t =
      elim (Bool-cases (leb c.max_entries (length s.pending + length s.sessions))) [
        | inl full ↦ rw full t
        | inr room ↦ elim (Bool-cases (ltb_ℤ (pos c.max_bytes) (s.current_bytes +ℤ pos n))) [
          | inl heavy ↦ rw (room, heavy) t
          | inr light ↦ elim (Bool-cases (leb c.tombstone_max_entries (length s.tombstones))) [
            | inl graves ↦ rw (room, light, graves) t
            | inr free ↦ rw (room, light, free) t
          ]
        ]
      ]

  admit-IsTimed :
      (id : Text) (n : ℕ) (fp : Text) (p : Bool × Store)
      → IsTimed p.1
      → IsTimed (admit c id n fp p).1
  unfolding admit
  admit-IsTimed id n fp (true, s) t = t
  admit-IsTimed id n fp (false, s) t =
      reserve-IsTimed id n fp (Evict.evict_expired c none s).0 (evict_expired-IsTimed none s t)

  get_or_create_pending-IsTimed :
      (id : Text) (n : ℕ) (fp : Text) (s : Store)
      → IsTimed s
      → IsTimed (Sessions.get_or_create_pending c id n fp s).1
  unfolding Sessions.get_or_create_pending join_session
  get_or_create_pending-IsTimed id n fp s t = elim (Option-cases (Dict.get id s.pending)) [
    | inr (p, there) ↦ rw (there, Sessions.get_or_create_pending) t
    | inl free ↦ elim (Option-cases (Dict.get id s.sessions)) [
      | inr (session, there) ↦
          rw (free, Sessions.get_or_create_pending)
            (rw (there, Sessions.get_or_create_pending)
              (elim (Bool-cases (is_expired c session s)) [
                | inl over ↦ rw over (evict_session-IsTimed c id session (tick s) t)
                | inr live ↦ rw live t
              ]))
      | inl new ↦
          rw (free, Sessions.get_or_create_pending)
            (rw (new, Sessions.get_or_create_pending)
              (admit-IsTimed id n fp (Evict.is_tombstoned c id s) (is_tombstoned-IsTimed id s t)))
    ]
  ]

  unreserve-IsTimed : (id : Text) (s : Store) → IsTimed s → IsTimed (unreserve c id s)
  unfolding unreserve
  unreserve-IsTimed id s t = elim (Option-cases (Dict.get id s.pending)) [
    | inl gone ↦ rw (gone, unreserve) t
    | inr (p, there) ↦ rw (there, unreserve) t
  ]

  counter-unreserve :
      (id : Text) (s : Store) → (unreserve c id s).version_counter ≡ s.version_counter
  unfolding unreserve
  counter-unreserve id s = ground arith

  publish_active-IsTimed :
      (id original masked : Text) (n : ℕ) (types : List Text) (s : Store)
      → IsTimed s
      → IsTimed (Sessions.publish_active c id original masked n types s)
  unfolding Sessions.publish_active install new_session
  publish_active-IsTimed id original masked n types s t =
      Timed-push id _ _ _ _ (ap suc (sym (counter-unreserve id s))) (unreserve-IsTimed id s t)

  complete-IsTimed : (id : Text) (s : Store) → IsTimed s → IsTimed (Sessions.complete c id s)
  unfolding Sessions.complete store_completed complete_session
  complete-IsTimed id s t = elim (Option-cases (Dict.get id s.sessions)) [
    | inl gone ↦ rw (gone, Sessions.complete) t
    | inr (session, there) ↦
        rw (there, Sessions.complete)
          (elim (Bool-cases (is_active c session.state)) [
            | inl act ↦ rw act (Timed-push id (complete_session c session s) _ _ _ refl t)
            | inr done ↦ rw done t
          ])
  ]

  get-IsTimed : (id : Text) (s : Store) → IsTimed s → IsTimed (Sessions.get c id s).1
  unfolding Sessions.get touch
  get-IsTimed id s t = elim (Option-cases (Dict.get id s.sessions)) [
    | inl gone ↦ rw (gone, Sessions.get) t
    | inr (session, there) ↦
        rw (there, Sessions.get)
          (elim (Bool-cases (is_expired c session s)) [
            | inl over ↦ rw over (evict_session-IsTimed c id session (tick s) t)
            | inr live ↦ rw live (Timed-update id (touch c session s) _ _ _ there refl refl t)
          ])
  ]

  release_pending-IsTimed :
      (id : Text) (future : Future) (s : Store)
      → IsTimed s
      → IsTimed (Sessions.release_pending id future s)
  unfolding Sessions.release_pending
  release_pending-IsTimed id future s t = elim (Option-cases (Dict.get id s.pending)) [
    | inl gone ↦ rw (gone, Sessions.release_pending) t
    | inr (p, there) ↦
        rw (there, Sessions.release_pending)
          (elim (Bool-cases (p.future == future)) [ inl mine ↦ rw mine t | inr other ↦ rw other t ])
  ]

  step-IsTimed : (call : Call) (s : Store) → IsTimed s → IsTimed (step c call s)
  unfolding step Sessions.expire_all
  step-IsTimed (get_or_create_pending id n fp) s t = get_or_create_pending-IsTimed id n fp s t
  step-IsTimed (publish_active id original masked n types) s t =
      publish_active-IsTimed id original masked n types s t
  step-IsTimed (complete id) s t = complete-IsTimed id s t
  step-IsTimed (get id) s t = get-IsTimed id s t
  step-IsTimed (release_pending id future) s t = release_pending-IsTimed id future s t
  step-IsTimed (is_tombstoned id) s t = is_tombstoned-IsTimed id s t
  step-IsTimed (evict_expired limit) s t = evict_expired-IsTimed limit s t
  step-IsTimed expire_all s t = record {
    ordered = tt;
    covers = λ id session h. absurd (unfold Dict.get in ground arith);
    honest = λ session e h i v. absurd i;
    counted = tt;
  }

  run-IsTimed : (calls : List Call) (s : Store) → IsTimed s → IsTimed (run c calls s)
  unfolding run
  run-IsTimed [] s t = t
  run-IsTimed (call ∷ calls) s t = run-IsTimed calls (step c call s) (step-IsTimed call s t)

  empty-IsTimed : IsTimed empty
  empty-IsTimed = record {
    ordered = tt;
    covers = λ id session h. absurd (unfold Dict.get in ground arith);
    honest = λ session e h i v. absurd i;
    counted = tt;
  }

  -- After any sequence of calls from an empty store the expiry heap is in order, every session has
  -- its entry in it, an entry with the version of its session has its expiry, and no version is
  -- ahead of the counter.
  pub run-empty-IsTimed : (calls : List Call) → IsTimed (run c calls empty)
  run-empty-IsTimed calls = run-IsTimed calls empty empty-IsTimed

  -- After any sequence of calls from an empty store, eviction without a limit leaves exactly the
  -- sessions whose expiry lies after the time that it reads.
  pub run-evict_expired :
      (calls : List Call) (id : Text)
      → Dict.get id (Evict.evict_expired c none (run c calls empty)).0.sessions
        ≡ alive (read_time c (run c calls empty)) (Dict.get id (run c calls empty).sessions)
  run-evict_expired calls id =
      sessions-evict_expired (run c calls empty) id (run-empty-IsTimed calls)

-- ===== src/Service/Bytes.antt =====
-- The byte account of the store under the events of the service.
use privy_gate.Common.{
  ℕ, ◌≡◌, refl, Bool, true, false, inl, inr, List, [], ◌∷◌, Option, none, some, Text, Bool-cases,
  Option-cases, get_elem?, utf8_length, ltb,
}
use privy_gate.Errors.{
  Outcome, ok, raise, ProcessError, process_error, validation_error, conflict_error,
  payload_too_large_error, too_many_requests_error, gone_error, forbidden_error,
}
use privy_gate.Store.{
  Store, Future, PendingResult, ProcessSession, FutureState, waiting, result, exception, Raised,
  timeout_error, other_error, SessionState, active, completed,
}
use privy_gate.Store.Sessions.{get}
use privy_gate.Store.Balance.{Accounts}
use privy_gate.Store.Bytes.{
  evict_expired-Accounts, get_or_create_pending-Accounts, publish_active-Accounts,
  complete-Accounts, get-Accounts, release_pending-Accounts,
}
use privy_gate.Service.{
  ServiceConfig, Service, found, process_failure, other_failure, estimate_tokens, count_rejected,
  schedule, is_payload, start, joined, await_pending, resolve_existing, masked, deliver, failed,
  crashed, set_exception, wake, run_background, evict_round,
}
use privy_gate.Service.Events.{
  Event, request, engine_done, looked, background_turn, eviction_turn, serve, serve_all, lost,
  lost_all,
}

module _ (c : ServiceConfig) where
  schedule-store :
      (state : SessionState) (id : Text) (s : Service) → (schedule c state id s).store ≡ s.store
  schedule-store active id s = refl
  schedule-store completed id s = refl

  pub resolve_existing-store :
      (session : ProcessSession) (fp : Text) (n : ℕ) (id : Text) (s : Service)
      → (resolve_existing c session fp n id s).1.store ≡ s.store
  unfolding resolve_existing
  resolve_existing-store session fp n id s =
      elim (Bool-cases (is_payload c session.original fp n)) [
        | inl same ↦ rw same refl
        | inr other ↦ elim (Bool-cases (is_payload c session.masked fp n)) [
          | inl again ↦ rw (other, again) (schedule-store session.state id s)
          | inr neither ↦ rw (other, neither) refl
        ]
      ]

  set_exception-Accounts :
      {leak : ℕ} (r : Raised) (future : Future) (s : Store)
      → Accounts leak s
      → Accounts leak (set_exception c r future s)
  unfolding set_exception
  set_exception-Accounts r future s a = elim (Option-cases (get_elem? s.futures future)) [
    | inl none_there ↦ rw (none_there, set_exception) a
    | inr (waiting, there) ↦ rw (there, set_exception) a
    | inr (result x, there) ↦ rw (there, set_exception) a
    | inr (exception x, there) ↦ rw (there, set_exception) a
  ]

  pub count_rejected-store : (e : ProcessError) (s : Service) → (count_rejected e s).store ≡ s.store
  unfolding count_rejected
  count_rejected-store (process_error m) s = refl
  count_rejected-store (validation_error m) s = refl
  count_rejected-store (conflict_error m) s = refl
  count_rejected-store (payload_too_large_error m) s = refl
  count_rejected-store (too_many_requests_error m r) s = refl
  count_rejected-store (gone_error m) s = refl
  count_rejected-store (forbidden_error m) s = refl

  pub wake-store :
      (future : Future) (b : Bool) (o : Option FutureState) (s : Service)
      → (wake c future b o s).1.store ≡ s.store
  unfolding wake
  wake-store future true o s = refl
  wake-store future false (some (result x)) s = refl
  wake-store future false (some (exception timeout_error)) s = refl
  wake-store future false (some (exception other_error)) s = refl
  wake-store future false (some waiting) s = refl
  wake-store future false none s = refl

  module _ {leak : ℕ} where
    await_pending-Accounts :
        (id : Text) (future : Future) (fp : Text) (n : ℕ) (s : Service)
        → Accounts leak s.store
        → Accounts leak (await_pending c id future fp n s).1.store
    unfolding await_pending
    await_pending-Accounts id future fp n s a =
        elim (Option-cases (get c.store_config id s.store).0) [
          | inl gone ↦ rw (gone, await_pending) (get-Accounts c.store_config id s.store a)
          | inr (session, there) ↦
              rw (there, await_pending)
                (rw
                  (resolve_existing-store session fp n id
                    (record s { store = (get c.store_config id s.store).1 }))
                  (get-Accounts c.store_config id s.store a))
        ]

    joined-Accounts :
        (payload id : Text) (r : Outcome PendingResult) (s : Service)
        → Accounts leak s.store
        → Accounts leak (joined c payload id r s).1.store
    unfolding joined
    joined-Accounts payload id (raise e) s a = rw (count_rejected-store e s) a
    joined-Accounts payload id (ok p) s a = elim (Bool-cases p.is_new) [
      | inl new ↦ rw new a
      | inr old ↦ elim (Bool-cases p.conflict) [
        | inl clash ↦ rw (old, clash) a
        | inr agree ↦ rw (old, agree) (await_pending-Accounts id p.future _ _ s a)
      ]
    ]

    start-Accounts :
        (payload id : Text) (s : Service)
        → Accounts leak s.store
        → Accounts leak (start c payload id s).1.store
    unfolding start
    start-Accounts payload id s a =
        elim (Bool-cases (ltb c.max_payload_bytes (utf8_length payload))) [
          | inl large ↦ rw large a
          | inr small ↦ elim (Bool-cases (ltb c.max_estimated_tokens (estimate_tokens payload))) [
            | inl long ↦ rw (small, long) a
            | inr short ↦
                rw (small, short)
                  (joined-Accounts payload id _ _
                    (get_or_create_pending-Accounts c.store_config id _ _ s.store a))
          ]
        ]

    crashed-Accounts :
        (r : Raised) (id : Text) (future : Future) (s : Service)
        → Accounts leak s.store
        → Accounts leak (crashed c r id future s).1.store
    unfolding crashed
    crashed-Accounts r id future s a =
        set_exception-Accounts r future _ (release_pending-Accounts id future s.store a)

    deliver-Accounts :
        (id text : Text) (future : Future) (o : Option FutureState) (s : Service)
        → Accounts leak s.store
        → Accounts leak (deliver c id text future o s).1.store
    unfolding deliver
    deliver-Accounts id text future none s a = crashed-Accounts other_error id future s a
    deliver-Accounts id text future (some waiting) s a = a
    deliver-Accounts id text future (some (result x)) s a =
        crashed-Accounts other_error id future s a
    deliver-Accounts id text future (some (exception x)) s a =
        crashed-Accounts other_error id future s a

    run_background-Accounts :
        (ids : List Text) (s : Service)
        → Accounts leak s.store
        → Accounts leak (run_background c ids s).store
    unfolding run_background
    run_background-Accounts [] s a = a
    run_background-Accounts (id ∷ ids) s a = complete-Accounts c.store_config id s.store a

  serve-Accounts :
      (e : Event) (s : Service) {leak : ℕ}
      → Accounts leak s.store
      → Accounts (lost c e s leak) (serve c e s).store
  unfolding serve lost masked failed evict_round
  serve-Accounts (request payload id) s a = start-Accounts payload id s a
  serve-Accounts (engine_done id payload future (found text n types)) s a =
      deliver-Accounts id text future _ _
        (publish_active-Accounts c.store_config id payload text n types s.store a)
  serve-Accounts (engine_done id payload future (process_failure x)) s a =
      release_pending-Accounts id future s.store a
  serve-Accounts (engine_done id payload future (other_failure r)) s a =
      crashed-Accounts r id future s a
  serve-Accounts (looked future b) s a =
      rw (wake-store future b (get_elem? s.store.futures future) s) a
  serve-Accounts background_turn s a = run_background-Accounts s.background s a
  serve-Accounts (eviction_turn limit) s a =
      evict_expired-Accounts c.store_config (some limit) s.store a

  -- Whatever the events and their order, `current_bytes` is the sum of what the sessions and the
  -- reservations hold, plus the sizes of the sessions that a masking overwrote; no id has two
  -- sessions or two reservations.
  pub serve_all-Accounts :
      (es : List Event) (s : Service) {leak : ℕ}
      → Accounts leak s.store
      → Accounts (lost_all c es s leak) (serve_all c es s).store
  unfolding serve_all lost_all
  serve_all-Accounts [] s a = a
  serve_all-Accounts (e ∷ es) s a = serve_all-Accounts es (serve c e s) (serve-Accounts e s a)

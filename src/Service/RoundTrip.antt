-- ===== src/Service/RoundTrip.antt =====
-- `process` on an id whose masking has ended: the round trip and the waiters.
use privy_gate.Common.{
  false, ℕ, suc, ◌+◌, ◌<◌, ◌≡◌, refl, sym, ap, ◌∙◌, true, inl, inr, List, some, Text, arith, ◌==◌,
  text_eq, text_eq_iff, Bool-cases, Option-cases, get_elem?, get_elem?-set_self, get_elem?-lt, set,
}
use privy_gate.Common.Dict
use privy_gate.Errors.{ok}
use privy_gate.Store.{
  Config, Store, ProcessSession, Future, FutureState, waiting, result, settle, exception, Raised,
  timeout_error, other_error,
}
use privy_gate.Store.Sessions.{publish_active, new_session, release_pending}
use privy_gate.Service.{
  ServiceConfig, Service, Task, finished, EngineAnswer, found, process_failure, other_failure,
  masked, failed, crashed, set_exception, wake, start, propagated, awaiting, waiter_timeout,
}
use privy_gate.Service.Answers.{IsLive, Fits, Distinct, reply, start-reply}
use privy_gate.Service.Masking.{
  get-publish_active, pending-publish_active, readings-publish_active, futures-publish_active,
  masked-delivers,
}

pub release_pending-futures :
    (id : Text) (future : Future) (s : Store) → (release_pending id future s).futures ≡ s.futures
unfolding release_pending
release_pending-futures id future s = elim (Option-cases (Dict.get id s.pending)) [
  | inl free ↦ rw (free, release_pending) refl
  | inr (p, there) ↦ elim (Bool-cases (p.future == future)) [
    | inl own ↦ rw (there, release_pending) (rw own refl)
    | inr other ↦ rw (there, release_pending) (rw other refl)
  ]
]

pub release_pending-sessions :
    (id : Text) (future : Future) (s : Store) → (release_pending id future s).sessions ≡ s.sessions
unfolding release_pending
release_pending-sessions id future s = elim (Option-cases (Dict.get id s.pending)) [
  | inl free ↦ rw (free, release_pending) refl
  | inr (p, there) ↦ elim (Bool-cases (p.future == future)) [
    | inl own ↦ rw (there, release_pending) (rw own refl)
    | inr other ↦ rw (there, release_pending) (rw other refl)
  ]
]

-- What the engine's answer makes of the future of the leader.
abbrev pub settled : EngineAnswer → FutureState
settled (found text n types) = result text
settled (process_failure e) = waiting
settled (other_failure r) = exception r

module _ (c : ServiceConfig) where
  crashed-future :
      (r : Raised) (id : Text) (future : Future) (s : Service)
      → get_elem? s.store.futures future ≡ some waiting
      → get_elem? (crashed c r id future s).1.store.futures future ≡ some (exception r)
  unfolding crashed set_exception
  crashed-future r id future s waits =
      let kept = release_pending-futures id future s.store in
      rw (kept, crashed, set_exception)
        (rw (waits, set_exception)
          (ap (λ fs. get_elem? (set fs future (exception r)) future) kept
            ∙ get_elem?-set_self s.store.futures future (exception r)
                (get_elem?-lt s.store.futures future waits)))

  masked-future :
      (id payload : Text) (future : Future) (a : EngineAnswer) (s : Service)
      → get_elem? s.store.futures future ≡ some waiting
      → get_elem? (masked c id payload future a s).1.store.futures future ≡ some (settled a)
  unfolding masked failed
  masked-future id payload future (found text n types) s waits =
      let kept = futures-publish_active c.store_config id payload text n types s.store in
      ap (λ (r : Task × Service). get_elem? r.1.store.futures future)
        (masked-delivers c id payload text future n types s waits)
      ∙ ap (λ fs. get_elem? (set fs future (result text)) future) kept
      ∙ get_elem?-set_self s.store.futures future (result text)
          (get_elem?-lt s.store.futures future waits)
  masked-future id payload future (process_failure e) s waits =
      ap (λ fs. get_elem? fs future) (release_pending-futures id future s.store) ∙ waits
  masked-future id payload future (other_failure r) s waits = crashed-future r id future s waits

  -- What a waiter of the future finds when it looks before its time is up.
  abbrev pub waiter_answer : Future → EngineAnswer → Service → Task × Service
  waiter_answer future (found text n types) u = (finished (ok text), u)
  waiter_answer future (process_failure e) u = (awaiting future, u)
  waiter_answer future (other_failure timeout_error) u = waiter_timeout c u
  waiter_answer future (other_failure other_error) u = (propagated, u)

  -- Where the leader's future waits, a waiter that looks at it after the leader has gone on, before
  -- its time is up, gets the masked text if the engine found it, waits on if the engine failed with
  -- a domain error, is told 429 and counted as rate limited if it failed with TimeoutError, and
  -- gets the leader's exception if it failed otherwise. Once its time is up it is told 429 in each
  -- of these cases.
  pub masked-wake :
      (id payload : Text) (future : Future) (a : EngineAnswer) (s u : Service)
      → get_elem? s.store.futures future ≡ some waiting
      → u.store.futures ≡ (masked c id payload future a s).1.store.futures
      → (wake c future false (get_elem? u.store.futures future) u ≡ waiter_answer future a u)
        × (wake c future true (get_elem? u.store.futures future) u ≡ waiter_timeout c u)
  unfolding wake
  masked-wake id payload future a s u waits same =
      let e : get_elem? u.store.futures future ≡ some (settled a) =
        ap (λ fs. get_elem? fs future) same ∙ masked-future id payload future a s waits in
      (woken a e, refl)
    where
      woken :
          (a : EngineAnswer)
          → get_elem? u.store.futures future ≡ some (settled a)
          → wake c future false (get_elem? u.store.futures future) u ≡ waiter_answer future a u
      woken (found text n types) e = rw (e, wake) refl
      woken (process_failure x) e = rw (e, wake) refl
      woken (other_failure timeout_error) e = rw (e, wake) refl
      woken (other_failure other_error) e = rw (e, wake) refl

  -- A session just published answers its two texts.
  reply-original : (session : ProcessSession) → reply session session.original ≡ ok session.masked
  unfolding reply
  reply-original session = rw ((text_eq_iff session.original session.original).1 refl) refl

  reply-masked : (session : ProcessSession) → reply session session.masked ≡ ok session.original
  unfolding reply
  reply-masked session = elim (Bool-cases (text_eq session.masked session.original)) [
    | inl same ↦ rw same (ap ok ((text_eq_iff session.masked session.original).0 same))
    | inr differs ↦ rw (differs, (text_eq_iff session.masked session.masked).1 refl) refl
  ]

  -- Where the leader's future waits and the engine finds a masked text: `process` answers it; and
  -- as long as two more readings of the clock stay within the ACTIVE TTL, the two texts are within
  -- the limits and SHA-256 tells them apart, the next call for the id with the original answers the
  -- masked text again, and one with the masked text answers the original.
  pub masked-round_trip :
      (id payload text : Text) (future : Future) (n : ℕ) (types : List Text) (s : Service)
      → get_elem? s.store.futures future ≡ some waiting
      → (let clock = c.store_config.time_func in
          (clock (suc s.store.readings) < clock s.store.readings + c.store_config.active_ttl)
          × (clock (suc (suc s.store.readings))
              < clock s.store.readings + c.store_config.active_ttl))
      → Fits c payload
      → Fits c text
      → Distinct c payload text
      → let r : Task × Service = masked c id payload future (found text n types) s in
        (r.0 ≡ finished (ok text))
        × ((start c payload id r.1).0 ≡ finished (ok text))
        × ((start c text id r.1).0 ≡ finished (ok payload))
  unfolding new_session
  masked-round_trip id payload text future n types s waits times fits fits' distinct =
      let sc : Config = c.store_config in
      let session : ProcessSession = new_session sc id payload text n types s.store in
      let delivered = masked-delivers c id payload text future n types s waits in
      let read = readings-publish_active sc id payload text n types s.store in
      let live : IsLive sc session
          (settle future (result text) (publish_active sc id payload text n types s.store)) =
        record {
          now = omega (arith, times.0, ap sc.time_func read);
          soon = omega (arith, times.1, ap (λ m. sc.time_func (suc m)) read);
        } in
      let free = pending-publish_active sc id payload text n types s.store in
      let there = get-publish_active sc id payload text n types s.store in
      (
        ap (λ (r : Task × Service). r.0) delivered,
        ap (λ (r : Task × Service). (start c payload id r.1).0) delivered
            ∙ start-reply c payload id _ {session = session} free there live fits (λ e. refl)
                distinct
            ∙ ap finished (reply-original session),
        ap (λ (r : Task × Service). (start c text id r.1).0) delivered
            ∙ start-reply c text id _ {session = session} free there live fits'
                (λ e. sym (distinct (sym e))) (λ e. refl)
            ∙ ap finished (reply-masked session),
      )

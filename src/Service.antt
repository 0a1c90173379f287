-- ===== src/Service.antt =====
-- app/process_service.py: `ProcessService`, over the store of `Store.antt`.
--
-- `process` runs without interruption between two points where it waits: the masking engine's
-- thread, and a future. Each stretch is one step: `start` up to the first such point, `masked` from
-- the engine's answer on, `wake` from the future's answer on. The calls of the store return
-- without waiting, since its lock is never held across an `await`. `sha256` and the engine are
-- parameters. The `complete` of a first demasking runs in a task of its own, which `background`
-- keeps until it has run.
pub mod Answers
pub mod Masking
pub mod RoundTrip
pub mod Failure
pub mod Events
pub mod Bytes
pub mod World
pub mod Stretches
pub mod Leaders
pub mod Tests
use privy_gate.Common.{
  ℕ, ◌+◌, ◌/◌, Bool, true, false, ◌&&◌, List, [], ◌∷◌, ◌++◌, Option, none, some, Text, codes, ltb,
  ◌==◌, length, max, get_elem?, text_eq, utf8_length, print_nat, if◌then◌else◌,
}
use privy_gate.Errors.{
  ProcessError, Outcome, ok, raise, process_error, conflict_error, payload_too_large_error,
  too_many_requests_error,
}
use privy_gate.Metrics.{
  ProcessMetrics, inc_mask, inc_demask, inc_retry, inc_rate_limited, inc_conflict, inc_error,
  inc_new_id, add_evictions,
}
use privy_gate.Store.{
  Config, Store, ProcessSession, Future, FutureState, waiting, result, exception, Raised,
  timeout_error, other_error, settle, PendingResult, SessionState, active, completed,
}
use privy_gate.Store.Evict.{evict_expired}
use privy_gate.Store.Sessions.{
  get_or_create_pending, publish_active, get, release_pending, complete, too_many,
}

-- What the engine's `mask` gives, or how it fails; `other_failure` is any other exception, and
-- the cancellation of the request.
pub data EngineAnswer : Type 0 where
  found : Text → ℕ → List Text → EngineAnswer
  process_failure : ProcessError → EngineAnswer
  other_failure : Raised → EngineAnswer

-- Where a call of `process` stands. `propagated` is the exception of the leader, which reaches
-- a waiter as it is.
pub data Task : Type 0 where
  finished : Outcome Text → Task
  propagated : Task
  masking : Text → Text → Future → Task
  awaiting : Future → Task

pub record Service : Type 0 where
  pub store : Store
  pub metrics : ProcessMetrics
  pub background : List Text

pub record ServiceConfig : Type 0 where
  pub store_config : Config
  pub sha256 : Text → Text
  pub max_payload_bytes : ℕ
  pub max_estimated_tokens : ℕ

unfoldable pub estimate_tokens : Text → ℕ
estimate_tokens [] = 0
estimate_tokens (c ∷ s) = max 1 ((length (c ∷ s) + 3) / 4)

abbrev pub payload_conflict : ProcessError
payload_conflict = conflict_error (codes "payload_id already used with a different payload")

abbrev pub bytes_error : ℕ → ℕ → ProcessError
bytes_error limit sent = payload_too_large_error (
    codes "payload too large: maximum payload size is "
    ++ (print_nat limit
        ++ (codes " bytes, but you sent "
            ++ (print_nat sent ++ codes " bytes. Please reduce the length of the payload."))))

abbrev pub tokens_error : ℕ → ℕ → ProcessError
tokens_error limit count = payload_too_large_error (
    codes "payload too large: maximum context length is "
    ++ (print_nat limit
        ++ (codes " tokens, but you requested "
            ++ (print_nat count ++ codes " tokens. Please reduce the length of the payload."))))

abbrev pub count : (ProcessMetrics → ProcessMetrics) → Service → Service
count inc s = record s { metrics = inc s.metrics }

-- `TooManyRequestsError` is the one that `process` counts.
unfoldable pub count_rejected : ProcessError → Service → Service
count_rejected (too_many_requests_error m r) s = count inc_rate_limited s
count_rejected e s = s

module _ (c : ServiceConfig) where
  -- `_payload_fingerprint(text) == (fingerprint, length)`
  unfoldable pub is_payload : Text → Text → ℕ → Bool
  is_payload text fingerprint length =
      text_eq fingerprint (c.sha256 text) && length == utf8_length text

  -- The task that `_resolve_existing` starts for the first demasking.
  abbrev pub schedule : SessionState → Text → Service → Service
  schedule active payload_id s = record s { background = s.background ++ payload_id ∷ [] }
  schedule completed payload_id s = s

  unfoldable pub resolve_existing :
      ProcessSession → Text → ℕ → Text → Service → Outcome Text × Service
  resolve_existing session fingerprint length payload_id s =
      if is_payload session.original fingerprint length
      then (ok session.masked, count inc_retry s)
      else if is_payload session.masked fingerprint length
      then (ok session.original, count inc_demask (schedule session.state payload_id s))
      else (raise payload_conflict, count inc_conflict s)

  unfoldable pub await_pending : Text → Future → Text → ℕ → Service → Task × Service
  await_pending payload_id future fingerprint length s =
      let (session, st) = get c.store_config payload_id s.store in
      elim session [
        | none ↦ (awaiting future, record s { store = st })
        | some session ↦
            let (answer, s') =
              resolve_existing session fingerprint length payload_id (record s { store = st }) in
            (finished answer, s')
      ]

  -- `process` from the answer of the store on.
  unfoldable pub joined : Text → Text → Outcome PendingResult → Service → Task × Service
  joined payload payload_id (raise e) s = (finished (raise e), count_rejected e s)
  joined payload payload_id (ok pending) s =
      if pending.is_new
      then (masking payload_id payload pending.future, s)
      else if pending.conflict
      then (finished (raise payload_conflict), count inc_conflict s)
      else await_pending payload_id pending.future (c.sha256 payload) (utf8_length payload) s

  -- `process` up to the first point where it waits.
  unfoldable pub start : Text → Text → Service → Task × Service
  start payload payload_id s =
      if ltb c.max_payload_bytes (utf8_length payload)
      then (finished (raise (bytes_error c.max_payload_bytes (utf8_length payload))), s)
      else if ltb c.max_estimated_tokens (estimate_tokens payload)
      then (finished (raise (tokens_error c.max_estimated_tokens (estimate_tokens payload))), s)
      else let (answer, st) =
          get_or_create_pending c.store_config payload_id (utf8_length payload) (c.sha256 payload)
            s.store in
        joined payload payload_id answer (record s { store = st })

  -- The two ways out of the `try` block that fail.
  unfoldable pub failed : Text → Future → ProcessError → Service → Task × Service
  failed payload_id future e s = (
    finished (raise e),
    record (count inc_error s) { store = release_pending payload_id future s.store },
  )

  -- `set_exception`, unless the future is done.
  unfoldable pub set_exception : Raised → Future → Store → Store
  set_exception raised future s = elim (get_elem? s.futures future) [
    | some waiting ↦ settle future (exception raised) s
    | _ ↦ s
  ]

  unfoldable pub crashed : Raised → Text → Future → Service → Task × Service
  crashed raised payload_id future s = (
    finished (raise (process_error (codes "processing failed"))),
    record (count inc_error s) {
      store = set_exception raised future (release_pending payload_id future s.store);
    },
  )

  -- `set_result` and what follows it; on a future that is done it raises.
  unfoldable pub deliver : Text → Text → Future → Option FutureState → Service → Task × Service
  deliver payload_id text future (some waiting) s = (
    finished (ok text),
    record s {
      store = settle future (result text) s.store;
      metrics = inc_new_id (inc_mask s.metrics);
    },
  )
  deliver payload_id text future _ s = crashed other_error payload_id future s

  -- `process` from the answer of the engine on.
  unfoldable pub masked : Text → Text → Future → EngineAnswer → Service → Task × Service
  masked payload_id payload future (found text pii_count pii_types) s =
      let st = publish_active c.store_config payload_id payload text pii_count pii_types s.store in
      deliver payload_id text future (get_elem? st.futures future) (record s { store = st })
  masked payload_id payload future (process_failure e) s = failed payload_id future e s
  masked payload_id payload future (other_failure raised) s = crashed raised payload_id future s

  abbrev pub waiter_timeout : Service → Task × Service
  waiter_timeout s =
      (finished (raise (too_many (codes "waiter timed out"))), count inc_rate_limited s)

  -- A waiter when its time is up, or else its future is done, or neither. `asyncio.wait_for` raises
  -- TimeoutError once the time is up, whatever the future has by then; a TimeoutError that the
  -- future has is caught by the same clause.
  unfoldable pub wake : Future → Bool → Option FutureState → Service → Task × Service
  wake future true _ s = waiter_timeout s
  wake future false (some (result text)) s = (finished (ok text), s)
  wake future false (some (exception timeout_error)) s = waiter_timeout s
  wake future false (some (exception other_error)) s = (propagated, s)
  wake future false _ s = (awaiting future, s)

  -- The background task of a first demasking.
  unfoldable pub run_background : List Text → Service → Service
  run_background [] s = s
  run_background (payload_id ∷ ids) s = record s {
    store = complete c.store_config payload_id s.store;
    background = ids;
  }

  -- One round of `StoreEvictionTask._run` in app/metrics.py.
  unfoldable pub evict_round : ℕ → Service → Service
  evict_round batch_limit s =
      let (st, evicted) = evict_expired c.store_config (some batch_limit) s.store in
      record s {
        store = st;
        metrics = if evicted == 0 then s.metrics else add_evictions evicted s.metrics;
      }

-- ===== src/Service/Tests.antt =====
-- Runs of the service on a short payload, and its theorems at them.
use privy_gate.Common.{
  some, ℕ, ◌≡◌, refl, true, false, List, [], ◌∷◌, none, Text, codes, arith, utf8_length, text_eq,
  insert_by, get_elem?, ltb, if◌then◌else◌,
}
use privy_gate.Common.Dict
use privy_gate.Common.Int.{pos, ◌+ℤ◌, ◌-ℤ◌}
use privy_gate.Errors.{ok, raise, process_error}
use privy_gate.Metrics.{no_metrics, inc_error}
use privy_gate.Store.{
  waiting, timeout_error, other_error, ProcessSession, empty, expiry_leb, tombstone_leb,
}
use privy_gate.Store.Evict
use privy_gate.Store.Sessions
use privy_gate.Store.Balance.{Accounts}
use privy_gate.Store.Calls.{empty-Accounts}
use privy_gate.Service.{
  ServiceConfig, Service, Task, finished, masking, awaiting, EngineAnswer, found, other_failure,
  estimate_tokens, count_rejected, is_payload, resolve_existing, await_pending, joined, start,
  failed, set_exception, crashed, deliver, masked, wake, waiter_timeout, run_background,
  evict_round,
}
use privy_gate.Service.Answers.{reply, start-reply}
use privy_gate.Service.RoundTrip.{masked-wake, masked-round_trip}
use privy_gate.Service.Failure.{masked-ok, masked-failure}
use privy_gate.Service.Events.{
  Event, request, engine_done, looked, background_turn, eviction_turn, serve, serve_all, lost,
  lost_all,
}
use privy_gate.Service.Bytes.{serve_all-Accounts}
use privy_gate.Service.World.{
  World, Turn, call, answered, answer_task, wake_task, take_turn, take_turns,
}
use privy_gate.Service.Leaders.{IsLed, no_leader, take_turns-IsLed, answered-delivers}

program : Unit {0}
unfolding Dict.get Dict.put Dict.remove text_eq insert_by utf8_length expiry_leb tombstone_leb ◌+ℤ◌
    ◌-ℤ◌ Evict.drop_tombstone Evict.trim_loop Evict.trim_tombstones Evict.is_tombstoned
    Evict.is_expired Evict.bury Evict.evict_session Evict.evict_entry Evict.evict_loop
    Evict.expired_pending Evict.pop_pending Evict.pop_all Evict.expire_reservations
    Evict.evict_expired Sessions.join_session Sessions.reserve Sessions.admit
    Sessions.get_or_create_pending Sessions.new_session Sessions.unreserve Sessions.install
    Sessions.publish_active Sessions.complete_session Sessions.store_completed Sessions.complete
    Sessions.touch Sessions.get Sessions.expire_all Sessions.release_pending estimate_tokens
    count_rejected is_payload resolve_existing await_pending joined start failed set_exception
    crashed deliver masked wake run_background evict_round serve serve_all lost lost_all reply
    answer_task wake_task take_turn take_turns
program = tt

-- The clock goes one tick from one reading to the next.
abbrev config : ServiceConfig
config = record {
  store_config = record {
    time_func = λ n. n;
    active_ttl = 40;
    completed_ttl = 20;
    max_entries = 4;
    max_bytes = 4000;
    tombstone_ttl = 100;
    tombstone_max_entries = 4;
  };
  sha256 = λ text. text;
  max_payload_bytes = 100;
  max_estimated_tokens = 20;
}

abbrev payload : Text
payload = codes "mail a@b.c"

abbrev text : Text
text = codes "mail X"

abbrev id : Text
id = codes "1"

abbrev new_service : Service
new_service = record { store = empty; metrics = no_metrics; background = [] }

abbrev reserved : Service
reserved = (start config payload id new_service).1

leader_waits : (start config payload id new_service).0 ≡ masking id payload 0
unfolding program
leader_waits = refl

abbrev answer : EngineAnswer
answer = found text 1 []

abbrev delivered : Service
delivered = (masked config id payload 0 answer reserved).1

masked-round_trip_example :
    ((masked config id payload 0 answer reserved).0 ≡ finished (ok text))
    × ((start config payload id (masked config id payload 0 answer reserved).1).0
        ≡ finished (ok text))
    × ((start config text id (masked config id payload 0 answer reserved).1).0
        ≡ finished (ok payload))
unfolding program
masked-round_trip_example =
    masked-round_trip config id payload text 0 1 [] reserved refl (omega arith, omega arith)
      (record { bytes = omega arith; tokens = omega arith })
      (record { bytes = omega arith; tokens = omega arith }) (λ e. e)

-- A second payload for the id is a conflict.
abbrev session : ProcessSession
session = Sessions.new_session config.store_config id payload text 1 [] reserved.store

start-reply_example :
    (start config (codes "else") id delivered).0 ≡ finished (reply session (codes "else"))
unfolding program
start-reply_example =
    start-reply config (codes "else") id delivered refl refl
      (record { now = omega arith; soon = omega arith })
      (record { bytes = omega arith; tokens = omega arith }) (λ e. e) (λ e. e)

-- A waiter that joined before the masking ended.
abbrev joined_twice : Service
joined_twice = (start config payload id reserved).1

abbrev after_timeout : Service
after_timeout = (masked config id payload 0 (other_failure timeout_error) joined_twice).1

masked-wake_example :
    (wake config 0 false (get_elem? after_timeout.store.futures 0) after_timeout
      ≡ waiter_timeout config after_timeout)
    × (wake config 0 true (get_elem? after_timeout.store.futures 0) after_timeout
        ≡ waiter_timeout config after_timeout)
unfolding program
masked-wake_example =
    masked-wake config id payload 0 (other_failure timeout_error) joined_twice after_timeout waits
      refl
  where
    waits : get_elem? joined_twice.store.futures 0 ≡ some waiting
    waits = refl

masked-ok_example : (n : ℕ) × (types : List Text) × (answer ≡ found text n types)
unfolding program
masked-ok_example = masked-ok config id payload 0 answer reserved refl

masked-failure_example :
    ((masked config id payload 0 (other_failure other_error) reserved).0
      ≡ finished (raise (process_error (codes "processing failed"))))
    × ((masked config id payload 0 (other_failure other_error) reserved).1.store.sessions
        ≡ reserved.store.sessions)
    × (Dict.get id (masked config id payload 0 (other_failure other_error) reserved).1.store.pending
        ≡ none)
    × ((masked config id payload 0 (other_failure other_error) reserved).1.metrics
        ≡ inc_error reserved.metrics)
unfolding program
masked-failure_example =
    masked-failure config id payload (other_failure other_error) reserved refl refl

abbrev events : List Event
events =
    request payload id
    ∷ request payload id
    ∷ engine_done id payload 0 answer
    ∷ looked 0 false
    ∷ request text id
    ∷ background_turn
    ∷ eviction_turn 10
    ∷ []

served : (serve_all config events new_service).store.current_bytes ≡ pos 529
unfolding program
served = refl

serve_all-Accounts_example :
    Accounts (lost_all config events new_service 0) (serve_all config events new_service).store
serve_all-Accounts_example =
    serve_all-Accounts config events new_service (empty-Accounts config.store_config)

-- The session expires between the two readings of the clock: a call with another payload waits on
-- the future that carries the masked text, and is answered it.
abbrev leaping : ServiceConfig
leaping = record config {
  store_config = record config.store_config { time_func = λ n. if ltb n 4 then n else 100 };
}

abbrev late : Task × Service
late =
    start leaping (codes "else") id
      (masked leaping id payload 0 answer (start leaping payload id new_service).1).1

expired_between :
    (late.0 ≡ awaiting 1)
    × ((wake leaping 1 false (get_elem? late.1.store.futures 1) late.1).0 ≡ finished (ok text))
unfolding program
expired_between = (refl, refl)

-- Two calls for one id and one for another; the first leads, the second waits.
abbrev turns : List Turn
turns = call payload id ∷ call payload id ∷ call text (codes "2") ∷ []

abbrev three_tasks : World
three_tasks = take_turns config turns (record { service = new_service; tasks = [] })

three_run : three_tasks.tasks ≡ masking id payload 0 ∷ awaiting 0 ∷ masking (codes "2") text 1 ∷ []
unfolding program
three_run = refl

answered-delivers_example :
    get_elem? (take_turn config (answered 2 answer) three_tasks).tasks 2 ≡ some (finished (ok text))
unfolding program
answered-delivers_example =
    answered-delivers config turns new_service 2 (codes "2") text 1 text 1 [] refl

take_turns-IsLed_example : IsLed three_tasks
take_turns-IsLed_example =
    take_turns-IsLed config turns (record { service = new_service; tasks = [] })
      (no_leader new_service)

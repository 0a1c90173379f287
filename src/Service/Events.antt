-- ===== src/Service/Events.antt =====
-- The service under any sequence of events: the stretches of `process` in any order, the tasks of
-- the demasked ids and the rounds of the eviction task.
use privy_gate.Common.{ℕ, ◌+◌, Bool, List, [], ◌∷◌, Text, get_elem?}
use privy_gate.Common.Dict
use privy_gate.Store.{Future}
use privy_gate.Store.Balance.{overwritten}
use privy_gate.Service.{
  ServiceConfig, Service, EngineAnswer, found, start, masked, wake, run_background, evict_round,
}

pub data Event : Type 0 where
  request : Text → Text → Event
  engine_done : Text → Text → Future → EngineAnswer → Event
  looked : Future → Bool → Event
  background_turn : Event
  eviction_turn : ℕ → Event

module _ (c : ServiceConfig) where
  unfoldable pub serve : Event → Service → Service
  serve (request payload id) s = (start c payload id s).1
  serve (engine_done id payload future a) s = (masked c id payload future a s).1
  serve (looked future timed_out) s =
      (wake c future timed_out (get_elem? s.store.futures future) s).1
  serve background_turn s = run_background c s.background s
  serve (eviction_turn limit) s = evict_round c limit s

  unfoldable pub serve_all : List Event → Service → Service
  serve_all [] s = s
  serve_all (e ∷ es) s = serve_all es (serve e s)

  -- The bytes that are counted and held by nothing after an event.
  unfoldable pub lost : Event → Service → ℕ → ℕ
  lost (engine_done id payload future (found text n types)) s leak =
      leak + overwritten (Dict.get id s.store.sessions)
  lost _ s leak = leak

  unfoldable pub lost_all : List Event → Service → ℕ → ℕ
  lost_all [] s leak = leak
  lost_all (e ∷ es) s leak = lost_all es (serve e s) (lost e s leak)

-- ===== src/Service/World.antt =====
-- The calls of `process` that share a service, in any interleaving of their stretches.
use privy_gate.Common.{ℕ, Bool, List, [], ◌∷◌, ◌++◌, Option, some, Text, get_elem?, set}
use privy_gate.Service.{
  ServiceConfig, Service, Task, masking, awaiting, EngineAnswer, start, masked, wake,
  run_background, evict_round,
}

pub record World : Type 0 where
  pub service : Service
  pub tasks : List Task

-- A new call with its payload and id; the engine's answer to the task of a number; a waiting task
-- of a number that looks at its future; the next background task; a round of eviction.
pub data Turn : Type 0 where
  call : Text → Text → Turn
  answered : ℕ → EngineAnswer → Turn
  looks : ℕ → Bool → Turn
  background_runs : Turn
  evicts : ℕ → Turn

-- The task of number `i` goes on.
abbrev pub resume : ℕ → Task × Service → World → World
resume i r w = record { service = r.1; tasks = set w.tasks i r.0 }

module _ (c : ServiceConfig) where
  unfoldable pub answer_task : ℕ → EngineAnswer → Option Task → World → World
  answer_task i a (some (masking id payload future)) w =
      resume i (masked c id payload future a w.service) w
  answer_task i a _ w = w

  unfoldable pub wake_task : ℕ → Bool → Option Task → World → World
  wake_task i timed_out (some (awaiting future)) w =
      resume i (wake c future timed_out (get_elem? w.service.store.futures future) w.service) w
  wake_task i timed_out _ w = w

  unfoldable pub take_turn : Turn → World → World
  take_turn (call payload id) w =
      let (t, s) = start c payload id w.service in record { service = s; tasks = w.tasks ++ t ∷ [] }
  take_turn (answered i a) w = answer_task i a (get_elem? w.tasks i) w
  take_turn (looks i timed_out) w = wake_task i timed_out (get_elem? w.tasks i) w
  take_turn background_runs w = record w {
    service = run_background c w.service.background w.service;
  }
  take_turn (evicts limit) w = record w { service = evict_round c limit w.service }

  unfoldable pub take_turns : List Turn → World → World
  take_turns [] w = w
  take_turns (t ∷ ts) w = take_turns ts (take_turn t w)

-- ===== src/Service/Leaders.antt =====
-- The futures of the leaders, the calls of `process` that wait for the engine.
use privy_gate.Common.{
  ℕ, ◌≡◌, ◌≢◌, refl, sym, ap, ◌∙◌, Bool, inl, inr, List, [], ◌∷◌, ◌++◌, Option, none, some, Text,
  arith, length, get_elem?, get_elem?-append_last, get_elem?-lt, get_elem?-set_inv,
  get_elem?-set_self, get_elem?-append, get_elem?-append_inv,
}
use privy_gate.Errors.{ok}
use privy_gate.Store.{Future, FutureState, waiting}
use privy_gate.Store.Futures.{futures-evict_expired, futures-complete}
use privy_gate.Service.{
  ServiceConfig, Service, Task, finished, propagated, masking, awaiting, EngineAnswer, found, start,
  masked, wake, run_background, evict_round,
}
use privy_gate.Service.Bytes.{wake-store}
use privy_gate.Service.Masking.{masked-delivers}
use privy_gate.Service.World.{
  World, Turn, call, answered, looks, background_runs, evicts, resume, answer_task, wake_task,
  take_turn, take_turns,
}
use privy_gate.Service.Stretches.{Begins, start-Begins, masked-others, masked-ends, wake-ends}

-- The future of every leader waits, and two leaders have two futures.
pub record IsLed (w : World) : Type 0 where
  pub waits :
      (i : ℕ) (id payload : Text) (f : Future)
      → get_elem? w.tasks i ≡ some (masking id payload f)
      → get_elem? w.service.store.futures f ≡ some waiting
  pub alone :
      (i j : ℕ) (id payload id' payload' : Text) (f : Future)
      → get_elem? w.tasks i ≡ some (masking id payload f)
      → get_elem? w.tasks j ≡ some (masking id' payload' f)
      → i ≡ j

-- A service whose futures are the same leaves the leaders as they are.
IsLed-futures :
    (w : World) (s : Service)
    → s.store.futures ≡ w.service.store.futures
    → IsLed w
    → IsLed (record w { service = s })
IsLed-futures w s e l = record {
  waits = λ i id p f h. ap (λ fs. get_elem? fs f) e ∙ l.waits i id p f h;
  alone = l.alone;
}

-- A new task.
IsLed-call :
    (w : World) (r : Task × Service)
    → Begins w.service r
    → IsLed w
    → IsLed (record { service = r.1; tasks = w.tasks ++ r.0 ∷ [] })
IsLed-call w r b l = record {
  waits = λ i id p f h. elim (get_elem?-append_inv w.tasks r.0 i h) [
    | inl old ↦
        ap (λ fs. get_elem? fs f) b.extends
        ∙ get_elem?-append w.service.store.futures b.added f (l.waits i id p f old)
    | inr (last, new) ↦
        let (one, here) = b.leads id p f new in
        rw (b.extends, one, here) (get_elem?-append_last w.service.store.futures waiting)
  ];
  alone = λ i j id p id' p' f h k. elim (get_elem?-append_inv w.tasks r.0 i h) [
    | inl old ↦ elim (get_elem?-append_inv w.tasks r.0 j k) [
      | inl old' ↦ l.alone i j id p id' p' f old old'
      | inr (last, new) ↦ absurd (too_late i id p f old (b.leads id' p' f new).1)
    ]
    | inr (last, new) ↦ elim (get_elem?-append_inv w.tasks r.0 j k) [
      | inl old' ↦ absurd (too_late j id' p' f old' (b.leads id p f new).1)
      | inr (last', new') ↦ last ∙ sym last'
    ]
  ];
}
  where
    too_late :
        (i : ℕ) (id p : Text) (f : Future)
        → get_elem? w.tasks i ≡ some (masking id p f)
        → f ≡ length w.service.store.futures
        → ⊥
    too_late i id p f h e =
        let small = get_elem?-lt w.service.store.futures f (l.waits i id p f h) in omega arith

-- A task that goes on, ends, and leaves the futures of other leaders alone.
IsLed-resume :
    (w : World) (i : ℕ) (r : Task × Service)
    → ((id p : Text) (f : Future) → r.0 ≢ masking id p f)
    → ((j : ℕ) (id p : Text) (f : Future)
        → i ≢ j
        → get_elem? w.tasks j ≡ some (masking id p f)
        → get_elem? r.1.store.futures f ≡ get_elem? w.service.store.futures f)
    → IsLed w
    → IsLed (resume i r w)
IsLed-resume w i r ends others l = record {
  waits = λ j id p f h. elim (get_elem?-set_inv w.tasks i j r.0 h) [
    | inl (same, new) ↦ absurd (ends id p f new)
    | inr (other, old) ↦ others j id p f other old ∙ l.waits j id p f old
  ];
  alone = λ j k id p id' p' f h h'. elim (get_elem?-set_inv w.tasks i j r.0 h) [
    | inl (same, new) ↦ absurd (ends id p f new)
    | inr (other, old) ↦ elim (get_elem?-set_inv w.tasks i k r.0 h') [
      | inl (same, new) ↦ absurd (ends id' p' f new)
      | inr (other', old') ↦ l.alone j k id p id' p' f old old'
    ]
  ];
}

pub no_leader : (s : Service) → IsLed (record { service = s; tasks = [] })
no_leader s = record {
  waits = λ i id p f h. absurd (ground arith);
  alone = λ i j id p id' p' f h k. absurd (ground arith);
}

module _ (c : ServiceConfig) where
  run_background-futures :
      (ids : List Text) (s : Service) → (run_background c ids s).store.futures ≡ s.store.futures
  unfolding run_background
  run_background-futures [] s = refl
  run_background-futures (id ∷ ids) s = futures-complete c.store_config id s.store

  answer_task-IsLed :
      (i : ℕ) (a : EngineAnswer) (o : Option Task) (w : World)
      → get_elem? w.tasks i ≡ o
      → IsLed w
      → IsLed (answer_task c i a o w)
  unfolding answer_task
  answer_task-IsLed i a none w h l = l
  answer_task-IsLed i a (some (finished o)) w h l = l
  answer_task-IsLed i a (some propagated) w h l = l
  answer_task-IsLed i a (some (awaiting f)) w h l = l
  answer_task-IsLed i a (some (masking id payload future)) w h l =
      IsLed-resume w i (masked c id payload future a w.service)
        (λ j p f. masked-ends c id payload future a w.service j p f)
        (λ j id' p' f differ there. masked-others c id payload future f a w.service (λ e.
          differ
            (l.alone i j id payload id' p' f (h ∙ ap (λ g. some (masking id payload g)) e) there)))
        l

  wake_task-IsLed :
      (i : ℕ) (b : Bool) (o : Option Task) (w : World) → IsLed w → IsLed (wake_task c i b o w)
  unfolding wake_task
  wake_task-IsLed i b none w l = l
  wake_task-IsLed i b (some (finished o)) w l = l
  wake_task-IsLed i b (some propagated) w l = l
  wake_task-IsLed i b (some (masking id payload f)) w l = l
  wake_task-IsLed i b (some (awaiting future)) w l =
      let o : Option FutureState = get_elem? w.service.store.futures future in
      IsLed-resume w i (wake c future b o w.service)
        (λ j p f. wake-ends c future b o w.service j p f)
        (λ j id p f differ there.
          ap (λ t. get_elem? t.futures f) (wake-store c future b o w.service))
        l

  take_turn-IsLed : (t : Turn) (w : World) → IsLed w → IsLed (take_turn c t w)
  unfolding take_turn evict_round
  take_turn-IsLed (call payload id) w l =
      IsLed-call w (start c payload id w.service) (start-Begins c payload id w.service) l
  take_turn-IsLed (answered i a) w l = answer_task-IsLed i a (get_elem? w.tasks i) w refl l
  take_turn-IsLed (looks i b) w l = wake_task-IsLed i b (get_elem? w.tasks i) w l
  take_turn-IsLed background_runs w l =
      IsLed-futures w _ (run_background-futures w.service.background w.service) l
  take_turn-IsLed (evicts limit) w l =
      IsLed-futures w _ (futures-evict_expired c.store_config (some limit) w.service.store) l

  -- Whatever turns are taken, the future of every call that waits for the engine waits, and no two
  -- such calls have the same future.
  pub take_turns-IsLed : (ts : List Turn) (w : World) → IsLed w → IsLed (take_turns c ts w)
  unfolding take_turns
  take_turns-IsLed [] w l = l
  take_turns-IsLed (t ∷ ts) w l = take_turns-IsLed ts (take_turn c t w) (take_turn-IsLed t w l)

  -- When a call waits for the engine, after any turns from a world without tasks, and the engine
  -- finds a masked text, the call ends with that text: its future is never settled before.
  pub answered-delivers :
      (ts : List Turn) (s : Service) (i : ℕ) (id payload : Text) (f : Future) (text : Text) (n : ℕ)
      (types : List Text)
      → get_elem? (take_turns c ts (record { service = s; tasks = [] })).tasks i
        ≡ some (masking id payload f)
      → get_elem?
          (take_turn c
            (answered i (found text n types))
            (take_turns c ts (record { service = s; tasks = [] }))).tasks
          i
        ≡ some (finished (ok text))
  unfolding take_turn answer_task
  answered-delivers ts s i id payload f text n types h =
      let w : World = take_turns c ts (record { service = s; tasks = [] }) in
      let led = take_turns-IsLed ts (record { service = s; tasks = [] }) (no_leader s) in
      let a : EngineAnswer = found text n types in
      let ended =
        masked-delivers c id payload text f n types w.service (led.waits i id payload f h) in
      ap (λ o. get_elem? (answer_task c i a o w).tasks i) h
      ∙ get_elem?-set_self w.tasks i (masked c id payload f a w.service).0
          (get_elem?-lt w.tasks i h)
      ∙ ap (λ (r : Task × Service). some r.0) ended

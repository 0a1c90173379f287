-- ===== src/Service/Stretches.antt =====
-- What the stretches of `process` do to the table of futures.
use privy_gate.Common.{
  ℕ, ◌≡◌, ◌≢◌, refl, sym, ap, ◌∙◌, Bool, true, false, inl, inr, List, [], ◌∷◌, ◌++◌, Option, none,
  some, Text, Bool-cases, Option-cases, length, get_elem?, set, get_elem?-set_other, ltb,
  utf8_length, append-nil,
}
use privy_gate.Errors.{Outcome, ok, raise}
use privy_gate.Store.{
  Store, PendingResult, Future, FutureState, waiting, result, exception, Raised, timeout_error,
  other_error,
}
use privy_gate.Store.Sessions.{get}
use privy_gate.Store.Futures.{Issues, get_or_create_pending-Issues, futures-get}
use privy_gate.Service.{
  ServiceConfig, Service, Task, finished, masking, EngineAnswer, found, process_failure,
  other_failure, estimate_tokens, await_pending, joined, start, masked, deliver, failed, crashed,
  set_exception, wake,
}
use privy_gate.Service.Bytes.{resolve_existing-store, count_rejected-store}
use privy_gate.Service.Masking.{futures-publish_active}
use privy_gate.Service.RoundTrip.{release_pending-futures}

-- What the first stretch of `process` does to the futures.
pub record Begins (s : Service) (r : Task × Service) : Type 0 where
  pub added : List FutureState
  pub extends : r.1.store.futures ≡ s.store.futures ++ added
  pub leads :
      (id payload : Text) (future : Future)
      → r.0 ≡ masking id payload future
      → (added ≡ waiting ∷ []) × (future ≡ length s.store.futures)

module _ (c : ServiceConfig) where
  await_pending-futures :
      (id : Text) (future : Future) (fp : Text) (n : ℕ) (s : Service)
      → (await_pending c id future fp n s).1.store.futures ≡ s.store.futures
  unfolding await_pending
  await_pending-futures id future fp n s = elim (Option-cases (get c.store_config id s.store).0) [
    | inl gone ↦ rw (gone, await_pending) (futures-get c.store_config id s.store)
    | inr (session, there) ↦
        rw (there, await_pending)
          (ap (λ t. t.futures) (resolve_existing-store c session fp n id _)
            ∙ futures-get c.store_config id s.store)
  ]

  await_pending-follows :
      (id : Text) (future : Future) (fp : Text) (n : ℕ) (s : Service) (j p : Text) (f : Future)
      → (await_pending c id future fp n s).0 ≢ masking j p f
  unfolding await_pending
  await_pending-follows id future fp n s j p f =
      elim (Option-cases (get c.store_config id s.store).0) [
        | inl gone ↦ rw (gone, await_pending) (λ e. cc)
        | inr (session, there) ↦ rw (there, await_pending) (λ e. cc)
      ]

  Begins-finished :
      (s u : Service) (o : Outcome Text)
      → u.store.futures ≡ s.store.futures
      → Begins s (finished o, u)
  Begins-finished s u o e = record {
    added = [];
    extends = e ∙ sym (append-nil s.store.futures);
    leads = λ id p f h. cc;
  }

  joined-Begins :
      (payload id : Text) (s : Service) (r : Outcome PendingResult) (t : Store)
      → Issues s.store r t
      → Begins s (joined c payload id r (record s { store = t }))
  unfolding joined
  joined-Begins payload id s (raise e) t i = record {
    added = i.added;
    extends = ap (λ u. u.futures) (count_rejected-store c e (record s { store = t })) ∙ i.extends;
    leads = λ id p f h. cc;
  }
  joined-Begins payload id s (ok p) t i = elim (Bool-cases p.is_new) [
    | inl new ↦ rw new (record {
      added = i.added;
      extends = i.extends;
      leads = λ j q f h.
          let (one, here) = i.fresh p refl new in let e : p.future ≡ f = cc in (one, sym e ∙ here);
    })
    | inr old ↦ elim (Bool-cases p.conflict) [
      | inl clash ↦
          rw (old, clash) (record { added = i.added; extends = i.extends; leads = λ id p f h. cc })
      | inr agree ↦
          rw (old, agree)
            (record {
              added = i.added;
              extends = await_pending-futures id p.future _ _ (record s { store = t }) ∙ i.extends;
              leads = λ j q f h.
                  absurd (await_pending-follows id p.future _ _ (record s { store = t }) j q f h);
            })
    ]
  ]

  pub start-Begins : (payload id : Text) (s : Service) → Begins s (start c payload id s)
  unfolding start
  start-Begins payload id s = elim (Bool-cases (ltb c.max_payload_bytes (utf8_length payload))) [
    | inl large ↦ rw large (Begins-finished s s _ refl)
    | inr small ↦ elim (Bool-cases (ltb c.max_estimated_tokens (estimate_tokens payload))) [
      | inl long ↦ rw (small, long) (Begins-finished s s _ refl)
      | inr short ↦
          rw (small, short)
            (joined-Begins payload id s _ _
              (get_or_create_pending-Issues c.store_config id _ _ s.store))
    ]
  ]

  -- The stretch after the engine's answer ends the task, and leaves the futures of others alone.
  crashed-others :
      (r : Raised) (id : Text) (future g : Future) (s : Service)
      → future ≢ g
      → get_elem? (crashed c r id future s).1.store.futures g ≡ get_elem? s.store.futures g
  unfolding crashed set_exception
  crashed-others r id future g s differ =
      let kept = release_pending-futures id future s.store in
      elim (Option-cases (get_elem? s.store.futures future)) [
        | inl gone ↦
            rw (kept, crashed, set_exception)
              (rw (gone, set_exception) (ap (λ fs. get_elem? fs g) kept))
        | inr (waiting, there) ↦
            rw (kept, crashed, set_exception)
              (rw (there, set_exception)
                (ap (λ fs. get_elem? (set fs future (exception r)) g) kept
                  ∙ get_elem?-set_other s.store.futures future g (exception r) differ))
        | inr (result x, there) ↦
            rw (kept, crashed, set_exception)
              (rw (there, set_exception) (ap (λ fs. get_elem? fs g) kept))
        | inr (exception x, there) ↦
            rw (kept, crashed, set_exception)
              (rw (there, set_exception) (ap (λ fs. get_elem? fs g) kept))
      ]

  deliver-others :
      (id text : Text) (future g : Future) (o : Option FutureState) (s : Service)
      → future ≢ g
      → get_elem? (deliver c id text future o s).1.store.futures g ≡ get_elem? s.store.futures g
  unfolding deliver
  deliver-others id text future g none s differ = crashed-others other_error id future g s differ
  deliver-others id text future g (some waiting) s differ =
      get_elem?-set_other s.store.futures future g (result text) differ
  deliver-others id text future g (some (result x)) s differ =
      crashed-others other_error id future g s differ
  deliver-others id text future g (some (exception x)) s differ =
      crashed-others other_error id future g s differ

  pub masked-others :
      (id payload : Text) (future g : Future) (a : EngineAnswer) (s : Service)
      → future ≢ g
      → get_elem? (masked c id payload future a s).1.store.futures g ≡ get_elem? s.store.futures g
  unfolding masked failed
  masked-others id payload future g (found text n types) s differ =
      deliver-others id text future g _ _ differ
      ∙ ap (λ fs. get_elem? fs g)
          (futures-publish_active c.store_config id payload text n types s.store)
  masked-others id payload future g (process_failure e) s differ =
      ap (λ fs. get_elem? fs g) (release_pending-futures id future s.store)
  masked-others id payload future g (other_failure r) s differ =
      crashed-others r id future g s differ

  deliver-ends :
      (id text : Text) (future : Future) (o : Option FutureState) (s : Service) (j p : Text)
      (f : Future)
      → (deliver c id text future o s).0 ≢ masking j p f
  unfolding deliver crashed
  deliver-ends id text future none s j p f = λ e. cc
  deliver-ends id text future (some waiting) s j p f = λ e. cc
  deliver-ends id text future (some (result x)) s j p f = λ e. cc
  deliver-ends id text future (some (exception x)) s j p f = λ e. cc

  pub masked-ends :
      (id payload : Text) (future : Future) (a : EngineAnswer) (s : Service) (j p : Text)
      (f : Future)
      → (masked c id payload future a s).0 ≢ masking j p f
  unfolding masked failed crashed
  masked-ends id payload future (found text n types) s j p f = deliver-ends id text future _ _ j p f
  masked-ends id payload future (process_failure e) s j p f = λ e. cc
  masked-ends id payload future (other_failure r) s j p f = λ e. cc

  pub wake-ends :
      (future : Future) (b : Bool) (o : Option FutureState) (s : Service) (j p : Text) (f : Future)
      → (wake c future b o s).0 ≢ masking j p f
  unfolding wake
  wake-ends future true o s j p f = λ e. cc
  wake-ends future false (some (result x)) s j p f = λ e. cc
  wake-ends future false (some (exception timeout_error)) s j p f = λ e. cc
  wake-ends future false (some (exception other_error)) s j p f = λ e. cc
  wake-ends future false (some waiting) s j p f = λ e. cc
  wake-ends future false none s j p f = λ e. cc

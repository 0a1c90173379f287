-- ===== src/Service/Failure.antt =====
-- `process` where the engine fails: what is answered, and what is left.
use privy_gate.Common.{
  codes, ℕ, ◌≡◌, refl, ap, ◌∙◌, inl, inr, List, Option, none, some, Text, ==_iff, text_eq_iff,
  Option-cases, get_elem?,
}
use privy_gate.Common.Dict
use privy_gate.Common.Dict.{get-remove}
use privy_gate.Errors.{ok, raise, ProcessError, process_error}
use privy_gate.Store.{Store, Pending, Future, FutureState, waiting, result, exception, Raised}
use privy_gate.Store.Sessions.{release_pending}
use privy_gate.Service.{
  ServiceConfig, Service, Task, finished, EngineAnswer, found, process_failure, other_failure,
  masked, deliver, failed, crashed, set_exception,
}
use privy_gate.Metrics.{inc_error}
use privy_gate.Service.RoundTrip.{release_pending-sessions}

module _ (c : ServiceConfig) where
  delivered-ok :
      (id t : Text) (future : Future) (o : Option FutureState) (s : Service) {text : Text}
      → (deliver c id t future o s).0 ≡ finished (ok text)
      → t ≡ text
  unfolding deliver crashed
  delivered-ok id t future none s e = cc
  delivered-ok id t future (some waiting) s e = cc
  delivered-ok id t future (some (result x)) s e = cc
  delivered-ok id t future (some (exception x)) s e = cc

  -- Whatever the state is, if the leader answers a text, the engine has found that masked text.
  pub masked-ok :
      (id payload : Text) (future : Future) (a : EngineAnswer) (s : Service) {text : Text}
      → (masked c id payload future a s).0 ≡ finished (ok text)
      → (n : ℕ) × (types : List Text) × (a ≡ found text n types)
  unfolding masked crashed failed
  masked-ok id payload future (found t n types) s {text} h =
      (n, types, ap (λ u. found u n types) (delivered-ok id t future _ _ h))
  masked-ok id payload future (process_failure e) s h = cc
  masked-ok id payload future (other_failure r) s h = cc

abbrev pub failure : EngineAnswer → Option ProcessError
failure (found text n types) = none
failure (process_failure e) = some e
failure (other_failure r) = some (process_error (codes "processing failed"))

release_pending-own :
    (id : Text) (s : Store) {p : Pending}
    → Dict.get id s.pending ≡ some p
    → Dict.get id (release_pending id p.future s).pending ≡ none
unfolding release_pending
release_pending-own id s {p} there =
    rw (there, release_pending)
      (rw ((==_iff p.future p.future).1 refl)
        (get-remove id id s.pending ∙ rw ((text_eq_iff id id).1 refl) refl))

set_exception-frame :
    (c : ServiceConfig) (r : Raised) (future : Future) (s : Store)
    → ((set_exception c r future s).sessions ≡ s.sessions)
      × ((set_exception c r future s).pending ≡ s.pending)
unfolding set_exception
set_exception-frame c r future s = elim (Option-cases (get_elem? s.futures future)) [
  | inl none_there ↦ rw (none_there, set_exception) (refl, refl)
  | inr (waiting, there) ↦ rw (there, set_exception) (refl, refl)
  | inr (result x, there) ↦ rw (there, set_exception) (refl, refl)
  | inr (exception x, there) ↦ rw (there, set_exception) (refl, refl)
]

-- When the engine fails, the leader raises: the domain error as it is, or else the fixed one. No
-- session is added, changed or removed, one error is counted, and the leader's reservation is gone.
pub masked-failure :
    (c : ServiceConfig) (id payload : Text) (a : EngineAnswer) (s : Service) {p : Pending}
    {e : ProcessError}
    → failure a ≡ some e
    → Dict.get id s.store.pending ≡ some p
    → let r : Task × Service = masked c id payload p.future a s in
      (r.0 ≡ finished (raise e))
      × (r.1.store.sessions ≡ s.store.sessions)
      × (Dict.get id r.1.store.pending ≡ none)
      × (r.1.metrics ≡ inc_error s.metrics)
unfolding masked failed crashed
masked-failure c id payload (found t n types) s h there = cc
masked-failure c id payload (process_failure x) s {p} h there =
    (cc, release_pending-sessions id p.future s.store, release_pending-own id s.store there, refl)
masked-failure c id payload (other_failure r) s {p} h there =
    let released : Store = release_pending id p.future s.store in
    let frame = set_exception-frame c r p.future released in
    (
      cc,
      frame.0 ∙ release_pending-sessions id p.future s.store,
      ap (Dict.get id) frame.1 ∙ release_pending-own id s.store there,
      refl,
    )

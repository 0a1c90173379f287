-- ===== src/Service/Masking.antt =====
-- `process` after the answer of the masking engine.
use privy_gate.Common.{
  ℕ, suc, ◌≡◌, refl, ap, ◌∙◌, inl, inr, List, none, some, Text, text_eq_iff, Option-cases,
  get_elem?,
}
use privy_gate.Common.Dict
use privy_gate.Common.Dict.{get-put, get-remove}
use privy_gate.Errors.{ok}
use privy_gate.Store.{Config, Store, Future, waiting, result, settle}
use privy_gate.Store.Sessions.{publish_active, install, unreserve, new_session}
use privy_gate.Service.{ServiceConfig, Service, finished, found, masked, deliver}
use privy_gate.Metrics.{inc_mask, inc_new_id}

-- What `unreserve` leaves as it is, and that the reservation is gone.
record Unreserved (id : Text) (s t : Store) : Type 0 where
  gone : Dict.get id t.pending ≡ none
  sessions : t.sessions ≡ s.sessions
  futures : t.futures ≡ s.futures
  readings : t.readings ≡ s.readings

unreserve-Unreserved : (c : Config) (id : Text) (s : Store) → Unreserved id s (unreserve c id s)
unfolding unreserve
unreserve-Unreserved c id s = elim (Option-cases (Dict.get id s.pending)) [
  | inl free ↦
      rw (free, unreserve)
        (record { gone = free; sessions = refl; futures = refl; readings = refl })
  | inr (p, there) ↦
      rw (there, unreserve)
        (record {
          gone = get-remove id id s.pending ∙ rw ((text_eq_iff id id).1 refl) refl;
          sessions = refl;
          futures = refl;
          readings = refl;
        })
]

module _ (c : Config) (id original text : Text) (n : ℕ) (types : List Text) (s : Store) where
  pub get-publish_active :
      Dict.get id (publish_active c id original text n types s).sessions
      ≡ some (new_session c id original text n types s)
  unfolding publish_active install
  get-publish_active =
      get-put id id (new_session c id original text n types s) (unreserve c id s).sessions
      ∙ rw ((text_eq_iff id id).1 refl) refl

  pub pending-publish_active :
      Dict.get id (publish_active c id original text n types s).pending ≡ none
  unfolding publish_active install
  pending-publish_active = (unreserve-Unreserved c id s).gone

  pub futures-publish_active : (publish_active c id original text n types s).futures ≡ s.futures
  unfolding publish_active install
  futures-publish_active = (unreserve-Unreserved c id s).futures

  pub readings-publish_active :
      (publish_active c id original text n types s).readings ≡ suc s.readings
  unfolding publish_active install
  readings-publish_active = ap suc (unreserve-Unreserved c id s).readings

module _ (c : ServiceConfig) where
  -- Where the leader's future waits, its masking delivers.
  pub masked-delivers :
      (id payload text : Text) (future : Future) (n : ℕ) (types : List Text) (s : Service)
      → get_elem? s.store.futures future ≡ some waiting
      → masked c id payload future (found text n types) s ≡ (
        finished (ok text),
        record s {
          store =
              settle future
                (result text)
                (publish_active c.store_config id payload text n types s.store);
          metrics = inc_new_id (inc_mask s.metrics);
        },
      )
  unfolding masked deliver
  masked-delivers id payload text future n types s waits =
      rw (futures-publish_active c.store_config id payload text n types s.store, masked)
        (rw (waits, deliver) refl)

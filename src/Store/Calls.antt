-- ===== src/Store/Calls.antt =====
-- The store under any sequence of calls of its methods, in any order and for any ids: every
-- interleaving of the tasks that share the store is such a sequence, since each method is atomic.
use privy_gate.Common.{ℕ, ◌+◌, ◌≡◌, refl, List, [], ◌∷◌, Option, none, Text, arith}
use privy_gate.Common.Dict
use privy_gate.Common.Dict.{total}
use privy_gate.Common.Int.{pos, ◌≤ℤ◌, eq_of_parts}
use privy_gate.Store.{Config, Store, Future, empty}
use privy_gate.Store.Evict
use privy_gate.Store.Sessions
use privy_gate.Store.Balance.{Accounts, overwritten, size_of_session, size_of_pending}
use privy_gate.Store.Bytes.{
  evict_expired-Accounts, is_tombstoned-Accounts, get_or_create_pending-Accounts,
  publish_active-Accounts, complete-Accounts, get-Accounts, release_pending-Accounts,
}

pub data Call : Type 0 where
  get_or_create_pending : Text → ℕ → Text → Call
  publish_active : Text → Text → Text → ℕ → List Text → Call
  complete : Text → Call
  get : Text → Call
  release_pending : Text → Future → Call
  is_tombstoned : Text → Call
  evict_expired : Option ℕ → Call
  expire_all : Call

module _ (c : Config) where
  -- The store after one call; an error leaves what was written before it.
  unfoldable pub step : Call → Store → Store
  step (get_or_create_pending id n fp) s = (Sessions.get_or_create_pending c id n fp s).1
  step (publish_active id original masked n types) s =
      Sessions.publish_active c id original masked n types s
  step (complete id) s = Sessions.complete c id s
  step (get id) s = (Sessions.get c id s).1
  step (release_pending id future) s = Sessions.release_pending id future s
  step (is_tombstoned id) s = (Evict.is_tombstoned c id s).1
  step (evict_expired limit) s = (Evict.evict_expired c limit s).0
  step expire_all s = Sessions.expire_all c s

  unfoldable pub run : List Call → Store → Store
  run [] s = s
  run (call ∷ calls) s = run calls (step call s)

  -- The bytes that are counted and held by nothing after a call.
  unfoldable pub leak_after : Call → Store → ℕ → ℕ
  leak_after (publish_active id original masked n types) s leak =
      leak + overwritten (Dict.get id s.sessions)
  leak_after expire_all s leak = 0
  leak_after _ s leak = leak

  unfoldable pub leaked : List Call → Store → ℕ → ℕ
  leaked [] s leak = leak
  leaked (call ∷ calls) s leak = leaked calls (step call s) (leak_after call s leak)

  step-Accounts :
      (call : Call) (s : Store) {leak : ℕ}
      → Accounts leak s
      → Accounts (leak_after call s leak) (step call s)
  unfolding step leak_after Sessions.expire_all total
  step-Accounts (get_or_create_pending id n fp) s a = get_or_create_pending-Accounts c id n fp s a
  step-Accounts (publish_active id original masked n types) s a =
      publish_active-Accounts c id original masked n types s a
  step-Accounts (complete id) s a = complete-Accounts c id s a
  step-Accounts (get id) s a = get-Accounts c id s a
  step-Accounts (release_pending id future) s a = release_pending-Accounts id future s a
  step-Accounts (is_tombstoned id) s a = is_tombstoned-Accounts c id s a
  step-Accounts (evict_expired limit) s a = evict_expired-Accounts c limit s a
  step-Accounts expire_all s a = record {
    sessions_unique = tt;
    pending_unique = tt;
    account = omega arith;
  }

  -- Whatever is called in whatever order, `current_bytes` is the sum of what the sessions and the
  -- reservations hold, plus the sizes of the sessions that a `publish_active` overwrote since
  -- the last `expire_all`; no id has two sessions or two reservations.
  pub run-Accounts :
      (calls : List Call) (s : Store) {leak : ℕ}
      → Accounts leak s
      → Accounts (leaked calls s leak) (run calls s)
  unfolding run leaked
  run-Accounts [] s a = a
  run-Accounts (call ∷ calls) s a = run-Accounts calls (step call s) (step-Accounts call s a)

  pub empty-Accounts : Accounts 0 empty
  unfolding total
  empty-Accounts = record { sessions_unique = tt; pending_unique = tt; account = omega arith }

  -- From an empty store, after any calls, `current_bytes` is not below what is held: giving bytes
  -- back never takes the account under the live data, and never below zero.
  pub held-le-current_bytes :
      (calls : List Call)
      → pos (
          total size_of_session (run calls empty).sessions
          + total size_of_pending (run calls empty).pending)
        ≤ℤ (run calls empty).current_bytes
  held-le-current_bytes calls = omega (arith, (run-Accounts calls empty empty-Accounts).account)

  -- No call of the sequence publishes an id that has a session at that time.
  abbrev pub NoOverwrite : List Call → Store → Type 0
  NoOverwrite [] s = Unit
  NoOverwrite (publish_active id original masked n types ∷ calls) s =
      (Dict.get id s.sessions ≡ none)
      × NoOverwrite calls (step (publish_active id original masked n types) s)
  NoOverwrite (call ∷ calls) s = NoOverwrite calls (step call s)

  leaked-NoOverwrite : (calls : List Call) (s : Store) → NoOverwrite calls s → leaked calls s 0 ≡ 0
  unfolding leaked leak_after
  leaked-NoOverwrite [] s no_over = refl
  leaked-NoOverwrite (publish_active id original masked n types ∷ calls) s no_over =
      rw no_over.0
        (leaked-NoOverwrite calls (step (publish_active id original masked n types) s) no_over.1)
  leaked-NoOverwrite (call ∷ calls) s no_over = leaked-NoOverwrite calls (step call s) no_over

  -- From an empty store, after any calls none of which publishes an id that has a session at
  -- that time, `current_bytes` is exactly what the sessions and the reservations hold.
  pub current_bytes_exact :
      (calls : List Call)
      → NoOverwrite calls empty
      → (run calls empty).current_bytes
        ≡ pos (
            total size_of_session (run calls empty).sessions
            + total size_of_pending (run calls empty).pending)
  current_bytes_exact calls no_over = eq_of_parts _ _ (
      omega (
        arith,
        (run-Accounts calls empty empty-Accounts).account,
        leaked-NoOverwrite calls empty no_over,
      ))

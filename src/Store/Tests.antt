-- ===== src/Store/Tests.antt =====
-- Runs of the store on small inputs, and its theorems at concrete stores.
use privy_gate.Common.{
  length, ◌+◌, ◌*◌, ◌≡◌, refl, true, false, List, [], ◌∷◌, none, some, Text, codes, arith,
  utf8_length, text_eq, insert_by,
}
use privy_gate.Common.Dict
use privy_gate.Common.Int.{pos, ◌+ℤ◌, ◌-ℤ◌}
use privy_gate.Errors.{ok}
use privy_gate.Store.{Config, Store, PendingResult, empty, read_time, expiry_leb, tombstone_leb}
use privy_gate.Store.Evict
use privy_gate.Store.Sessions
use privy_gate.Store.Balance.{Accounts}
use privy_gate.Store.Calls.{
  Call, get_or_create_pending, publish_active, get, complete, evict_expired, step, leak_after, run,
  leaked, NoOverwrite, run-Accounts, current_bytes_exact, empty-Accounts,
}
use privy_gate.Store.Drain.{IsTimed, alive}
use privy_gate.Store.Timing.{current, run-empty-IsTimed, run-evict_expired, pending-evict_expired}
use privy_gate.Store.Trim.{trim_tombstones-keeps_live}
use privy_gate.Store.Admission.{Reserved, get_or_create_pending-Reserved}

-- Each reading of the clock is ten ticks after the one before.
abbrev config : Config
config = record {
  time_func = λ n. n * 10;
  active_ttl = 40;
  completed_ttl = 20;
  max_entries = 2;
  max_bytes = 2000;
  tombstone_ttl = 100;
  tombstone_max_entries = 2;
}

abbrev a : Text
a = codes "a"

program : Unit {0}
unfolding Dict.get Dict.put Dict.remove text_eq insert_by utf8_length expiry_leb tombstone_leb ◌+ℤ◌
    ◌-ℤ◌ Evict.drop_tombstone Evict.trim_loop Evict.trim_tombstones Evict.is_tombstoned
    Evict.is_expired Evict.bury Evict.evict_session Evict.evict_entry Evict.evict_loop
    Evict.expired_pending Evict.pop_pending Evict.pop_all Evict.expire_reservations
    Evict.evict_expired Sessions.join_session Sessions.reserve Sessions.admit
    Sessions.get_or_create_pending Sessions.new_session Sessions.unreserve Sessions.install
    Sessions.publish_active Sessions.complete_session Sessions.store_completed Sessions.complete
    Sessions.touch Sessions.get Sessions.expire_all Sessions.release_pending step leak_after run
    leaked
program = tt

abbrev served : List Call
served =
    get_or_create_pending a 5 (codes "f")
    ∷ publish_active a (codes "hello") (codes "xx") 1 []
    ∷ get a
    ∷ complete a
    ∷ []

-- 5 + 2 + 1 bytes of text and the overhead.
served_bytes : (run config served empty).current_bytes ≡ pos 520
unfolding program
served_bytes = refl

-- The mask takes longer than the ACTIVE TTL: the reservation is dropped, the id is reserved and
-- masked again, and the second session takes the place of the first.
abbrev slow : List Call
slow =
    get_or_create_pending a 5 (codes "f")
    ∷ get (codes "b")
    ∷ evict_expired none
    ∷ evict_expired none
    ∷ evict_expired none
    ∷ evict_expired none
    ∷ get_or_create_pending a 5 (codes "f")
    ∷ publish_active a (codes "hello") (codes "xx") 1 []
    ∷ publish_active a (codes "hello") (codes "xx") 1 []
    ∷ []

-- One session of 520 bytes is held, and twice as many bytes are counted.
slow_bytes : (run config slow empty).current_bytes ≡ pos 1040
unfolding program
slow_bytes = refl

slow_leak : leaked config slow empty 0 ≡ 520
unfolding program
slow_leak = refl

run-Accounts_example : Accounts (leaked config slow empty 0) (run config slow empty)
run-Accounts_example = run-Accounts config slow empty (empty-Accounts config)

served-NoOverwrite : NoOverwrite config served empty
unfolding program
served-NoOverwrite = (refl, tt)

current_bytes_exact_example :
    (run config served empty).current_bytes
    ≡ pos (
        Dict.total (λ session. session.session_bytes) (run config served empty).sessions
        + Dict.total (λ p. p.reserved_bytes) (run config served empty).pending)
current_bytes_exact_example = current_bytes_exact config served served-NoOverwrite

run-empty-IsTimed_example : IsTimed (run config served empty)
run-empty-IsTimed_example = run-empty-IsTimed config served

run-evict_expired_example :
    Dict.get a (Evict.evict_expired config none (run config served empty)).0.sessions
    ≡ alive
        (read_time config (run config served empty))
        (Dict.get a (run config served empty).sessions)
run-evict_expired_example = run-evict_expired config served a

-- A reservation that is as old as the ACTIVE TTL at the next reading of the clock.
abbrev aging : List Call
aging =
    get_or_create_pending a 5 (codes "f")
    ∷ evict_expired none
    ∷ evict_expired none
    ∷ evict_expired none
    ∷ []

-- It goes although the limit of the call is zero, and is counted as an eviction.
beyond_limit :
    (length (run config aging empty).pending ≡ 1)
    × ((Evict.evict_expired config (some 0) (run config aging empty)).0.pending ≡ [])
    × ((Evict.evict_expired config (some 0) (run config aging empty)).1 ≡ 1)
unfolding program
beyond_limit = (refl, refl, refl)

pending-evict_expired_example :
    Dict.get a (Evict.evict_expired config (some 0) (run config aging empty)).0.pending
    ≡ current config
        (read_time config (run config aging empty))
        (Dict.get a (run config aging empty).pending)
pending-evict_expired_example =
    pending-evict_expired config (some 0) (run config aging empty) a
      (run-Accounts config aging empty (empty-Accounts config)).pending_unique

abbrev buried : Store
buried = record empty {
  tombstones = (a, 15) ∷ [];
  tombstone_heap =
      record { expiry = 0; payload_id = a } ∷ record { expiry = 15; payload_id = a } ∷ [];
}

trim_tombstones-keeps_live_example :
    Dict.get a (Evict.trim_tombstones config buried).tombstones ≡ some 15
unfolding program
trim_tombstones-keeps_live_example = trim_tombstones-keeps_live config a buried (omega arith) refl

abbrev told : PendingResult
told = record { is_new = true; conflict = false; future = 0 }

told_new : (Sessions.get_or_create_pending config a 5 (codes "f") empty).0 ≡ ok told
unfolding program
told_new = refl

get_or_create_pending-Reserved_example :
    Reserved config a 5
      (codes "f")
      told
      (Sessions.get_or_create_pending config a 5 (codes "f") empty).1
get_or_create_pending-Reserved_example =
    get_or_create_pending-Reserved config a 5 (codes "f") empty told_new refl

-- ===== src/Store.antt =====
-- app/process_store.py: the TTL store of /process sessions. This file has its data, the clock
-- and the heaps; `Evict` and `Sessions` have its methods.
--
-- The methods run under one lock without an `await`, so each is one atomic step from store to
-- store. `time_func` is called several times in a step: it is a function from the number of the
-- reading to the time in ticks, and the store counts its readings. `heapq` is a list in the order
-- of the tuples: the code only pushes, looks at the first entry, pops it and clears. An
-- `asyncio.Future` is its number in `futures`, the table of the futures that the loop has made.
pub mod Evict
pub mod Sessions
pub mod Trim
pub mod Futures
pub mod Absent
pub mod Heap
pub mod Timed
pub mod Drain
pub mod Balance
pub mod Bytes
pub mod Calls
pub mod Timing
pub mod Admission
pub mod Tests
use privy_gate.Common.{
  ℕ, suc, Bool, ◌&&◌, ◌||◌, List, [], ◌∷◌, ◌++◌, Option, Text, ltb, ◌==◌, length, set, text_leb,
}
use privy_gate.Common.Dict.{Dict}
use privy_gate.Common.Int.{ℤ, pos}

pub data SessionState : Type 0 where
  active completed : SessionState

pub record ProcessSession : Type 0 where
  pub original : Text
  pub masked : Text
  pub state : SessionState
  pub created_at : ℕ
  pub last_accessed_at : ℕ
  pub pii_count : ℕ
  pub pii_types : List Text
  pub completed_at : Option ℕ
  pub session_bytes : ℕ
  pub expires_at : ℕ
  pub version : ℕ

abbrev pub Future : Type 0
Future = ℕ

-- What `except TimeoutError` tells apart.
pub data Raised : Type 0 where
  timeout_error other_error : Raised

pub data FutureState : Type 0 where
  waiting : FutureState
  result : Text → FutureState
  exception : Raised → FutureState

pub record PendingResult : Type 0 where
  pub is_new : Bool
  pub conflict : Bool
  pub future : Future

pub record Pending : Type 0 where
  pub future : Future
  pub reserved_bytes : ℕ
  pub created_at : ℕ
  pub fingerprint : Text

-- (expires_at, version, payload_id)
pub record ExpiryEntry : Type 0 where
  pub expires_at : ℕ
  pub version : ℕ
  pub payload_id : Text

-- (expiry, payload_id)
pub record TombstoneEntry : Type 0 where
  pub expiry : ℕ
  pub payload_id : Text

-- What `__init__` is given and never changes.
pub record Config : Type 0 where
  pub time_func : ℕ → ℕ
  pub active_ttl : ℕ
  pub completed_ttl : ℕ
  pub max_entries : ℕ
  pub max_bytes : ℕ
  pub tombstone_ttl : ℕ
  pub tombstone_max_entries : ℕ

pub record Store : Type 0 where
  pub sessions : Dict ProcessSession
  pub pending : Dict Pending
  pub tombstones : Dict ℕ
  pub current_bytes : ℤ
  pub expiry_heap : List ExpiryEntry
  pub version_counter : ℕ
  pub tombstone_heap : List TombstoneEntry
  pub readings : ℕ
  pub futures : List FutureState

abbrev pub empty : Store
empty = record {
  sessions = [];
  pending = [];
  tombstones = [];
  current_bytes = pos 0;
  expiry_heap = [];
  version_counter = 0;
  tombstone_heap = [];
  readings = 0;
  futures = [];
}

abbrev pub session_overhead_bytes : ℕ
session_overhead_bytes = 512

-- The order of the tuples in the two heaps.
unfoldable pub expiry_leb : ExpiryEntry → ExpiryEntry → Bool
expiry_leb a b =
    ltb a.expires_at b.expires_at
    || (a.expires_at == b.expires_at
        && (ltb a.version b.version
            || (a.version == b.version && text_leb a.payload_id b.payload_id)))

unfoldable pub tombstone_leb : TombstoneEntry → TombstoneEntry → Bool
tombstone_leb a b =
    ltb a.expiry b.expiry || (a.expiry == b.expiry && text_leb a.payload_id b.payload_id)

-- `self._time()`
abbrev pub read_time : Config → Store → ℕ
read_time c s = c.time_func s.readings

abbrev pub tick : Store → Store
tick s = record s { readings = suc s.readings }

-- `create_future()`, and `set_result` or `set_exception` on a future.
abbrev pub create_future : FutureState → Store → Store
create_future f s = record s { futures = s.futures ++ f ∷ [] }

abbrev pub next_future : Store → Future
next_future s = length s.futures

abbrev pub settle : Future → FutureState → Store → Store
settle f r s = record s { futures = set s.futures f r }

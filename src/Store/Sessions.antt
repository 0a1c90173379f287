-- ===== src/Store/Sessions.antt =====
-- app/process_store.py: the public methods of `ProcessStore`.
use privy_gate.Common.{
  ℕ, suc, ◌+◌, Bool, true, false, not, List, [], Option, none, some, Text, codes, leb, ◌==◌, length,
  insert_by, text_eq, utf8_length, if◌then◌else◌,
}
use privy_gate.Common.Dict
use privy_gate.Common.Int.{pos, ◌+ℤ◌, ◌-ℤ◌, ltb_ℤ}
use privy_gate.Errors.{ProcessError, Outcome, ok, raise, gone_error, too_many_requests_error}
use privy_gate.Store.{
  Config, Store, ProcessSession, SessionState, active, completed, Pending, PendingResult, Future,
  waiting, result, expiry_leb, read_time, tick, create_future, next_future, session_overhead_bytes,
}
use privy_gate.Store.Evict.{is_tombstoned, is_expired, evict_session, evict_expired}

abbrev pub expired_error : ProcessError
expired_error = gone_error (codes "payload_id expired")

-- `TooManyRequestsError(message, retry_after=1.0)`
abbrev pub too_many : Text → ProcessError
too_many message = too_many_requests_error message 1000

module _ (c : Config) where
  -- The branch of a payload_id that has a session.
  unfoldable pub join_session : Text → ProcessSession → Store → Outcome PendingResult × Store
  join_session payload_id session s =
      if is_expired c session s
      then (raise expired_error, evict_session c payload_id session (tick s))
      else (
        ok (record { is_new = false; conflict = false; future = next_future s }),
        create_future (result session.masked) (tick s),
      )

  -- The reservation that a new payload_id gets.
  abbrev pub new_pending : ℕ → Text → Store → Pending
  new_pending payload_bytes fingerprint s = record {
    future = next_future s;
    reserved_bytes = payload_bytes;
    created_at = read_time c s;
    fingerprint = fingerprint;
  }

  -- The capacity checks of a new payload_id, and its reservation.
  unfoldable pub reserve : Text → ℕ → Text → Store → Outcome PendingResult × Store
  reserve payload_id payload_bytes fingerprint s =
      if leb c.max_entries (length s.pending + length s.sessions)
      then (raise (too_many (codes "store entry limit reached")), s)
      else if ltb_ℤ (pos c.max_bytes) (s.current_bytes +ℤ pos payload_bytes)
      then (raise (too_many (codes "store byte limit reached")), s)
      else if leb c.tombstone_max_entries (length s.tombstones)
      then (raise (too_many (codes "tombstone capacity reached")), s)
      else (
        ok (record { is_new = true; conflict = false; future = next_future s }),
        record (create_future waiting (tick s)) {
          pending = Dict.put payload_id (new_pending payload_bytes fingerprint s) s.pending;
          current_bytes = s.current_bytes +ℤ pos payload_bytes;
        },
      )

  unfoldable pub admit : Text → ℕ → Text → Bool × Store → Outcome PendingResult × Store
  admit payload_id payload_bytes fingerprint (true, s) = (raise expired_error, s)
  admit payload_id payload_bytes fingerprint (false, s) =
      reserve payload_id payload_bytes fingerprint (evict_expired c none s).0

  unfoldable pub get_or_create_pending : Text → ℕ → Text → Store → Outcome PendingResult × Store
  get_or_create_pending payload_id payload_bytes fingerprint s =
      elim (Dict.get payload_id s.pending) [
        | some existing ↦ (
          ok (record {
            is_new = false;
            conflict = not (text_eq existing.fingerprint fingerprint);
            future = existing.future;
          }),
          s,
        )
        | none ↦ elim (Dict.get payload_id s.sessions) [
          | some session ↦ join_session payload_id session s
          | none ↦ admit payload_id payload_bytes fingerprint (is_tombstoned c payload_id s)
        ]
      ]

  abbrev pub session_size : Text → Text → Text → ℕ
  session_size payload_id original masked =
      utf8_length original + utf8_length masked + utf8_length payload_id + session_overhead_bytes

  -- The session that `publish_active` stores.
  unfoldable pub new_session : Text → Text → Text → ℕ → List Text → Store → ProcessSession
  new_session payload_id original masked pii_count pii_types s = record {
    original = original;
    masked = masked;
    state = active;
    created_at = read_time c s;
    last_accessed_at = read_time c s;
    pii_count = pii_count;
    pii_types = pii_types;
    completed_at = none;
    session_bytes = session_size payload_id original masked;
    expires_at = read_time c s + c.active_ttl;
    version = suc s.version_counter;
  }

  -- `self._pending.pop(payload_id, None)` and, last, its bytes; the order of the two writes to
  -- `current_bytes` does not show under the lock.
  unfoldable pub unreserve : Text → Store → Store
  unreserve payload_id s = elim (Dict.get payload_id s.pending) [
    | none ↦ s
    | some p ↦ record s {
      pending = Dict.remove payload_id s.pending;
      current_bytes = s.current_bytes -ℤ pos p.reserved_bytes;
    }
  ]

  -- `self._sessions[payload_id] = session`, its bytes and its entry in the heap.
  unfoldable pub install : Text → ProcessSession → Store → Store
  install payload_id session s = record s {
    sessions = Dict.put payload_id session s.sessions;
    current_bytes = s.current_bytes +ℤ pos session.session_bytes;
    expiry_heap =
        insert_by expiry_leb
          (record {
            expires_at = session.expires_at;
            version = session.version;
            payload_id = payload_id;
          })
          s.expiry_heap;
    version_counter = suc s.version_counter;
    readings = suc s.readings;
  }

  unfoldable pub publish_active : Text → Text → Text → ℕ → List Text → Store → Store
  publish_active payload_id original masked pii_count pii_types s =
      install payload_id (new_session payload_id original masked pii_count pii_types s)
        (unreserve payload_id s)

  -- `completed_at` and `last_accessed_at` are two readings of the clock.
  unfoldable pub complete_session : ProcessSession → Store → ProcessSession
  complete_session session s = record session {
    state = completed;
    completed_at = some (read_time c s);
    last_accessed_at = read_time c (tick s);
    version = suc s.version_counter;
    expires_at = read_time c s + c.completed_ttl;
  }

  abbrev pub is_active : SessionState → Bool
  is_active active = true
  is_active completed = false

  unfoldable pub store_completed : Text → ProcessSession → Store → Store
  store_completed payload_id session s = record s {
    sessions = Dict.put payload_id session s.sessions;
    version_counter = suc s.version_counter;
    expiry_heap =
        insert_by expiry_leb
          (record {
            expires_at = session.expires_at;
            version = session.version;
            payload_id = payload_id;
          })
          s.expiry_heap;
    readings = suc (suc s.readings);
  }

  unfoldable pub complete : Text → Store → Store
  complete payload_id s = elim (Dict.get payload_id s.sessions) [
    | none ↦ s
    | some session ↦
        if is_active session.state
        then store_completed payload_id (complete_session session s) s
        else s
  ]

  unfoldable pub touch : ProcessSession → Store → ProcessSession
  touch session s = record session { last_accessed_at = read_time c (tick s) }

  unfoldable pub get : Text → Store → Option ProcessSession × Store
  get payload_id s = elim (Dict.get payload_id s.sessions) [
    | none ↦ (none, s)
    | some session ↦
        if is_expired c session s then (none, evict_session c payload_id session (tick s)) else (
          some (touch session s),
          record s {
            sessions = Dict.put payload_id (touch session s) s.sessions;
            readings = suc (suc s.readings);
          },
        )
  ]

  unfoldable pub expire_all : Store → Store
  expire_all s = record s {
    sessions = [];
    pending = [];
    tombstones = [];
    current_bytes = pos 0;
    expiry_heap = [];
    tombstone_heap = [];
  }

unfoldable pub release_pending : Text → Future → Store → Store
release_pending payload_id future s = elim (Dict.get payload_id s.pending) [
  | none ↦ s
  | some p ↦
      if p.future == future
      then record s {
        pending = Dict.remove payload_id s.pending;
        current_bytes = s.current_bytes -ℤ pos p.reserved_bytes;
      }
      else s
]

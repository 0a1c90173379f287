-- ===== src/Store/Evict.antt =====
-- app/process_store.py: expiry tests, eviction and the cleanup of tombstones. A loop over a heap
-- recurs on the entries left, and each round stores the shorter heap first, as `heappop` does.
use privy_gate.Common.{
  ℕ, suc, ◌+◌, Bool, true, false, List, [], ◌∷◌, Option, none, some, Text, ltb, leb, ◌==◌, length,
  insert_by, if◌then◌else◌,
}
use privy_gate.Common.Dict
use privy_gate.Common.Dict.{Dict}
use privy_gate.Common.Int.{pos, ◌-ℤ◌}
use privy_gate.Store.{
  Config, Store, ProcessSession, Pending, ExpiryEntry, TombstoneEntry, tombstone_leb, read_time,
  tick,
}

-- What one round of the loop of `_trim_tombstones_locked` does with the entry that it popped.
unfoldable pub drop_tombstone : TombstoneEntry → Store → Store
drop_tombstone e s = elim (Dict.get e.payload_id s.tombstones) [
  | none ↦ s
  | some expiry ↦
      if expiry == e.expiry
      then record s { tombstones = Dict.remove e.payload_id s.tombstones }
      else s
]

unfoldable pub trim_loop : ℕ → List TombstoneEntry → Store → Store
trim_loop now [] s = s
trim_loop now (e ∷ heap) s = elim (ltb now e.expiry) [
  | true ↦ s
  | false ↦ trim_loop now heap (drop_tombstone e (record s { tombstone_heap = heap }))
]

module _ (c : Config) where
  unfoldable pub trim_tombstones : Store → Store
  trim_tombstones s = trim_loop (read_time c s) s.tombstone_heap (tick s)

  unfoldable pub is_tombstoned : Text → Store → Bool × Store
  is_tombstoned payload_id s = elim (Dict.get payload_id s.tombstones) [
    | none ↦ (false, s)
    | some expiry ↦
        if leb expiry (read_time c s)
        then (
          false,
          record s { tombstones = Dict.remove payload_id s.tombstones; readings = suc s.readings },
        )
        else (true, tick s)
  ]

  unfoldable pub is_expired : ProcessSession → Store → Bool
  is_expired session s = leb session.expires_at (read_time c s)

  -- The tombstone of an evicted session, if there is room for it.
  unfoldable pub bury : ℕ → Text → Store → Store
  bury now payload_id s =
      if ltb (length s.tombstones) c.tombstone_max_entries
      then record s {
        tombstones = Dict.put payload_id (now + c.tombstone_ttl) s.tombstones;
        tombstone_heap =
            insert_by tombstone_leb
              (record { expiry = now + c.tombstone_ttl; payload_id = payload_id }) s.tombstone_heap;
      }
      else s

  unfoldable pub evict_session : Text → ProcessSession → Store → Store
  evict_session payload_id session s = trim_tombstones (
      bury (read_time c s) payload_id (record s {
        sessions = Dict.remove payload_id s.sessions;
        current_bytes = s.current_bytes -ℤ pos session.session_bytes;
        readings = suc s.readings;
      }))

  -- What one round of the first loop of `_evict_expired_locked` does with the entry that it
  -- popped; a stale entry is skipped.
  unfoldable pub evict_entry : ExpiryEntry → Store × ℕ → Store × ℕ
  evict_entry e (s, evicted) = elim (Dict.get e.payload_id s.sessions) [
    | none ↦ (s, evicted)
    | some session ↦
        if session.version == e.version
        then (evict_session e.payload_id session s, evicted + 1)
        else (s, evicted)
  ]

  -- `limit is not None and evicted >= limit`
  abbrev pub at_limit : Option ℕ → ℕ → Bool
  at_limit none evicted = false
  at_limit (some limit) evicted = leb limit evicted

  unfoldable pub evict_loop : Option ℕ → ℕ → List ExpiryEntry → Store × ℕ → Store × ℕ
  evict_loop limit now [] (s, evicted) = (s, evicted)
  evict_loop limit now (e ∷ heap) (s, evicted) = elim (at_limit limit evicted) [
    | true ↦ (s, evicted)
    | false ↦ elim (ltb now e.expires_at) [
      | true ↦ (s, evicted)
      | false ↦ evict_loop limit now heap (evict_entry e (record s { expiry_heap = heap }, evicted))
    ]
  ]

  -- The ids of the reservations that outlived the ACTIVE TTL.
  unfoldable pub expired_pending : ℕ → Dict Pending → List Text
  expired_pending now [] = []
  expired_pending now ((payload_id, p) ∷ d) =
      let rest = expired_pending now d in
      if leb (p.created_at + c.active_ttl) now then payload_id ∷ rest else rest

-- `pop(payload_id)` of a reservation, with its bytes given back.
unfoldable pub pop_pending : Text → Store → Store
pop_pending payload_id s = elim (Dict.get payload_id s.pending) [
  | none ↦ s
  | some p ↦ record s {
    pending = Dict.remove payload_id s.pending;
    current_bytes = s.current_bytes -ℤ pos p.reserved_bytes;
  }
]

unfoldable pub pop_all : List Text → Store → Store
pop_all [] s = s
pop_all (payload_id ∷ ids) s = pop_all ids (pop_pending payload_id s)

module _ (c : Config) where
  unfoldable pub expire_reservations : ℕ → Store × ℕ → Store × ℕ
  expire_reservations now (s, evicted) =
      let ids = expired_pending c now s.pending in (pop_all ids s, evicted + length ids)

  unfoldable pub evict_expired : Option ℕ → Store → Store × ℕ
  evict_expired limit s =
      let now = read_time c s in
      expire_reservations now (evict_loop c limit now s.expiry_heap (tick s, 0))

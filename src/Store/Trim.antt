-- ===== src/Store/Trim.antt =====
-- What the cleanup of tombstones, `_trim_tombstones_locked`, changes.
use privy_gate.Common.{
  ℕ, ◌<◌, ◌≡◌, Bool-cases, inl, inr, false, List, [], ◌∷◌, some, Text, arith, ltb, text_eq_iff, ◌∙◌,
}
use privy_gate.Common.Dict
use privy_gate.Common.Dict.{get-remove}
use privy_gate.Store.{Config, Store, TombstoneEntry, read_time, tick}
use privy_gate.Store.Evict.{drop_tombstone, trim_loop, trim_tombstones, bury}

-- `t` differs from `s` in its tombstones and the readings of the clock at most.
pub record Frame (s t : Store) : Type 0 where
  pub sessions : t.sessions ≡ s.sessions
  pub pending : t.pending ≡ s.pending
  pub current_bytes : t.current_bytes ≡ s.current_bytes
  pub expiry_heap : t.expiry_heap ≡ s.expiry_heap
  pub version_counter : t.version_counter ≡ s.version_counter
  pub futures : t.futures ≡ s.futures

Frame-trans : {r s t : Store} → Frame r s → Frame s t → Frame r t
Frame-trans f g = record {
  sessions = g.sessions ∙ f.sessions;
  pending = g.pending ∙ f.pending;
  current_bytes = g.current_bytes ∙ f.current_bytes;
  expiry_heap = g.expiry_heap ∙ f.expiry_heap;
  version_counter = g.version_counter ∙ f.version_counter;
  futures = g.futures ∙ f.futures;
}

Frame-drop_tombstone :
    (e : TombstoneEntry) (heap : List TombstoneEntry) (s : Store)
    → Frame s (drop_tombstone e (record s { tombstone_heap = heap }))
unfolding drop_tombstone
Frame-drop_tombstone e heap s = ground arith

pub Frame-trim_loop :
    (now : ℕ) (heap : List TombstoneEntry) (s : Store) → Frame s (trim_loop now heap s)
unfolding trim_loop
Frame-trim_loop now [] s = ground arith
Frame-trim_loop now (e ∷ heap) s = elim (Bool-cases (ltb now e.expiry)) [
  | inl live ↦ rw (live, trim_loop) (ground arith)
  | inr over ↦
      rw (over, trim_loop)
        (Frame-trans (Frame-drop_tombstone e heap s)
          (Frame-trim_loop now heap (drop_tombstone e (record s { tombstone_heap = heap }))))
]

module _ (c : Config) where
  pub Frame-bury : (now : ℕ) (id : Text) (s : Store) → Frame s (bury c now id s)
  unfolding bury
  Frame-bury now id s = ground arith

  pub Frame-trim_tombstones : (s : Store) → Frame s (trim_tombstones c s)
  unfolding trim_tombstones
  Frame-trim_tombstones s =
      let f = Frame-trim_loop (read_time c s) s.tombstone_heap (tick s) in ground arith

-- A live tombstone is never removed by the entries of the heap that are popped.
live-drop_tombstone :
    (now : ℕ) (e : TombstoneEntry) (heap : List TombstoneEntry) (id : Text) (s : Store) {t : ℕ}
    → ltb now e.expiry ≡ false
    → now < t
    → Dict.get id s.tombstones ≡ some t
    → Dict.get id (drop_tombstone e (record s { tombstone_heap = heap })).tombstones ≡ some t
unfolding drop_tombstone
live-drop_tombstone now e heap id s over live h =
    ground (arith, get-remove id e.payload_id s.tombstones, text_eq_iff e.payload_id id)

live-trim_loop :
    (now : ℕ) (heap : List TombstoneEntry) (id : Text) (s : Store) {t : ℕ}
    → now < t
    → Dict.get id s.tombstones ≡ some t
    → Dict.get id (trim_loop now heap s).tombstones ≡ some t
unfolding trim_loop
live-trim_loop now [] id s live h = h
live-trim_loop now (e ∷ heap) id s live h = elim (Bool-cases (ltb now e.expiry)) [
  | inl stop ↦ rw (stop, trim_loop) h
  | inr over ↦
      rw (over, trim_loop)
        (live-trim_loop now heap id (drop_tombstone e (record s { tombstone_heap = heap })) live
          (live-drop_tombstone now e heap id s over live h))
]

-- The cleanup keeps every tombstone whose expiry lies after the time that it reads, with its
-- expiry, whatever the heap holds.
pub trim_tombstones-keeps_live :
    (c : Config) (id : Text) (s : Store) {t : ℕ}
    → read_time c s < t
    → Dict.get id s.tombstones ≡ some t
    → Dict.get id (trim_tombstones c s).tombstones ≡ some t
unfolding trim_tombstones
trim_tombstones-keeps_live c id s live h =
    live-trim_loop (read_time c s) s.tombstone_heap id (tick s) live h

-- ===== src/Store/Balance.antt =====
-- What adding and removing one session or one reservation does to the byte account: the sum of
-- what they hold, with `leak` bytes that are still counted and held by nothing.
use privy_gate.Common.{ℕ, ◌+◌, ◌≡◌, inl, inr, Option, none, some, Text, arith, Option-cases}
use privy_gate.Common.Dict
use privy_gate.Common.Dict.{
  Dict, IsUnique, total, total-remove, total-put_new, total-put_old, remove-IsUnique, put-IsUnique,
}
use privy_gate.Common.Int.{ℤ, pos, pos_part, neg_part, ◌+ℤ◌, ◌-ℤ◌, +ℤ_parts, -ℤ_parts}
use privy_gate.Store.{Store, ProcessSession, Pending}
use privy_gate.Store.Trim.{Frame}

abbrev pub size_of_session : ProcessSession → ℕ
size_of_session session = session.session_bytes

abbrev pub size_of_pending : Pending → ℕ
size_of_pending p = p.reserved_bytes

abbrev pub overwritten : Option ProcessSession → ℕ
overwritten none = 0
overwritten (some session) = session.session_bytes

-- The account stands `leak` bytes above what the sessions and the reservations hold.
pub record Balance (leak : ℕ) (sessions : Dict ProcessSession) (pending : Dict Pending) (bytes : ℤ)
    : Type 0 where
  pub sessions_unique : IsUnique sessions
  pub pending_unique : IsUnique pending
  pub account :
      total size_of_session sessions + total size_of_pending pending + leak + neg_part bytes
      ≡ pos_part bytes

abbrev pub Accounts : ℕ → Store → Type 0
Accounts leak s = Balance leak s.sessions s.pending s.current_bytes

pub Frame-Accounts : {leak : ℕ} {s t : Store} → Frame s t → Accounts leak s → Accounts leak t
Frame-Accounts f a = rw (f.sessions, f.pending, f.current_bytes) a

module _ {leak : ℕ} {sessions : Dict ProcessSession} {pending : Dict Pending} {bytes : ℤ} where
  pub Balance-remove_session :
      (id : Text) {session : ProcessSession}
      → Dict.get id sessions ≡ some session
      → Balance leak sessions pending bytes
      → Balance leak (Dict.remove id sessions) pending (bytes -ℤ pos session.session_bytes)
  Balance-remove_session id {session} h a = record {
    sessions_unique = remove-IsUnique id sessions a.sessions_unique;
    pending_unique = a.pending_unique;
    account = omega (
      arith,
      a.account,
      total-remove size_of_session id sessions a.sessions_unique h,
      -ℤ_parts bytes (pos session.session_bytes),
    );
  }

  pub Balance-remove_pending :
      (id : Text) {p : Pending}
      → Dict.get id pending ≡ some p
      → Balance leak sessions pending bytes
      → Balance leak sessions (Dict.remove id pending) (bytes -ℤ pos p.reserved_bytes)
  Balance-remove_pending id {p} h a = record {
    sessions_unique = a.sessions_unique;
    pending_unique = remove-IsUnique id pending a.pending_unique;
    account = omega (
      arith,
      a.account,
      total-remove size_of_pending id pending a.pending_unique h,
      -ℤ_parts bytes (pos p.reserved_bytes),
    );
  }

  pub Balance-put_pending :
      (id : Text) (p : Pending)
      → Dict.get id pending ≡ none
      → Balance leak sessions pending bytes
      → Balance leak sessions (Dict.put id p pending) (bytes +ℤ pos p.reserved_bytes)
  Balance-put_pending id p h a = record {
    sessions_unique = a.sessions_unique;
    pending_unique = put-IsUnique id p pending a.pending_unique;
    account = omega (
      arith,
      a.account,
      total-put_new size_of_pending id p pending h,
      +ℤ_parts bytes (pos p.reserved_bytes),
    );
  }

  -- A session that keeps its size takes the place of the one that is there.
  pub Balance-update_session :
      (id : Text) (session : ProcessSession) {old : ProcessSession}
      → Dict.get id sessions ≡ some old
      → session.session_bytes ≡ old.session_bytes
      → Balance leak sessions pending bytes
      → Balance leak (Dict.put id session sessions) pending bytes
  Balance-update_session id session {old} h same a = record {
    sessions_unique = put-IsUnique id session sessions a.sessions_unique;
    pending_unique = a.pending_unique;
    account = omega (arith, a.account, same, total-put_old size_of_session id session sessions h);
  }

  -- The bytes of a session that is overwritten stay on the account.
  pub Balance-put_session :
      (id : Text) (session : ProcessSession)
      → Balance leak sessions pending bytes
      → Balance
          (leak + overwritten (Dict.get id sessions))
          (Dict.put id session sessions)
          pending
          (bytes +ℤ pos session.session_bytes)
  Balance-put_session id session a = record {
    sessions_unique = put-IsUnique id session sessions a.sessions_unique;
    pending_unique = a.pending_unique;
    account = elim (Option-cases (Dict.get id sessions)) [
      | inl new ↦ rw new (
          omega (
            arith,
            a.account,
            total-put_new size_of_session id session sessions new,
            +ℤ_parts bytes (pos session.session_bytes),
          ))
      | inr (old, there) ↦ rw there (
          omega (
            arith,
            a.account,
            total-put_old size_of_session id session sessions there,
            +ℤ_parts bytes (pos session.session_bytes),
          ))
    ];
  }

-- ===== src/Errors.antt =====
-- app/errors.py: the domain errors of the /process contract. A function that may raise returns an
-- `Outcome`. `retry_after` is counted in milliseconds.
use privy_gate.Common.{ℕ, Text, ◌≡◌, ◌≢◌}

pub data ProcessError : Type 0 where
  process_error : Text → ProcessError
  validation_error : Text → ProcessError
  conflict_error : Text → ProcessError
  payload_too_large_error : Text → ProcessError
  too_many_requests_error : Text → ℕ → ProcessError
  gone_error : Text → ProcessError
  forbidden_error : Text → ProcessError

unfoldable pub status_code : ProcessError → ℕ
status_code (process_error m) = 500
status_code (validation_error m) = 422
status_code (conflict_error m) = 409
status_code (payload_too_large_error m) = 413
status_code (too_many_requests_error m r) = 429
status_code (gone_error m) = 410
status_code (forbidden_error m) = 403

unfoldable pub message : ProcessError → Text
message (process_error m) = m
message (validation_error m) = m
message (conflict_error m) = m
message (payload_too_large_error m) = m
message (too_many_requests_error m r) = m
message (gone_error m) = m
message (forbidden_error m) = m

pub data Outcome {ℓ} (A : Type ℓ) : Type ℓ where
  ok : A → Outcome A
  raise : ProcessError → Outcome A

pub raise-ne-ok {ℓ} : {A : Type ℓ} {e : ProcessError} {a : A} → raise e ≢ ok a
raise-ne-ok h = cc

pub ok-injective {ℓ} : {A : Type ℓ} {a b : A} → ok a ≡ ok b → a ≡ b
ok-injective h = cc

-- ===== src/Contracts/Result.antt =====
-- src/code_forge/contracts.py: ErrorCode and DomainError, and the exceptions that the store lets out.
use code_forge.Prelude.{Bool, true, false}

pub data ErrorCode : Type 0 where
  invalid_request session_not_found run_not_found idempotency_conflict state_conflict : ErrorCode
  invalid_transition invalid_event_cursor skill_not_found skill_incompatible : ErrorCode
  model_not_configured execution_failed execution_unknown capability_denied : ErrorCode
  resource_limit dependency_unavailable message_busy : ErrorCode

-- A DomainError by its code; its message is not modelled. `integrity_error` is the database's
-- refusal of a row that breaks a UNIQUE or FOREIGN KEY constraint, `value_error` that of json.loads
-- and of other conversions, `overflow_error` that of an integer that SQLite cannot hold, `os_error` that of a missing file, `attribute_error` and `type_error`
-- those of a decoded value that has another type than the code takes it to have, `assertion_error`
-- that of an `assert`.
pub data Failure : Type 0 where
  domain : ErrorCode → Failure
  integrity_error : Failure
  value_error overflow_error os_error attribute_error type_error assertion_error : Failure

pub data Result {ℓ} (A : Type ℓ) : Type ℓ where
  ok : A → Result A
  err : Failure → Result A

infixl 5 ◌>>=◌ ◌>>◌
abbrev pub ◌>>=◌ {ℓ κ} : {A : Type ℓ} {B : Type κ} → Result A → (A → Result B) → Result B
ok a >>= f = f a
err e >>= f = err e

abbrev pub ◌>>◌ {ℓ κ} : {A : Type ℓ} {B : Type κ} → Result A → Result B → Result B
m >> n = m >>= λ _. n

-- `if not test: raise DomainError(code)`
abbrev pub guard : Bool → ErrorCode → Result (Unit {0})
guard true c = ok tt
guard false c = err (domain c)

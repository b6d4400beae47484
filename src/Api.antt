-- ===== src/Api.antt =====
-- key-aggregation-server/app/api/v1.py and domain/errors.py: the errors of the handlers, and
-- below it the handlers; Identity finds the caller, whose row the handlers take as an argument.
pub mod Identity
pub mod Rounds
pub mod Visits
pub mod Signing
pub mod KeySetup
pub mod Tree
pub mod Creation
pub mod Results
pub mod FinalKeys
pub mod Effects
pub mod UploadEffects
pub mod TaskEffects
pub mod Queries
pub mod Server
pub mod Files
pub mod Updates
pub mod Uploads
pub mod KeyTasks
pub mod Ciphertexts
pub mod Artifacts
mod Tests
use deki_smpc_server.Prelude.{ℕ, Bool, true, false, if◌then◌else◌}
use deki_smpc_server.Persistence.Tx.{
  Error, not_ready, key_context_mismatch, key_bundle_invalid, integrity_error, type_error,
}

-- The codes of the errors; `internal_error` is an exception that no handler catches.
pub data Code : Type 0 where
  authorization_failed round_not_found round_conflict round_failed : Code
  schema_mismatch artifact_invalid idempotency_conflict internal_error : Code
  authentication_failed idempotency_key_required protocol_version_unsupported : Code
  participant_limit_exceeded unknown_client result_not_ready : Code

-- `api_error`, without its message.
pub record ApiError : Type 0 where
  pub status : ℕ
  pub code : Code

abbrev pub api_error : ℕ → Code → ApiError
api_error status code = record { status = status; code = code }

pub data Answer {ℓ} (A : Type ℓ) : Type ℓ where
  answered : A → Answer A
  refused : ApiError → Answer A

-- Is the exception a `ValueError`?
abbrev pub is_value_error : Error → Bool
is_value_error integrity_error = false
is_value_error type_error = false
is_value_error _ = true

-- `_translate`, on the mapping and its default.
abbrev pub translate : Error → ApiError
translate Error.idempotency_conflict = api_error 409 Code.idempotency_conflict
translate Error.round_conflict = api_error 409 Code.round_conflict
translate Error.round_not_found = api_error 404 Code.round_not_found
translate not_ready = api_error 409 Code.round_conflict
translate key_context_mismatch = api_error 422 round_failed
translate key_bundle_invalid = api_error 422 artifact_invalid
translate _ = api_error 422 artifact_invalid

-- `except ValueError as exc: _translate(exc)`; other exceptions are passed on.
abbrev pub refusal_of : Error → ApiError
refusal_of e = if is_value_error e then translate e else api_error 500 internal_error

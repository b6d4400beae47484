-- ===== src/Api/Visits.antt =====
-- What the handlers of api/v1.py without an upload share: the membership of the caller, one call of
-- the store whose `ValueError` is translated, and `_fail_tree`.
use deki_smpc_server.Prelude.{ℕ, Text, Message, if◌then◌else◌}
use deki_smpc_server.Persistence.Schema.{Db, RoundRow, key_artifact_rejected}
use deki_smpc_server.Persistence.Tx.{Error, Tx, Result, ok, err}
use deki_smpc_server.Persistence.Rounds.{fail_round}
use deki_smpc_server.Api.{
  Answer, answered, refused, api_error, refusal_of, is_value_error, round_failed, internal_error,
}
use deki_smpc_server.Api.Rounds.{Member, transaction, round_for_member}

-- The clock readings of a handler, and what other processes do between its queries. The clock is
-- read in `_round_for_member`, in the call of the store, and in `fail_round`.
pub record Visit : Type 0 where
  pub now : ℕ
  pub later : ℕ
  pub last : ℕ
  pub recorded : ℕ
  pub moved : ℕ
  pub failed_at : ℕ
  pub before_participant : Db → Db
  pub before_method : Db → Db
  pub before_failure : Db → Db

-- `_round_for_member`, at the readings of a visit.
abbrev pub admitted : Text → Member → Visit → Db → Answer RoundRow × Db
admitted round_id member t s =
    round_for_member round_id member t.now t.later t.last t.before_participant s

module _ {A : Type 0} where
  -- `try: … except ValueError as exc: _translate(exc)`.
  abbrev pub answer_of : Result A × Db → Answer A × Db
  answer_of (ok a, s) = (answered a, s)
  answer_of (err e, s) = (refused (refusal_of e), s)

  -- One call of the store.
  unfoldable pub call : Tx A → Visit → Db → Answer A × Db
  call m t s = answer_of (transaction m (t.before_method s))

  -- What follows `_round_for_member`.
  unfoldable pub with_row : (RoundRow → Db → Answer A × Db) → Answer RoundRow × Db → Answer A × Db
  with_row f (refused e, s) = (refused e, s)
  with_row f (answered row, s) = f row s

  -- A handler that calls the store once, for a participant of the round.
  unfoldable pub visit :
      Text → Member → Visit → (RoundRow → Db → Answer A × Db) → Db → Answer A × Db
  unfolding with_row
  visit round_id member t f s = with_row f (admitted round_id member t s)

  unfoldable pub failure_answer : Result (Unit {0}) × Db → Answer A × Db
  failure_answer (ok a, s) = (refused (api_error 422 round_failed), s)
  failure_answer (err e, s) = (refused (api_error 500 internal_error), s)

  -- `_fail_tree`. An exception of `fail_round` is not caught.
  unfoldable pub reject : Text → Member → Visit → Message → Db → Answer A × Db
  unfolding failure_answer
  reject round_id member t reason s = failure_answer (
      transaction (fail_round round_id member.client_id key_artifact_rejected reason t.failed_at)
        (t.before_failure s))

  -- `except ValueError as exc: _fail_tree(…, str(exc))`; other exceptions are passed on.
  unfoldable pub answer_or_reject :
      Text → Member → Visit → (Error → Message) → Result A × Db → Answer A × Db
  unfolding reject
  answer_or_reject round_id member t reason (ok a, s) = (answered a, s)
  answer_or_reject round_id member t reason (err e, s) =
      if is_value_error e
      then reject round_id member t (reason e) s
      else (refused (api_error 500 internal_error), s)

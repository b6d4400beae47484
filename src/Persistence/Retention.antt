-- ===== src/Persistence/Retention.antt =====
-- Deadlines and retention in database.py: `expire_rounds`, `retention_candidates`, `purge_round`.
use deki_smpc_server.Prelude.{
  ℕ, Text, Message, Bool, true, false, not, ◌&&◌, ◌||◌, none, List, leb, ltb, ◌==◌, map, length,
}
use deki_smpc_server.Prelude.Rows.{select, delete_where}
use deki_smpc_server.Domain.States.{expired, is_terminal}
use deki_smpc_server.Persistence.Schema.{
  Db, RoundRow, JobRow, JobState, Response, round_response, reconciler, round_deadline_exceeded,
  IdempotencyRow, Operation, create,
}
use deki_smpc_server.Persistence.Tx.{
  Tx, round_conflict, pure, gets, modify, raise_if, if_found, for_each, ◌>>=◌, ◌>>◌,
}
use deki_smpc_server.Persistence.Statements.{round_of, update_jobs}
use deki_smpc_server.Persistence.Transition.{transition}
use deki_smpc_server.Persistence.Updates.{job_state_eq}
use deki_smpc_server.Persistence.Jobs.{give_up}

-- `state IN ('READY','CLAIMED')`, of the job of a round.
abbrev pub is_open_job : Text → JobRow → Bool
is_open_job round j =
    j.round_id == round
    && (job_state_eq j.state JobState.ready || job_state_eq j.state JobState.claimed)

abbrev pub past_deadline : ℕ → RoundRow → Bool
past_deadline now r = ltb r.deadline_at now && not (is_terminal r.state)

-- The body of the loop of `expire_rounds`, for a row that is not terminal.
unfoldable pub expire_row : Message → ℕ → RoundRow → Tx Unit
expire_row text now r = do
  transition r.round_id r.state expired reconciler round_deadline_exceeded none now
  update_jobs (is_open_job r.round_id) (give_up text)

-- `expire_rounds`: the query leaves out what the loop skips, and the count is that of the rows.
-- `moved_at` gives the time at which the loop moves a round.
unfoldable pub expire_rounds : Message → (timestamp : ℕ) → (moved_at : Text → ℕ) → Tx ℕ
expire_rounds text timestamp moved_at = do
  rows ← gets (λ s. select (past_deadline timestamp) s.rounds)
  for_each rows (λ r. expire_row text (moved_at r.round_id) r)
  pure (length rows)

abbrev pub is_expendable : ℕ → RoundRow → Bool
is_expendable now r = leb r.retention_at now && is_terminal r.state

-- `retention_candidates`: the rounds to purge, each with the paths of its artifacts.
unfoldable pub retention_candidates : (timestamp : ℕ) → Db → List (Text × List Text)
retention_candidates timestamp s =
    map (λ r. (r.round_id, map (λ a. a.path) (select (λ a. a.round_id == r.round_id) s.artifacts)))
      (select (is_expendable timestamp) s.rounds)

-- `response.get("round_id") == round_id`.
abbrev pub response_names : Text → Response → Bool
response_names round (round_response id _ _ _ _ _ _ _ _ _ _) = id == round
response_names round _ = false

abbrev pub is_create : Operation → Bool
is_create create = true
is_create _ = false

-- The records under the round, and the one of its creation, which is kept under its federation.
abbrev pub is_record_of : Text → IdempotencyRow → Bool
is_record_of round r =
    r.round_id == round || (is_create r.operation && response_names round r.response)

unfoldable pub delete_round : Text → Db → Db
delete_round id s = record {
  rounds = delete_where (λ r. r.round_id == id) s.rounds;
  participants = delete_where (λ r. r.round_id == id) s.participants;
  artifacts = delete_where (λ r. r.round_id == id) s.artifacts;
  idempotency = delete_where (is_record_of id) s.idempotency;
  jobs = delete_where (λ r. r.round_id == id) s.jobs;
  audit_events = delete_where (λ r. r.round_id == id) s.audit_events;
  tree_plans = delete_where (λ r. r.round_id == id) s.tree_plans;
  key_tasks = delete_where (λ r. r.round_id == id) s.key_tasks;
  task_dependencies = delete_where (λ r. r.round_id == id) s.task_dependencies;
  task_receipts = delete_where (λ r. r.round_id == id) s.task_receipts;
  final_keys = delete_where (λ r. r.round_id == id) s.final_keys;
  final_key_receipts = delete_where (λ r. r.round_id == id) s.final_key_receipts;
}

-- `purge_round`: a missing round is left alone, and one that may not go yet raises.
unfoldable pub purge_round : (round_id : Text) → (now : ℕ) → Tx Unit
purge_round round_id now = do
  row ← gets (round_of round_id)
  if_found row
      (λ r. do
        raise_if (not (is_terminal r.state) || ltb now r.retention_at) round_conflict
        modify (delete_round round_id))
      (pure tt)

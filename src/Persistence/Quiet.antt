-- ===== src/Persistence/Quiet.antt =====
-- The statements that leave the rounds and the audit log alone, for any relation that allows that.
use deki_smpc_server.Prelude.{Text, Bool, ◌≡◌, arith}
use deki_smpc_server.Persistence.Schema.{
  Db, ParticipantRow, ArtifactRow, IdempotencyRow, JobRow, TreePlanRow, KeyTaskRow, DependencyRow,
  TaskReceiptRow, FinalKeyRow, FinalReceiptRow,
}
use deki_smpc_server.Persistence.Tx.{Tx, ok}
use deki_smpc_server.Persistence.Statements.{
  insert_participant, update_participant, insert_artifact, insert_idempotency, insert_job,
  update_jobs, insert_tree_plan, insert_key_task, update_key_tasks, insert_dependency,
  insert_task_receipt, insert_final_key, insert_final_receipt,
}
use deki_smpc_server.Persistence.Ensures.{Ensures}

pub record AllowsQuiet (R : Db → Db → Type 0) : Type 0 where
  pub quiet : (s t : Db) → t.rounds ≡ s.rounds → t.audit_events ≡ s.audit_events → R s t

module _ {R : Db → Db → Type 0} ⦃q : AllowsQuiet R⦄ where
  quietly :
      {m : Tx Unit}
      → ((s : Db) (a : Unit) (t : Db)
          → m s ≡ ok (a, t)
          → (t.rounds ≡ s.rounds) × (t.audit_events ≡ s.audit_events))
      → Ensures R m
  quietly h = record { at = λ s a t e. q.quiet s t (h s a t e).0 (h s a t e).1 }

  pub insert_participant-Quiet : (r : ParticipantRow) → Ensures R (insert_participant r)
  unfolding insert_participant
  insert_participant-Quiet r = quietly λ s a t e. ground arith

  pub update_participant-Quiet :
      (round client : Text) (f : ParticipantRow → ParticipantRow)
      → Ensures R (update_participant round client f)
  unfolding update_participant
  update_participant-Quiet round client f = quietly λ s a t e. ground arith

  pub insert_artifact-Quiet : (r : ArtifactRow) → Ensures R (insert_artifact r)
  unfolding insert_artifact
  insert_artifact-Quiet r = quietly λ s a t e. ground arith

  pub insert_idempotency-Quiet : (r : IdempotencyRow) → Ensures R (insert_idempotency r)
  unfolding insert_idempotency
  insert_idempotency-Quiet r = quietly λ s a t e. ground arith

  pub insert_job-Quiet : (r : JobRow) → Ensures R (insert_job r)
  unfolding insert_job
  insert_job-Quiet r = quietly λ s a t e. ground arith

  pub update_jobs-Quiet : (p : JobRow → Bool) (f : JobRow → JobRow) → Ensures R (update_jobs p f)
  unfolding update_jobs
  update_jobs-Quiet p f = quietly λ s a t e. ground arith

  pub insert_tree_plan-Quiet : (r : TreePlanRow) → Ensures R (insert_tree_plan r)
  unfolding insert_tree_plan
  insert_tree_plan-Quiet r = quietly λ s a t e. ground arith

  pub insert_key_task-Quiet : (r : KeyTaskRow) → Ensures R (insert_key_task r)
  unfolding insert_key_task
  insert_key_task-Quiet r = quietly λ s a t e. ground arith

  pub update_key_tasks-Quiet :
      (p : KeyTaskRow → Bool) (f : KeyTaskRow → KeyTaskRow) → Ensures R (update_key_tasks p f)
  unfolding update_key_tasks
  update_key_tasks-Quiet p f = quietly λ s a t e. ground arith

  pub insert_dependency-Quiet : (r : DependencyRow) → Ensures R (insert_dependency r)
  unfolding insert_dependency
  insert_dependency-Quiet r = quietly λ s a t e. ground arith

  pub insert_task_receipt-Quiet : (r : TaskReceiptRow) → Ensures R (insert_task_receipt r)
  unfolding insert_task_receipt
  insert_task_receipt-Quiet r = quietly λ s a t e. ground arith

  pub insert_final_key-Quiet : (r : FinalKeyRow) → Ensures R (insert_final_key r)
  unfolding insert_final_key
  insert_final_key-Quiet r = quietly λ s a t e. ground arith

  pub insert_final_receipt-Quiet : (r : FinalReceiptRow) → Ensures R (insert_final_receipt r)
  unfolding insert_final_receipt
  insert_final_receipt-Quiet r = quietly λ s a t e. ground arith

pub ruleset quiet_rules = (
  insert_participant-Quiet, update_participant-Quiet, insert_artifact-Quiet,
  insert_idempotency-Quiet, insert_job-Quiet, update_jobs-Quiet, insert_tree_plan-Quiet,
  insert_key_task-Quiet, update_key_tasks-Quiet, insert_dependency-Quiet, insert_task_receipt-Quiet,
  insert_final_key-Quiet, insert_final_receipt-Quiet,
)

-- ===== src/Persistence/Retry/Keeping.antt =====
-- The statements that leave the idempotency records alone.
use deki_smpc_server.Prelude.{ℕ, Text, Message, Bool, Option, List, ◌≡◌, refl, ◌∙◌, arith}
use deki_smpc_server.Domain.States.{RoundState}
use deki_smpc_server.Persistence.Schema.{
  Db, ParticipantRow, ArtifactRow, JobRow, TreePlanRow, KeyTaskRow, DependencyRow, RoundRow,
  AuditRow, TaskReceiptRow, FinalKeyRow, FinalReceiptRow, Actor, Event, Hashing,
}
use deki_smpc_server.Persistence.Tx.{Tx, ok, modify, ◌>>=◌}
use deki_smpc_server.Persistence.Statements.{
  insert_participant, update_participant, insert_artifact, insert_job, update_jobs, insert_round,
  insert_tree_plan, insert_key_task, update_key_tasks, insert_dependency, insert_task_receipt,
  insert_final_key, insert_final_receipt, insert_audit,
}
use deki_smpc_server.Persistence.Ensures.{IsPreorder, Ensures, ensures_rules}
use deki_smpc_server.Persistence.Transition.{update_rounds, transition}
use deki_smpc_server.Persistence.KeyContext.{create_tree_plan, commit_context, commit_when_all}
use deki_smpc_server.Persistence.KeyTasks.{activate}

pub record KeepsRecords (s t : Db) : Type 0 where
  pub records : t.idempotency ≡ s.idempotency

instance pub KeepsRecords-IsPreorder : IsPreorder KeepsRecords
KeepsRecords-IsPreorder = record {
  same = λ s. record { records = refl };
  chain = λ s t u a b. record { records = b.records ∙ a.records };
}

keeping :
    {m : Tx Unit}
    → ((s : Db) (a : Unit) (t : Db) → m s ≡ ok (a, t) → t.idempotency ≡ s.idempotency)
    → Ensures KeepsRecords m
keeping h = record { at = λ s a t e. record { records = h s a t e } }

pub insert_round-keeps : (r : RoundRow) → Ensures KeepsRecords (insert_round r)
unfolding insert_round
insert_round-keeps r = keeping λ s a t e. ground arith

pub insert_audit-keeps : (r : AuditRow) → Ensures KeepsRecords (insert_audit r)
unfolding insert_audit
insert_audit-keeps r = keeping λ s a t e. ground arith

pub insert_participant-keeps : (r : ParticipantRow) → Ensures KeepsRecords (insert_participant r)
unfolding insert_participant
insert_participant-keeps r = keeping λ s a t e. ground arith

pub update_participant-keeps :
    (round client : Text) (f : ParticipantRow → ParticipantRow)
    → Ensures KeepsRecords (update_participant round client f)
unfolding update_participant
update_participant-keeps round client f = keeping λ s a t e. ground arith

pub insert_artifact-keeps : (r : ArtifactRow) → Ensures KeepsRecords (insert_artifact r)
unfolding insert_artifact
insert_artifact-keeps r = keeping λ s a t e. ground arith

pub insert_job-keeps : (r : JobRow) → Ensures KeepsRecords (insert_job r)
unfolding insert_job
insert_job-keeps r = keeping λ s a t e. ground arith

pub update_jobs-keeps :
    (p : JobRow → Bool) (f : JobRow → JobRow) → Ensures KeepsRecords (update_jobs p f)
unfolding update_jobs
update_jobs-keeps p f = keeping λ s a t e. ground arith

pub insert_tree_plan-keeps : (r : TreePlanRow) → Ensures KeepsRecords (insert_tree_plan r)
unfolding insert_tree_plan
insert_tree_plan-keeps r = keeping λ s a t e. ground arith

pub insert_key_task-keeps : (r : KeyTaskRow) → Ensures KeepsRecords (insert_key_task r)
unfolding insert_key_task
insert_key_task-keeps r = keeping λ s a t e. ground arith

pub update_key_tasks-keeps :
    (p : KeyTaskRow → Bool) (f : KeyTaskRow → KeyTaskRow)
    → Ensures KeepsRecords (update_key_tasks p f)
unfolding update_key_tasks
update_key_tasks-keeps p f = keeping λ s a t e. ground arith

pub insert_dependency-keeps : (r : DependencyRow) → Ensures KeepsRecords (insert_dependency r)
unfolding insert_dependency
insert_dependency-keeps r = keeping λ s a t e. ground arith

pub insert_task_receipt-keeps : (r : TaskReceiptRow) → Ensures KeepsRecords (insert_task_receipt r)
unfolding insert_task_receipt
insert_task_receipt-keeps r = keeping λ s a t e. ground arith

pub insert_final_key-keeps : (r : FinalKeyRow) → Ensures KeepsRecords (insert_final_key r)
unfolding insert_final_key
insert_final_key-keeps r = keeping λ s a t e. ground arith

pub insert_final_receipt-keeps :
    (r : FinalReceiptRow) → Ensures KeepsRecords (insert_final_receipt r)
unfolding insert_final_receipt
insert_final_receipt-keeps r = keeping λ s a t e. ground arith

pub update_rounds-keeps :
    (p : RoundRow → Bool) (f : RoundRow → RoundRow)
    → Ensures KeepsRecords (modify (update_rounds p f))
unfolding update_rounds ◌>>=◌
update_rounds-keeps p f = keeping λ s a t e. ground arith

pub ruleset keeping_rules = (
  ensures_rules, insert_round-keeps, insert_audit-keeps, insert_participant-keeps,
  update_participant-keeps, insert_artifact-keeps, insert_job-keeps, update_jobs-keeps,
  insert_tree_plan-keeps, insert_key_task-keeps, update_key_tasks-keeps, insert_dependency-keeps,
  insert_task_receipt-keeps, insert_final_key-keeps, insert_final_receipt-keeps,
  update_rounds-keeps,
)

pub transition-keeps :
    (id : Text) (source target : RoundState) (actor : Actor) (event : Event)
    (detail : Option Message) (now : ℕ)
    → Ensures KeepsRecords (transition id source target actor event detail now)
unfolding transition
transition-keeps id source target actor event detail now = search keeping_rules depth 40

pub create_tree_plan-keeps :
    (h : Hashing) (r : RoundRow) (now : ℕ) → Ensures KeepsRecords (create_tree_plan h r now)
unfolding create_tree_plan
create_tree_plan-keeps h r now = search keeping_rules depth 40

pub commit_context-keeps :
    (h : Hashing) (round_id : Text) (r : RoundRow) (client_id : Text) (rows : List ParticipantRow)
    (now later : ℕ)
    → Ensures KeepsRecords (commit_context h round_id r client_id rows now later)
unfolding commit_context
commit_context-keeps h round_id r client_id rows now later =
    search (keeping_rules, transition-keeps, create_tree_plan-keeps) depth 40

pub commit_when_all-keeps :
    (h : Hashing) (round_id : Text) (r : RoundRow) (client_id : Text) (rows : List ParticipantRow)
    (now later : ℕ)
    → Ensures KeepsRecords (commit_when_all h round_id r client_id rows now later)
unfolding commit_when_all
commit_when_all-keeps h round_id r client_id rows now later =
    search (keeping_rules, commit_context-keeps) depth 40

pub activate-keeps : (round_id : Text) → Ensures KeepsRecords (activate round_id)
unfolding activate
activate-keeps round_id = search keeping_rules depth 40

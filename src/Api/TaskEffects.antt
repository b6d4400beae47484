-- ===== src/Api/TaskEffects.antt =====
-- What the upload of a tree artifact may do to the database: a relation that the store's methods
-- ensure, and that what other processes do keeps to, holds between both ends of a handler.
use deki_smpc_server.Prelude.{
  Text, Bool, true, false, Option, none, some, ◌==◌, Bool-cases, inl, inr,
}
use deki_smpc_server.Domain.Topology.{Task}
use deki_smpc_server.Persistence.Schema.{
  Db, RoundRow, TreePlanRow, StoredObject, Response, key_artifact_rejected, is_v1_1,
}
use deki_smpc_server.Persistence.Tx.{Result, ok, err}
use deki_smpc_server.Persistence.Ensures.{IsPreorder, Ensures}
use deki_smpc_server.Persistence.Statements.{plan_row}
use deki_smpc_server.Persistence.Rounds.{get_round, fail_round}
use deki_smpc_server.Persistence.KeyTasks.{record_task_artifact}
use deki_smpc_server.Storage.{Disk, Stored, stored, rejected, delete}
use deki_smpc_server.Api.{Answer, answered, refused}
use deki_smpc_server.Api.Rounds.{Member, transaction, round_for_member}
use deki_smpc_server.Api.Effects.{transaction-holds, round_for_member-holds}
use deki_smpc_server.Api.Updates.{Site}
use deki_smpc_server.Api.KeyTasks.{
  Metadata, TaskUpload, TaskMoments, TaskService, Rejection, metadata_malformed, task_unavailable,
  actor_invalid, store_failed, record_failed, find_task, Examined, bad, good, end_failure,
  fail_tree, conclude_task, submit, store_task, upload_for, authorize, task_with_round,
  put_key_task_artifact,
}

module _ (R : Db → Db → Type 0) ⦃p : IsPreorder R⦄ where
  module _ (v : TaskService) (round_id : Text) (member : Member) (u : TaskUpload) (m : TaskMoments)
      (before_record : (s : Db) → R s (m.before_record s))
      (before_failure : (s : Db) → R s (m.before_failure s))
      (fails : (r : Rejection)
        → Ensures R (
            fail_round round_id member.client_id key_artifact_rejected (v.text_of r) m.rejected_at))
      (records : (o : StoredObject) (digest nonce signature request : Text)
        → Ensures R (
            record_task_artifact round_id member.client_id u.task_id o digest nonce signature
              u.idem_key request m.recorded)) where
    end_failure-holds :
        (s : Db) (x : Result (Unit {0}) × Db) (disk : Disk)
        → R s x.1
        → R s (end_failure v round_id member u m x disk).1.db
    unfolding end_failure
    end_failure-holds s (ok a, t) disk h = h
    end_failure-holds s (err e, t) disk h = h

    fail_tree-holds :
        (r : Rejection) (s : Db) (disk : Disk) → R s (fail_tree v round_id member u m r s disk).1.db
    unfolding fail_tree
    fail_tree-holds r s disk =
        let tx =
          fail_round round_id member.client_id key_artifact_rejected (v.text_of r) m.rejected_at in
        end_failure-holds s (transaction tx (m.before_failure s)) disk (
          p.chain s (m.before_failure s) _ (before_failure s)
            (transaction-holds R tx (m.before_failure s) (fails r)))

    conclude_task-holds :
        (o : StoredObject) (s : Db) (x : Result (Response × Bool) × Db) (disk : Disk)
        → R s x.1
        → R s (conclude_task v round_id member u m o x disk).1.db
    unfolding conclude_task
    conclude_task-holds o s (err e, t) disk h =
        p.chain s t _ h (fail_tree-holds (record_failed e) t (delete o.path disk))
    conclude_task-holds o s (ok (response, true), t) disk h = h
    conclude_task-holds o s (ok (response, false), t) disk h = h

    submit-holds :
        (signature : Text) (o : StoredObject) (x : Examined) (disk : Disk) (s : Db)
        → R s (submit v round_id member u m signature o x disk s).1.db
    unfolding submit
    submit-holds signature o (bad r) disk s = fail_tree-holds r s (delete o.path disk)
    submit-holds signature o (good value) disk s =
        let request = v.request_digest value signature o.digest in
        let tx =
          record_task_artifact round_id member.client_id u.task_id o value.ciphertext_digest
            value.nonce signature u.idem_key request m.recorded in
        conclude_task-holds o s (transaction tx (m.before_record s)) disk (
          p.chain s (m.before_record s) _ (before_record s) (
            transaction-holds R tx (m.before_record s)
              (records o value.ciphertext_digest value.nonce signature request)))

    store_task-holds :
        (row : RoundRow) (plan : TreePlanRow) (task : Task) (metadata : Metadata) (signature : Text)
        (x : Stored × Disk) (s : Db)
        → R s (store_task v round_id member u m row plan task metadata signature x s).1.db
    unfolding store_task
    store_task-holds row plan task metadata signature (rejected e, disk) s =
        fail_tree-holds (store_failed e) s disk
    store_task-holds row plan task metadata signature (stored o, disk) s =
        submit-holds signature o _ disk s

    upload_for-holds :
        (row : RoundRow) (plan : TreePlanRow) (metadata : Metadata) (task : Option Task)
        (signature : Option Text) (disk : Disk) (s : Db)
        → R s (upload_for v round_id member u m row plan metadata task signature disk s).1.db
    unfolding upload_for
    upload_for-holds row plan metadata none signature disk s = fail_tree-holds actor_invalid s disk
    upload_for-holds row plan metadata (some task) none disk s =
        fail_tree-holds actor_invalid s disk
    upload_for-holds row plan metadata (some task) (some signature) disk s =
        elim (Bool-cases (task.sender == member.client_id)) [
          | inr other ↦ rw (other, upload_for) (fail_tree-holds actor_invalid s disk)
          | inl own ↦ rw (own, upload_for) (store_task-holds row plan task metadata signature _ s)
        ]

    authorize-holds :
        (row : RoundRow) (metadata : Option Metadata) (plan : Option TreePlanRow) (disk : Disk)
        (s : Db)
        → R s (authorize v round_id member u m row metadata plan disk s).1.db
    unfolding authorize
    authorize-holds row none plan disk s = fail_tree-holds metadata_malformed s disk
    authorize-holds row (some metadata) none disk s = fail_tree-holds task_unavailable s disk
    authorize-holds row (some metadata) (some plan) disk s =
        elim (Bool-cases (is_v1_1 row.protocol_version)) [
          | inr old ↦ rw (old, authorize) (fail_tree-holds task_unavailable s disk)
          | inl new ↦
              rw (new, authorize)
                (upload_for-holds row plan metadata (find_task u.task_id plan.plan.tasks)
                  u.signature disk s)
        ]

    task_with_round-holds :
        (s : Db) (x : Answer RoundRow × Db) (disk : Disk)
        → ((t : Db) → R t (m.before_plan t))
        → R s x.1
        → R s (task_with_round v round_id member u m x disk).1.db
    unfolding task_with_round
    task_with_round-holds s (refused e, t) disk plan h = h
    task_with_round-holds s (answered row, t) disk plan h = p.chain s t _ h (
        p.chain t (m.before_plan t) _ (plan t) (
          authorize-holds row u.metadata (plan_row round_id (m.before_plan t)) disk
            (m.before_plan t)))

    pub put_key_task_artifact-holds :
        (site : Site)
        → ((s : Db) → R s (m.before_participant s))
        → ((s : Db) → R s (m.before_plan s))
        → Ensures R (get_round round_id true m.now m.later m.last)
        → R site.db (put_key_task_artifact v round_id member u m site).1.db
    unfolding put_key_task_artifact
    put_key_task_artifact-holds site before plan admits =
        task_with_round-holds site.db
          (round_for_member round_id member m.now m.later m.last m.before_participant site.db)
          site.disk plan
          (round_for_member-holds R round_id member m.now m.later m.last m.before_participant
            site.db before admits)

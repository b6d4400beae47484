-- ===== src/Api/Tree.antt =====
-- The handlers of api/v1.py for the key aggregation of protocol 1.1, but for the uploads:
-- `get_tree_plan`, `get_next_key_action`, `get_key_task_artifact`, `acknowledge_key_task`,
-- `get_final_key` and `acknowledge_final_key`.
use deki_smpc_server.Prelude.{Text, Message, Bool, not, Option, none, some, ◌==◌, if◌then◌else◌}
use deki_smpc_server.Domain.Topology.{TaskId}
use deki_smpc_server.Persistence.Schema.{Db, RoundRow, TreePlanRow, ArtifactRow, Response, is_v1_1}
use deki_smpc_server.Persistence.Tx.{Error, Result, ok, err}
use deki_smpc_server.Persistence.Statements.{plan_row}
use deki_smpc_server.Persistence.KeyTasks.{
  KeyAction, ArtifactMetadata, next_key_action, task_artifact, acknowledge_task,
}
use deki_smpc_server.Persistence.FinalKeys.{FinalMetadata, final_key, acknowledge_final_key}
use deki_smpc_server.Storage.{Bytes, Disk, final}
use deki_smpc_server.Storage.Reading.{file_digest}
use deki_smpc_server.Api.{
  Answer, answered, refused, api_error, refusal_of, round_conflict, internal_error,
}
use deki_smpc_server.Api.Rounds.{Member, transaction}
use deki_smpc_server.Api.Visits.{Visit, visit, call, reject, answer_or_reject}
use deki_smpc_server.Api.Signing.{Codec, FinalKeyValue, final_key_value, text_payload}

-- The texts that `_fail_tree` records; `of_error` is `str(exc)`.
pub record Reasons : Type 0 where
  pub artifact_unavailable : Message
  pub digest_changed : Message
  pub of_error : Error → Message

-- What `FileResponse` sends: the path of the file, the value of `X-Artifact-Metadata`, the signature
-- and the digest of the headers.
pub record FileReply (V : Type 0) : Type 0 where
  pub path : Text
  pub metadata : V
  pub signature : Option Text
  pub digest : Text

abbrev pub plan_ready : Option TreePlanRow → Answer TreePlanRow
plan_ready none = refused (api_error 409 round_conflict)
plan_ready (some plan) = answered plan

-- Was the file read, and has it the digest that the store recorded?
pub data Check : Type 0 where
  unreadable changed unchanged : Check

unfoldable pub check_file : (sha256 : Bytes → Text) → ArtifactRow → Disk → Check
check_file sha256 artifact disk = elim (disk (final artifact.path)) [
  | none ↦ unreadable
  | some content ↦ elim (file_digest sha256 content) [
    | none ↦ unreadable
    | some digest ↦ if digest == artifact.digest then unchanged else changed
  ]
]

module _ (k : Codec) (reasons : Reasons) (round_id : Text) (member : Member) (t : Visit) where
  -- `get_tree_plan`.
  unfoldable pub get_tree_plan : Db → Answer TreePlanRow × Db
  get_tree_plan = visit round_id member t (λ row s.
      if not (is_v1_1 row.protocol_version)
      then (refused (api_error 409 round_conflict), s)
      else (plan_ready (plan_row round_id (t.before_method s)), t.before_method s))

  -- `get_next_key_action`; none is the answer 204.
  unfoldable pub get_next_key_action :
      (TaskId → TaskId → Bool) → Db → Answer (Option KeyAction) × Db
  get_next_key_action name_le =
      visit round_id member t (λ row. call (next_key_action name_le round_id member.client_id) t)

  -- A reply with a file whose digest is checked before.
  unfoldable pub send_checked : {V : Type 0} → Check → FileReply V → Db → Answer (FileReply V) × Db
  send_checked unreadable reply s = reject round_id member t reasons.artifact_unavailable s
  send_checked changed reply s = reject round_id member t reasons.digest_changed s
  send_checked unchanged reply s = (answered reply, s)

  unfoldable pub send_task :
      (sha256 : Bytes → Text)
      → Disk
      → Result (ArtifactRow × ArtifactMetadata) × Db
      → Answer (FileReply ArtifactMetadata) × Db
  unfolding send_checked check_file
  send_task sha256 disk (err e, s) = (refused (refusal_of e), s)
  send_task sha256 disk (ok (artifact, metadata), s) =
      send_checked (check_file sha256 artifact disk)
        (record {
          path = artifact.path;
          metadata = metadata;
          signature = metadata.signature;
          digest = artifact.digest;
        })
        s

  -- `get_key_task_artifact`.
  unfoldable pub get_key_task_artifact :
      (sha256 : Bytes → Text) → TaskId → Disk → Db → Answer (FileReply ArtifactMetadata) × Db
  unfolding send_task
  get_key_task_artifact sha256 task_id disk = visit round_id member t (λ row s.
      send_task sha256 disk
        (transaction (task_artifact round_id task_id member.client_id) (t.before_method s)))

  -- `acknowledge_key_task`.
  unfoldable pub acknowledge_key_task :
      TaskId → (artifact_digest idem_key : Text) → Db → Answer Response × Db
  acknowledge_key_task task_id artifact_digest idem_key = visit round_id member t (λ row s.
      answer_or_reject round_id member t reasons.of_error (
        transaction
          (acknowledge_task round_id member.client_id task_id artifact_digest idem_key
            (k.digest (text_payload artifact_digest)) t.recorded)
          (t.before_method s)))

  unfoldable pub send_final :
      (sha256 : Bytes → Text)
      → RoundRow
      → Disk
      → Result (Option (ArtifactRow × FinalMetadata)) × Db
      → Answer (FileReply FinalKeyValue) × Db
  unfolding send_checked check_file
  send_final sha256 row disk (err e, s) = (refused (api_error 500 internal_error), s)
  send_final sha256 row disk (ok none, s) = (refused (api_error 409 round_conflict), s)
  send_final sha256 row disk (ok (some (artifact, metadata)), s) =
      send_checked (check_file sha256 artifact disk)
        (record {
          path = artifact.path;
          metadata =
              final_key_value row metadata.plan_hash metadata.sender metadata.nonce
                metadata.ciphertext_digest metadata.ciphertext_size;
          signature = some metadata.signature;
          digest = artifact.digest;
        })
        s

  -- `get_final_key`.
  unfoldable pub get_final_key :
      (sha256 : Bytes → Text) → Disk → Db → Answer (FileReply FinalKeyValue) × Db
  unfolding send_final
  get_final_key sha256 disk =
      visit round_id member t
        (λ row s. send_final sha256 row disk (transaction (final_key round_id) (t.before_method s)))

  -- `acknowledge_final_key`.
  unfoldable pub acknowledge_final : (artifact_digest idem_key : Text) → Db → Answer Response × Db
  acknowledge_final artifact_digest idem_key = visit round_id member t (λ row s.
      answer_or_reject round_id member t reasons.of_error (
        transaction
          (acknowledge_final_key round_id member.client_id artifact_digest idem_key
            (k.digest (text_payload artifact_digest)) t.recorded t.moved)
          (t.before_method s)))

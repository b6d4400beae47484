-- ===== src/Api/KeyTasks.antt =====
-- `put_key_task_artifact` of api/v1.py, with `_fail_tree` and `_artifact_value`: the upload of an
-- encrypted artifact for a task of the tree.
use deki_smpc_server.Prelude.{
  ℕ, Text, Message, Bool, true, false, not, ◌||◌, Option, none, some, List, [], ◌∷◌, ◌==◌,
  if◌then◌else◌, length, same,
}
use deki_smpc_server.Domain.Topology.{TaskId, Task}
use deki_smpc_server.Persistence.Schema.{
  Db, RoundRow, TreePlanRow, Response, StoredObject, TaskId-discrete, is_v1_1,
  key_artifact_rejected,
}
use deki_smpc_server.Persistence.Tx.{Error, Result, ok, err}
use deki_smpc_server.Persistence.Statements.{plan_row}
use deki_smpc_server.Persistence.Rounds.{fail_round}
use deki_smpc_server.Persistence.KeyTasks.{record_task_artifact}
use deki_smpc_server.Storage.{
  Bytes, Disk, Stream, Stored, StoreError, stored, rejected, final, put_stream, delete,
}
use deki_smpc_server.Storage.Reading.{ciphertext_digest}
use deki_smpc_server.Api.{Answer, answered, refused, api_error, round_failed, internal_error}
use deki_smpc_server.Api.Rounds.{Member, transaction, round_for_member}
use deki_smpc_server.Api.Updates.{Site}

-- `_artifact_value`.
pub record ArtifactValue : Type 0 where
  pub task : Task
  pub plan_hash : Text
  pub model_schema_hash : Text
  pub nonce : Text
  pub ciphertext_digest : Text
  pub ciphertext_size : ℕ

-- The decoded metadata: the text of its nonce, what that decodes to, and the comparison of the whole
-- with an expected value.
pub record Metadata : Type 0 where
  pub nonce_text : Text
  pub nonce : Option Bytes
  pub equals : ArtifactValue → Bool

-- What the handler has of a request and draws for it; no metadata where they are malformed.
pub record TaskUpload : Type 0 where
  pub task_id : TaskId
  pub metadata : Option Metadata
  pub signature : Option Text
  pub idem_key : Text
  pub body : Stream
  pub object_id : Text

-- The clock readings, and what other processes do to the database between the steps.
pub record TaskMoments : Type 0 where
  pub now : ℕ
  pub later : ℕ
  pub last : ℕ
  pub recorded : ℕ
  pub rejected_at : ℕ
  pub before_participant : Db → Db
  pub before_plan : Db → Db
  pub before_record : Db → Db
  pub before_failure : Db → Db

-- Why an artifact is rejected.
pub data Rejection : Type 0 where
  metadata_malformed task_unavailable actor_invalid nonce_malformed : Rejection
  file_unreadable ciphertext_too_short metadata_differs signature_invalid : Rejection
  store_failed : StoreError → Rejection
  record_failed : Error → Rejection

-- The cryptography and the canonical JSON, and the texts of the rejections.
pub record TaskService : Type 0 where
  pub sha256 : Bytes → Text
  pub verifies : RoundRow → Member → ArtifactValue → Text → Bool
  pub request_digest : ArtifactValue → (signature content : Text) → Text
  pub text_of : Rejection → Message
  pub max_bytes : ℕ

-- `next((item for item in plan["tasks"] if item["task_id"] == task_id), None)`.
unfoldable pub find_task : TaskId → List Task → Option Task
find_task id [] = none
find_task id (t ∷ ts) =
    let rest = find_task id ts in if same TaskId-discrete t.task_id id then some t else rest

pub data Examined : Type 0 where
  bad : Rejection → Examined
  good : ArtifactValue → Examined

module _ (v : TaskService) (round_id : Text) (member : Member) (u : TaskUpload)
    (m : TaskMoments) where
  unfoldable pub end_failure : Result (Unit {0}) × Db → Disk → Answer (Response × Bool) × Site
  end_failure (ok a, t) disk =
      (refused (api_error 422 round_failed), record { db = t; disk = disk })
  end_failure (err e, t) disk =
      (refused (api_error 500 internal_error), record { db = t; disk = disk })

  -- `_fail_tree`. An exception of `fail_round` is not caught.
  unfoldable pub fail_tree : Rejection → Db → Disk → Answer (Response × Bool) × Site
  unfolding end_failure
  fail_tree r s disk =
      end_failure
        (transaction
          (fail_round round_id member.client_id key_artifact_rejected (v.text_of r) m.rejected_at)
          (m.before_failure s))
        disk

  -- The checks of the metadata and the signature against the expected value.
  unfoldable pub judge :
      RoundRow → Metadata → (signature : Text) → (nonce : Bytes) → ArtifactValue → Examined
  judge row metadata signature nonce expected =
      if not (length nonce == 12) || not (metadata.equals expected)
      then bad metadata_differs
      else if not (v.verifies row member expected signature)
      then bad signature_invalid
      else good expected

  abbrev pub expected_value :
      RoundRow → TreePlanRow → Task → Metadata → StoredObject → (digest : Text) → ArtifactValue
  expected_value row plan task metadata o digest = record {
    task = task;
    plan_hash = plan.plan_hash;
    model_schema_hash = row.model_schema_hash;
    nonce = metadata.nonce_text;
    ciphertext_digest = digest;
    ciphertext_size = o.size;
  }

  -- The checks of the stored ciphertext, with the value that the metadata have to be.
  unfoldable pub examine :
      RoundRow → TreePlanRow → Task → Metadata → (signature : Text) → StoredObject → Disk → Examined
  unfolding judge
  examine row plan task metadata signature o disk = elim metadata.nonce [
    | none ↦ bad nonce_malformed
    | some nonce ↦ elim (disk (final o.path)) [
      | none ↦ bad file_unreadable
      | some content ↦ elim (ciphertext_digest v.sha256 content nonce) [
        | none ↦ bad ciphertext_too_short
        | some digest ↦
            judge row metadata signature nonce (expected_value row plan task metadata o digest)
      ]
    ]
  ]

  -- After `record_task_artifact`.
  unfoldable pub conclude_task :
      StoredObject → Result (Response × Bool) × Db → Disk → Answer (Response × Bool) × Site
  unfolding fail_tree
  conclude_task o (err e, s) disk = fail_tree (record_failed e) s (delete o.path disk)
  conclude_task o (ok (response, true), s) disk =
      (answered (response, true), record { db = s; disk = delete o.path disk })
  conclude_task o (ok (response, false), s) disk =
      (answered (response, false), record { db = s; disk = disk })

  -- `record_task_artifact` for what the examination found.
  unfoldable pub submit :
      (signature : Text) → StoredObject → Examined → Disk → Db → Answer (Response × Bool) × Site
  unfolding conclude_task
  submit signature o (bad r) disk s = fail_tree r s (delete o.path disk)
  submit signature o (good value) disk s =
      conclude_task o
        (transaction
          (record_task_artifact round_id member.client_id u.task_id o value.ciphertext_digest
            value.nonce signature u.idem_key (v.request_digest value signature o.digest) m.recorded)
          (m.before_record s))
        disk

  unfoldable pub store_task :
      RoundRow
      → TreePlanRow
      → Task
      → Metadata
      → (signature : Text) → Stored × Disk
      → Db
      → Answer (Response × Bool) × Site
  unfolding submit examine
  store_task row plan task metadata signature (rejected e, disk) s =
      fail_tree (store_failed e) s disk
  store_task row plan task metadata signature (stored o, disk) s =
      submit signature o (examine row plan task metadata signature o disk) disk s

  -- The check of the task, its sender and the presence of a signature, and the upload.
  unfoldable pub upload_for :
      RoundRow
      → TreePlanRow
      → Metadata
      → Option Task
      → Option Text
      → Disk
      → Db
      → Answer (Response × Bool) × Site
  unfolding store_task
  upload_for row plan metadata none signature disk s = fail_tree actor_invalid s disk
  upload_for row plan metadata (some task) none disk s = fail_tree actor_invalid s disk
  upload_for row plan metadata (some task) (some signature) disk s =
      if not (task.sender == member.client_id)
      then fail_tree actor_invalid s disk
      else store_task row plan task metadata signature
          (put_stream v.sha256 v.max_bytes u.object_id u.body disk) s

  -- The checks before the upload.
  unfoldable pub authorize :
      RoundRow → Option Metadata → Option TreePlanRow → Disk → Db → Answer (Response × Bool) × Site
  unfolding upload_for find_task
  authorize row none plan disk s = fail_tree metadata_malformed s disk
  authorize row (some metadata) none disk s = fail_tree task_unavailable s disk
  authorize row (some metadata) (some plan) disk s =
      if not (is_v1_1 row.protocol_version)
      then fail_tree task_unavailable s disk
      else upload_for row plan metadata (find_task u.task_id plan.plan.tasks) u.signature disk s

  unfoldable pub task_with_round : Answer RoundRow × Db → Disk → Answer (Response × Bool) × Site
  unfolding authorize
  task_with_round (refused e, s) disk = (refused e, record { db = s; disk = disk })
  task_with_round (answered row, s) disk =
      let t = m.before_plan s in authorize row u.metadata (plan_row round_id t) disk t

  -- `put_key_task_artifact`.
  unfoldable pub put_key_task_artifact : Site → Answer (Response × Bool) × Site
  unfolding task_with_round
  put_key_task_artifact site =
      task_with_round
        (round_for_member round_id member m.now m.later m.last m.before_participant site.db)
        site.disk

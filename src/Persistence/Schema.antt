-- ===== src/Persistence/Schema.antt =====
-- The tables of `SCHEMA` in database.py: one record for each, with a field for each column. A column
-- that may be NULL is an `Option`; a JSON column holds the value that the JSON text stands for, and
-- a time is a reading of the clock in its least unit.
use deki_smpc_server.Prelude.{ℕ, Text, Message, Bool, true, false, Option, List, [], ℕ_discrete}
use deki_smpc_server.Domain.States.{RoundState}
use deki_smpc_server.Domain.Models.{ModelSchema, AggregationPolicy}
use deki_smpc_server.Domain.Topology.{TaskId, Task, Plan, ManifestEntry}

-- The two wire values that the API lets through.
pub data Protocol : Type 0 where
  v1_0 v1_1 : Protocol

-- `protocol_version == "1.1"`.
abbrev pub is_v1_1 : Protocol → Bool
is_v1_1 v1_1 = true
is_v1_1 v1_0 = false

-- `event_type` of the audit log, and the failure codes.
pub data Event : Type 0 where
  round_created round_deadline_exceeded operator_abort : Event
  public_key_barrier public_key_accepted key_bundle_accepted key_context_accepted : Event
  key_context_mismatch key_setup_barrier tree_plan_committed tree_artifact_accepted : Event
  tree_task_completed final_key_published final_key_acknowledged final_key_barrier : Event
  key_artifact_rejected update_accepted update_barrier aggregation_lease_expired : Event
  aggregation_lease_exhausted aggregation_completed aggregation_failed : Event
  participant_completed completion_barrier : Event

-- `actor` of the audit log: the caller of a method, or one of the service's own names.
pub data Actor : Type 0 where
  caller : Text → Actor
  reconciler coordinator worker : Actor

-- What an audit event has in `detail`.
pub data Detail : Type 0 where
  message : Message → Detail
  about_task : TaskId → Detail
  digest_text : Text → Detail

pub record RoundRow : Type 0 where
  pub round_id : Text
  pub federation_id : Text
  pub protocol_version : Protocol
  pub model_schema_hash : Text
  pub model_schema : ModelSchema
  pub participant_manifest_hash : Text
  pub participants : List Text
  pub expected_count : ℕ
  pub aggregation_policy : AggregationPolicy
  pub precision_bits : ℕ
  pub state : RoundState
  pub state_version : ℕ
  pub created_at : ℕ
  pub deadline_at : ℕ
  pub completed_at : Option ℕ
  pub retention_at : ℕ
  pub failure_code : Option Event
  pub failure_detail : Option Message

-- `participants.state`.
pub data ParticipantState : Type 0 where
  awaiting_public_key public_key_submitted key_bundle_submitted : ParticipantState
  ready_for_update update_submitted completed : ParticipantState

-- The two artifacts that a JSON slot takes: `PublicKeyArtifact` and `KeyBundleArtifact`. The
-- messages of a bundle are its recipients in order, each with its envelope.
pub data Body : Type 0 where
  public_key_body : Text → Text → Body
  key_bundle_body : List (Text × Text) → Text → Body

pub record ParticipantRow : Type 0 where
  pub round_id : Text
  pub client_id : Text
  pub state : ParticipantState
  pub public_key : Option Body
  pub key_bundle : Option Body
  pub context_commitment : Option Text
  pub update_artifact_id : Option Text
  pub update_digest : Option Text
  pub integrity_tag : Option Text
  pub completed : Bool
  pub last_seen : ℕ

-- `artifact_type`: `key_task:{task_id}`, `final_key`, `update` and `result`.
pub data ArtifactType : Type 0 where
  key_task : TaskId → ArtifactType
  final_key update result : ArtifactType

pub record ArtifactRow : Type 0 where
  pub artifact_id : Text
  pub round_id : Text
  pub client_id : Option Text
  pub artifact_type : ArtifactType
  pub path : Text
  pub digest : Text
  pub size : ℕ
  pub created_at : ℕ

-- `operation` of an idempotency record.
pub data Operation : Type 0 where
  create public_key key_bundle key_complete final_key final_key_ack update complete abort :
      Operation
  key_task_artifact key_task_ack : TaskId → Operation

-- The JSON responses that are kept for a replay.
pub data Response : Type 0 where
  round_response :
      (round_id federation_id : Text)
      → (state : RoundState) → (state_version : ℕ) → (protocol_version : Protocol)
      → (model_schema_hash participant_manifest_hash : Text) → (expected_participant_count : ℕ)
      → (aggregation_policy : AggregationPolicy) → (precision_bits deadline_at : ℕ) → Response
  accepted : Response
  accepted_digest : Text → Response
  accepted_artifact : (artifact_id digest : Text) → (size : ℕ) → Response

pub record IdempotencyRow : Type 0 where
  pub client_id : Text
  pub round_id : Text
  pub operation : Operation
  pub idem_key : Text
  pub content_digest : Text
  pub response : Response
  pub created_at : ℕ

pub data JobState : Type 0 where
  ready claimed completed failed : JobState

pub record JobRow : Type 0 where
  pub job_id : Text
  pub round_id : Text
  pub state : JobState
  pub attempts : ℕ
  pub max_attempts : ℕ
  pub claimed_at : Option ℕ
  pub lease_until : Option ℕ
  pub claim_token : Option Text
  pub result_integrity_tag : Option Text
  pub last_error : Option Message

pub record AuditRow : Type 0 where
  pub round_id : Text
  pub actor : Actor
  pub event_type : Event
  pub state_version : Option ℕ
  pub created_at : ℕ
  pub detail : Option Detail

pub record TreePlanRow : Type 0 where
  pub round_id : Text
  pub plan_hash : Text
  pub plan : Plan
  pub manifest : List ManifestEntry
  pub created_at : ℕ

pub data TaskState : Type 0 where
  waiting ready artifact_uploaded completed : TaskState

-- The columns from `task_id` to `dependencies_json` are those of the task.
pub record KeyTaskRow : Type 0 where
  pub round_id : Text
  pub task : Task
  pub state : TaskState
  pub artifact_id : Option Text
  pub ciphertext_digest : Option Text
  pub nonce : Option Text
  pub signature : Option Text
  pub completed_at : Option ℕ

pub record DependencyRow : Type 0 where
  pub round_id : Text
  pub task_id : TaskId
  pub dependency_id : TaskId

pub record TaskReceiptRow : Type 0 where
  pub round_id : Text
  pub task_id : TaskId
  pub actor : Text
  pub artifact_digest : Text
  pub created_at : ℕ

pub record FinalKeyRow : Type 0 where
  pub round_id : Text
  pub artifact_id : Text
  pub ciphertext_digest : Text
  pub nonce : Text
  pub signature : Text
  pub sender : Text
  pub created_at : ℕ

pub record FinalReceiptRow : Type 0 where
  pub round_id : Text
  pub client_id : Text
  pub artifact_digest : Text
  pub created_at : ℕ

-- The database, without the enrolled members.
pub record Db : Type 0 where
  pub rounds : List RoundRow
  pub participants : List ParticipantRow
  pub artifacts : List ArtifactRow
  pub idempotency : List IdempotencyRow
  pub jobs : List JobRow
  pub audit_events : List AuditRow
  pub tree_plans : List TreePlanRow
  pub key_tasks : List KeyTaskRow
  pub task_dependencies : List DependencyRow
  pub task_receipts : List TaskReceiptRow
  pub final_keys : List FinalKeyRow
  pub final_key_receipts : List FinalReceiptRow

abbrev pub empty : Db
empty = record {
  rounds = [];
  participants = [];
  artifacts = [];
  idempotency = [];
  jobs = [];
  audit_events = [];
  tree_plans = [];
  key_tasks = [];
  task_dependencies = [];
  task_receipts = [];
  final_keys = [];
  final_key_receipts = [];
}

-- `StoredObject` of storage/filesystem.py.
pub record StoredObject : Type 0 where
  pub object_id : Text
  pub path : Text
  pub digest : Text
  pub size : ℕ

unfoldable pub TaskId-discrete : Discrete TaskId
TaskId-discrete = hlevel (ℕ_discrete)

pub Operation-discrete : Discrete Operation
Operation-discrete = hlevel (ℕ_discrete)

unfoldable pub ArtifactType-discrete : Discrete ArtifactType
ArtifactType-discrete = hlevel (ℕ_discrete)

pub Body-discrete : Discrete Body
Body-discrete = hlevel (ℕ_discrete)

-- What topology.py gets from hashlib and json: the draws that follow from the seed of a round and
-- its manifest, and the digest of a plan. `fuel` bounds the draws that a shuffle step may reject.
pub record Hashing : Type 0 where
  pub draws : RoundRow → List ManifestEntry → ℕ → ℕ
  pub plan_digest : Plan → Text
  pub fuel : ℕ

-- ===== src/Persistence/KeyTasks.antt =====
-- The key aggregation of protocol 1.1 in database.py: `next_key_action`, `record_task_artifact`,
-- `task_artifact` and `acknowledge_task`.
use deki_smpc_server.Prelude.{
  ℕ, Text, Bool, true, false, not, ◌&&◌, ◌||◌, Option, none, some, List, [], ◌∷◌, ltb, ◌==◌,
  if◌then◌else◌, same,
}
use deki_smpc_server.Prelude.Rows.{select, select_one, count_where, any}
use deki_smpc_server.Domain.States.{key_aggregation, update_collection, state_eq}
use deki_smpc_server.Domain.Topology.{TaskId, Task, Stage, group_stage, tree_stage}
use deki_smpc_server.Persistence.Schema.{
  Db, ArtifactRow, ArtifactType, KeyTaskRow, DependencyRow, TaskState, StoredObject, is_v1_1,
  caller, Response, accepted, accepted_artifact, key_task, key_task_artifact, key_task_ack,
  tree_artifact_accepted, tree_task_completed, about_task, TaskId-discrete,
}
use deki_smpc_server.Persistence.Tx.{
  Tx, round_conflict, not_ready, type_error, pure, gets, raise_if, ◌>>=◌, ◌>>◌,
}
use deki_smpc_server.Persistence.Statements.{
  round_of, task_of, is_task, plan_row, final_row, is_receipt, insert_artifact, update_key_tasks,
  insert_task_receipt, note, remember, replay_or, replay_alone, need,
}

abbrev pub task_state_eq : TaskState → TaskState → Bool
task_state_eq TaskState.waiting TaskState.waiting = true
task_state_eq TaskState.ready TaskState.ready = true
task_state_eq TaskState.artifact_uploaded TaskState.artifact_uploaded = true
task_state_eq TaskState.completed TaskState.completed = true
task_state_eq _ _ = false

-- A column that may be NULL against a text: false where it is NULL.
abbrev pub has_id : Option Text → Text → Bool
has_id none b = false
has_id (some a) b = a == b

-- What a client may do next.
pub data KeyAction : Type 0 where
  key_aggregation_complete : KeyAction
  do_task : Task → (plan_hash : Text) → KeyAction
  publish_final : (root_task : TaskId) → (plan_hash : Text) → KeyAction
  ack_final : (sender plan_hash : Text) → KeyAction

abbrev stage_rank : Stage → ℕ
stage_rank group_stage = 0
stage_rank tree_stage = 1

-- `ORDER BY CASE stage …, level, task_id`, where `name_le` compares the texts of two task ids.
abbrev action_le : (TaskId → TaskId → Bool) → Task → Task → Bool
action_le name_le a b =
    ltb (stage_rank a.stage) (stage_rank b.stage)
    || (stage_rank a.stage == stage_rank b.stage
        && (ltb a.level b.level || (a.level == b.level && name_le a.task_id b.task_id)))

-- `… LIMIT 1`: the least row in the order, the first of equal ones.
least_task : (TaskId → TaskId → Bool) → List KeyTaskRow → Option KeyTaskRow
least_task name_le [] = none
least_task name_le (t ∷ ts) = elim (least_task name_le ts) [
  | none ↦ some t
  | some u ↦ if action_le name_le t.task u.task then some t else some u
]

abbrev ready_for : Text → Text → KeyTaskRow → Bool
ready_for round client t =
    t.round_id == round && t.task.sender == client && task_state_eq t.state TaskState.ready

abbrev pub incomplete_in : Text → KeyTaskRow → Bool
incomplete_in round t = t.round_id == round && not (task_state_eq t.state TaskState.completed)

-- `SELECT count(*) FROM key_tasks WHERE round_id=? AND state!='COMPLETED'`.
unfoldable pub incomplete_tasks : Text → Db → ℕ
incomplete_tasks round s = count_where (incomplete_in round) s.key_tasks

unfoldable pub next_key_action :
    (TaskId → TaskId → Bool) → (round_id client_id : Text) → Tx (Option KeyAction)
unfolding least_task
next_key_action name_le round_id client_id = do
  round_row ← need (round_of round_id) round_conflict
  raise_if (not (is_v1_1 round_row.protocol_version)) round_conflict
  if state_eq round_row.state update_collection then pure (some key_aggregation_complete) else do
    raise_if (not (state_eq round_row.state key_aggregation)) round_conflict
    task ← gets (λ s. least_task name_le (select (ready_for round_id client_id) s.key_tasks))
    plan ← need (plan_row round_id) not_ready
    incomplete ← gets (incomplete_tasks round_id)
    final ← gets (final_row round_id)
    received ← gets (λ s. any (is_receipt round_id client_id) s.final_key_receipts)
    pure (elim task [
      | some t ↦ some (do_task t.task plan.plan_hash)
      | none ↦ elim final [
        | none ↦
            if incomplete == 0 && client_id == plan.plan.root_client_id
            then some (publish_final plan.plan.root_task_id plan.plan_hash)
            else none
        | some f ↦ if received then none else some (ack_final f.sender plan.plan_hash)
      ]
    ])

-- The row of a stored object.
abbrev pub artifact_row : StoredObject → Text → Option Text → ArtifactType → ℕ → ArtifactRow
artifact_row stored round client type now = record {
  artifact_id = stored.object_id;
  round_id = round;
  client_id = client;
  artifact_type = type;
  path = stored.path;
  digest = stored.digest;
  size = stored.size;
  created_at = now;
}

-- `UPDATE … WHERE round_id=? AND task_id=? AND state='READY'`.
abbrev pub is_ready_task : Text → TaskId → KeyTaskRow → Bool
is_ready_task round task t = is_task round task t && task_state_eq t.state TaskState.ready

unfoldable pub record_task_artifact :
    (round_id client_id : Text)
    → (task_id : TaskId) → StoredObject
    → (ciphertext_digest nonce signature idem_key request_digest : Text) → (now : ℕ)
    → Tx (Response × Bool)
record_task_artifact round_id client_id task_id stored ciphertext_digest nonce signature idem_key
      request_digest now =
    let response = accepted_artifact stored.object_id ciphertext_digest stored.size in
    replay_or client_id round_id (key_task_artifact task_id) idem_key request_digest do
      round_row ← need (round_of round_id) round_conflict
      task ← need (task_of round_id task_id) round_conflict
      raise_if
          (not (state_eq round_row.state key_aggregation)
            || not (task.task.sender == client_id)
            || not (task_state_eq task.state TaskState.ready))
          round_conflict
      insert_artifact (artifact_row stored round_id (some client_id) (key_task task_id) now)
      update_key_tasks (is_ready_task round_id task_id) (λ t. record t {
        state = TaskState.artifact_uploaded;
        artifact_id = some stored.object_id;
        ciphertext_digest = some ciphertext_digest;
        nonce = some nonce;
        signature = some signature;
      })
      remember client_id round_id (key_task_artifact task_id) idem_key request_digest response now
      note round_id (caller client_id) tree_artifact_accepted now (some (about_task task_id))
      pure (response, false)

-- The metadata of a task's artifact, with the signature apart.
pub record ArtifactMetadata : Type 0 where
  pub task : Task
  pub model_schema_hash : Text
  pub nonce : Option Text
  pub ciphertext_digest : Option Text
  pub ciphertext_size : ℕ
  pub signature : Option Text
  pub plan_hash : Text

unfoldable pub task_artifact :
    (round_id : Text)
    → (task_id : TaskId) → (client_id : Text) → Tx (ArtifactRow × ArtifactMetadata)
task_artifact round_id task_id client_id = do
  t ← need (task_of round_id task_id) round_conflict
  raise_if (not (t.task.receiver == client_id) || not (task_state_eq t.state TaskState.completed))
      round_conflict
  artifact ← need (λ s. select_one (λ a. has_id t.artifact_id a.artifact_id) s.artifacts) not_ready
  round_row ← need (round_of round_id) type_error
  plan ← need (plan_row round_id) type_error
  pure (
    artifact,
    record {
      task = t.task;
      model_schema_hash = round_row.model_schema_hash;
      nonce = t.nonce;
      ciphertext_digest = t.ciphertext_digest;
      ciphertext_size = artifact.size;
      signature = t.signature;
      plan_hash = plan.plan_hash;
    },
  )

-- The dependency of one row on another: the join of `task_dependencies` with its source.
abbrev pub blocks : KeyTaskRow → DependencyRow → KeyTaskRow → Bool
blocks t d source =
    source.round_id == d.round_id
    && same TaskId-discrete source.task.task_id d.dependency_id
    && not (task_state_eq source.state TaskState.completed)

-- `EXISTS (SELECT 1 FROM task_dependencies d JOIN key_tasks source … )`.
unfoldable pub is_blocked : List DependencyRow → List KeyTaskRow → KeyTaskRow → Bool
is_blocked dependencies tasks t =
    any
      (λ d.
        d.round_id == t.round_id
        && same TaskId-discrete d.task_id t.task.task_id
        && any (blocks t d) tasks)
      dependencies

-- The WHERE clause of the activation.
unfoldable pub is_unblocked : Text → List DependencyRow → List KeyTaskRow → KeyTaskRow → Bool
is_unblocked round dependencies tasks t =
    t.round_id == round
    && task_state_eq t.state TaskState.waiting
    && not (is_blocked dependencies tasks t)

abbrev pub set_ready : KeyTaskRow → KeyTaskRow
set_ready t = record t { state = TaskState.ready }

-- The UPDATE that makes each waiting task ready whose dependencies are all completed.
unfoldable pub activate : Text → Tx Unit
unfolding is_unblocked is_blocked
activate round = do
  dependencies ← gets (λ s. s.task_dependencies)
  tasks ← gets (λ s. s.key_tasks)
  update_key_tasks (is_unblocked round dependencies tasks) set_ready

unfoldable pub acknowledge_task :
    (round_id client_id : Text)
    → (task_id : TaskId) → (artifact_digest idem_key digest : Text) → (now : ℕ) → Tx Response
acknowledge_task round_id client_id task_id artifact_digest idem_key digest now =
    replay_alone client_id round_id (key_task_ack task_id) idem_key digest do
      task ← need (task_of round_id task_id) round_conflict
      round_row ← need (round_of round_id) round_conflict
      raise_if
          (not (state_eq round_row.state key_aggregation)
            || not (task.task.sender == client_id)
            || not (task_state_eq task.state TaskState.artifact_uploaded)
            || not (has_id task.ciphertext_digest artifact_digest))
          round_conflict
      update_key_tasks (is_task round_id task_id)
          (λ t. record t { state = TaskState.completed; completed_at = some now })
      insert_task_receipt (record {
        round_id = round_id;
        task_id = task_id;
        actor = client_id;
        artifact_digest = artifact_digest;
        created_at = now;
      })
      activate round_id
      remember client_id round_id (key_task_ack task_id) idem_key digest accepted now
      note round_id (caller client_id) tree_task_completed now (some (about_task task_id))
      pure accepted

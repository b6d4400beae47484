-- ===== src/Persistence/Tests.antt =====
-- A round of two clients, from its creation to its completion, and small stores, for the tests.
mod History
mod Rounds
mod Keys
mod Ends
use deki_smpc_server.Prelude.{
  ℕ, ◌≤◌, Text, Message, Bool, true, false, Option, none, some, List, [], ◌∷◌, ◌++◌, ◌≡◌, ◌≢◌, refl,
  arith, ℕ_discrete,
}
use deki_smpc_server.Prelude.Rows.{select, select_one, any, count_where, update_where, delete_where}
use deki_smpc_server.Domain.States.{
  RoundState, completed, registration_open, key_setup, key_aggregation, update_collection,
  aggregating, transition_allowed, is_terminal,
}
use deki_smpc_server.Domain.States.Lifecycle.{rank}
use deki_smpc_server.Domain.Models.{ModelSchema, AggregationPolicy}
use deki_smpc_server.Domain.Topology.{TaskId, group_start, group_stage}
use deki_smpc_server.Persistence.Schema.{
  Db, RoundRow, JobRow, JobState, KeyTaskRow, TaskState, TreePlanRow, FinalKeyRow, empty, v1_0,
  Hashing, StoredObject, public_key_body, accepted, accepted_digest, accepted_artifact,
  round_response, TaskId-discrete,
}
use deki_smpc_server.Persistence.Tx.{
  ok, err, idempotency_conflict, worker_claim_lost, for_each, if_found, when, ◌>>=◌,
}
use deki_smpc_server.Persistence.Statements.{
  need, replay_as, answer, prior_of, round_of, participant_of, task_of, plan_row, final_row,
  update_participant, insert_round, insert_participant, insert_artifact, insert_audit,
  insert_idempotency, update_jobs, insert_task_receipt, update_key_tasks, insert_final_key,
  insert_final_receipt,
}
use deki_smpc_server.Persistence.Transition.{transition, update_rounds, moved}
use deki_smpc_server.Persistence.Rounds.{create_round, register_round, abort_round, new_participant}
use deki_smpc_server.Persistence.Setup.{Slot, record_json_slot, filled, participants_of}
use deki_smpc_server.Persistence.KeyContext.{
  complete_key_setup, key_complete_tx, commit_when_all, commit_context,
}
use deki_smpc_server.Persistence.KeyTasks.{
  record_task_artifact, acknowledge_task, activate, is_unblocked, is_blocked, incomplete_tasks,
}
use deki_smpc_server.Persistence.FinalKeys.{record_final_key, acknowledge_final_key, receipts}
use deki_smpc_server.Persistence.Updates.{record_update, first_update, new_job}
use deki_smpc_server.Persistence.Jobs.{complete_job, publish_result}
use deki_smpc_server.Persistence.Retention.{purge_round, delete_round}
use deki_smpc_server.Persistence.Requests.{
  after, handle, Request, Service, run, creates, records_slot, completes_key_setup, records_update,
  claims, completes_job, completes,
}
use deki_smpc_server.Persistence.Lifecycle.{Evolves}
use deki_smpc_server.Persistence.Lifecycle.History.{run-Evolves, run_version_bound}
use deki_smpc_server.Persistence.Audit.{versions_of, up_to, version_of}
use deki_smpc_server.Persistence.Audit.History.{run-recorded}
use deki_smpc_server.Persistence.Retry.Rounds.{
  create_round-retry, abort_round-retry, record_json_slot-retry, record_update-retry,
  record_update-conflict,
}
use deki_smpc_server.Persistence.Retry.Keys.{
  complete_key_setup-retry, record_task_artifact-retry, acknowledge_task-retry,
  record_final_key-retry, acknowledge_final_key-retry,
}
use deki_smpc_server.Persistence.Claims.{complete_job_once}
use deki_smpc_server.Persistence.Purge.{IsGone, purge_round_clean}
use deki_smpc_server.Persistence.Activation.{activate_settled}

abbrev pub hashing : Hashing
hashing = record { draws = λ r m i. i; plan_digest = λ p. 77; fuel = 10 }

abbrev pub service : Service
service = record {
  hashing = hashing;
  leases = record { expired = 1 ∷ []; exhausted = 2 ∷ []; returned = 3 ∷ [] };
  deadline_text = 4 ∷ [];
}

abbrev pub schema : ModelSchema
schema = record {
  aggregation_policy = AggregationPolicy.equal_weighted;
  entries = [];
  precision_bits = 16;
}

abbrev pub upload : ℕ → StoredObject
upload n = record { object_id = n; path = n; digest = n; size = 128 }

abbrev pub opening : List Request
opening = creates 50 v1_0 schema 60 (1 ∷ 2 ∷ []) 61 1000 5000 1 200 300 7 10 ∷ []

abbrev pub setting_up : List Request
setting_up =
    records_slot 7 1 Slot.public_key (public_key_body 11 12) 201 301 20 20
    ∷ records_slot 7 2 Slot.public_key (public_key_body 13 14) 202 302 21 22
    ∷ completes_key_setup 7 1 99 203 303 30 30
    ∷ completes_key_setup 7 2 99 204 304 31 31
    ∷ []

abbrev pub updating : List Request
updating =
    records_update 7 1 (upload 400) 500 205 305 90 40 40
    ∷ records_update 7 2 (upload 401) 501 206 306 90 41 41
    ∷ claims 60 91 50 (λ j. 50)
    ∷ []

abbrev pub ending : List Request
ending =
    completes_job 90 7 91 (upload 402) 502 55 55
    ∷ completes 7 1 207 307 60 60
    ∷ completes 7 2 208 308 61 61
    ∷ []

abbrev pub history : List Request
history = opening ++ setting_up ++ updating ++ ending

abbrev pub at_end : Db
at_end = run service history empty

-- A round of one state, with one client and the job of the round.
abbrev pub round_in : RoundState → RoundRow
round_in state = record {
  round_id = 7;
  federation_id = 50;
  protocol_version = v1_0;
  model_schema_hash = 60;
  model_schema = schema;
  participant_manifest_hash = 61;
  participants = 1 ∷ 2 ∷ [];
  expected_count = 2;
  aggregation_policy = AggregationPolicy.equal_weighted;
  precision_bits = 16;
  state = state;
  state_version = 5;
  created_at = 10;
  deadline_at = 1010;
  completed_at = none;
  retention_at = 5010;
  failure_code = none;
  failure_detail = none;
}

abbrev pub claimed_job : JobRow
claimed_job = record (new_job 90 7) {
  state = JobState.claimed;
  attempts = 1;
  claimed_at = some 50;
  lease_until = some 110;
  claim_token = some 91;
}

abbrev pub some_task : TaskState → KeyTaskRow
some_task state = record {
  round_id = 7;
  task = record {
    task_id = TaskId.start 0;
    action = group_start;
    stage = group_stage;
    level = 0;
    sender = 1;
    receiver = 2;
    dependencies = [];
  };
  state = state;
  artifact_id = none;
  ciphertext_digest = some 600;
  nonce = none;
  signature = none;
  completed_at = none;
}

abbrev pub some_plan : TreePlanRow
some_plan = record {
  round_id = 7;
  plan_hash = 77;
  plan = record {
    participants = 1 ∷ 2 ∷ [];
    groups = [];
    tasks = [];
    root_client_id = 1;
    root_task_id = TaskId.start 0;
    tree_levels = 0;
  };
  manifest = [];
  created_at = 30;
}

abbrev pub some_final_key : FinalKeyRow
some_final_key = record {
  round_id = 7;
  artifact_id = 700;
  ciphertext_digest = 600;
  nonce = 1;
  signature = 2;
  sender = 1;
  created_at = 40;
}

abbrev pub store_in : RoundState → Db
store_in state = record empty {
  rounds = round_in state ∷ [];
  participants = new_participant 7 10 1 ∷ [];
  jobs = claimed_job ∷ [];
}

-- ===== src/Persistence/Tests/Keys.antt =====
-- Retries of the methods of key setup and key aggregation, on small stores.
use deki_smpc_server.Prelude.{true, false, some, [], ◌∷◌, ◌≡◌, refl, ℕ_discrete}
use deki_smpc_server.Prelude.Rows.{select, select_one, any, count_where, update_where}
use deki_smpc_server.Domain.States.{key_setup, key_aggregation, transition_allowed}
use deki_smpc_server.Domain.Topology.{TaskId}
use deki_smpc_server.Persistence.Schema.{
  Db, TaskState, accepted, accepted_artifact, TaskId-discrete,
}
use deki_smpc_server.Persistence.Tx.{ok, if_found, when, ◌>>=◌}
use deki_smpc_server.Persistence.Statements.{
  need, replay_as, answer, prior_of, round_of, participant_of, task_of, plan_row, final_row,
  update_participant, insert_artifact, insert_audit, insert_idempotency, insert_task_receipt,
  update_key_tasks, insert_final_key, insert_final_receipt,
}
use deki_smpc_server.Persistence.Transition.{transition, update_rounds, moved}
use deki_smpc_server.Persistence.Rounds.{new_participant}
use deki_smpc_server.Persistence.Setup.{participants_of}
use deki_smpc_server.Persistence.KeyContext.{
  complete_key_setup, key_complete_tx, commit_when_all, commit_context,
}
use deki_smpc_server.Persistence.KeyTasks.{
  record_task_artifact, acknowledge_task, activate, is_unblocked, is_blocked, incomplete_tasks,
}
use deki_smpc_server.Persistence.FinalKeys.{record_final_key, acknowledge_final_key, receipts}
use deki_smpc_server.Persistence.Requests.{after}
use deki_smpc_server.Persistence.Retry.Keys.{
  complete_key_setup-retry, record_task_artifact-retry, acknowledge_task-retry,
  record_final_key-retry, acknowledge_final_key-retry,
}
use deki_smpc_server.Persistence.Tests.{
  hashing, upload, some_task, some_plan, some_final_key, store_in,
}

-- The other client has committed to another context.
abbrev store_committed : Db
store_committed = record (store_in key_setup) {
  participants =
      new_participant 7 10 1
      ∷ record (new_participant 7 10 2) { context_commitment = some 98 }
      ∷ [];
}

mismatch_ok :
    key_complete_tx hashing 7 1 99 203 303 30 31 (store_committed)
    ≡ ok ((accepted, true), after (key_complete_tx hashing 7 1 99 203 303 30 31) (store_committed))
unfolding key_complete_tx commit_when_all commit_context participants_of participant_of
    update_participant need replay_as answer prior_of round_of select select_one any count_where
    update_where insert_audit insert_idempotency transition transition_allowed update_rounds moved
    if_found when ◌>>=◌
mismatch_ok = refl

complete_key_setup-retry_example :
    complete_key_setup hashing 7 1 99 203 303 40 41
      (after (key_complete_tx hashing 7 1 99 203 303 30 31) store_committed)
    ≡ (ok accepted, after (key_complete_tx hashing 7 1 99 203 303 30 31) store_committed)
complete_key_setup-retry_example =
    complete_key_setup-retry hashing 7 1 99 203 303 30 31 40 41 store_committed
      (after (key_complete_tx hashing 7 1 99 203 303 30 31) store_committed) accepted true
      mismatch_ok

artifact_ok :
    record_task_artifact 7 1
      (TaskId.start 0)
      (upload 700)
      600
      1
      2
      220
      320
      40
      (record (store_in key_aggregation) { key_tasks = some_task TaskState.ready ∷ [] })
    ≡ ok (
      (accepted_artifact 700 600 128, false),
      after
          (record_task_artifact 7 1 (TaskId.start 0) (upload 700) 600 1 2 220 320 40)
          (record (store_in key_aggregation) { key_tasks = some_task TaskState.ready ∷ [] }),
    )
unfolding record_task_artifact task_of insert_artifact update_key_tasks need replay_as answer
    prior_of round_of select select_one any count_where update_where insert_audit insert_idempotency
    transition transition_allowed update_rounds moved if_found when ◌>>=◌ TaskId-discrete ℕ_discrete
artifact_ok = refl

record_task_artifact-retry_example :
    record_task_artifact 7 1 (TaskId.start 0) (upload 701) 600 1 2 220 320 50 (
      after
        (record_task_artifact 7 1 (TaskId.start 0) (upload 700) 600 1 2 220 320 40)
        (record (store_in key_aggregation) { key_tasks = some_task TaskState.ready ∷ [] }))
    ≡ ok (
      (accepted_artifact 700 600 128, true),
      after
          (record_task_artifact 7 1 (TaskId.start 0) (upload 700) 600 1 2 220 320 40)
          (record (store_in key_aggregation) { key_tasks = some_task TaskState.ready ∷ [] }),
    )
record_task_artifact-retry_example =
    record_task_artifact-retry 7 1 (TaskId.start 0) (upload 700) 600 1 2 220 320 40 (upload 701) 50
      (record (store_in key_aggregation) { key_tasks = some_task TaskState.ready ∷ [] })
      (after (record_task_artifact 7 1 (TaskId.start 0) (upload 700) 600 1 2 220 320 40)
        (record (store_in key_aggregation) { key_tasks = some_task TaskState.ready ∷ [] }))
      (accepted_artifact 700 600 128, false) artifact_ok

ack_ok :
    acknowledge_task 7 1
      (TaskId.start 0)
      600
      221
      321
      41
      (record (store_in key_aggregation) { key_tasks = some_task TaskState.artifact_uploaded ∷ [] })
    ≡ ok (
      accepted,
      after
          (acknowledge_task 7 1 (TaskId.start 0) 600 221 321 41)
          (record (store_in key_aggregation) {
            key_tasks = some_task TaskState.artifact_uploaded ∷ [];
          }),
    )
unfolding acknowledge_task activate is_unblocked is_blocked task_of insert_task_receipt
    update_key_tasks need replay_as answer prior_of round_of select select_one any count_where
    update_where insert_audit insert_idempotency transition transition_allowed update_rounds moved
    if_found when ◌>>=◌ TaskId-discrete ℕ_discrete
ack_ok = refl

acknowledge_task-retry_example :
    acknowledge_task 7 1 (TaskId.start 0) 600 221 321 51 (
      after
        (acknowledge_task 7 1 (TaskId.start 0) 600 221 321 41)
        (record (store_in key_aggregation) {
          key_tasks = some_task TaskState.artifact_uploaded ∷ [];
        }))
    ≡ ok (
      accepted,
      after
          (acknowledge_task 7 1 (TaskId.start 0) 600 221 321 41)
          (record (store_in key_aggregation) {
            key_tasks = some_task TaskState.artifact_uploaded ∷ [];
          }),
    )
acknowledge_task-retry_example =
    acknowledge_task-retry 7 1 (TaskId.start 0) 600 221 321 41 51
      (record (store_in key_aggregation) { key_tasks = some_task TaskState.artifact_uploaded ∷ [] })
      (after (acknowledge_task 7 1 (TaskId.start 0) 600 221 321 41)
        (record (store_in key_aggregation) {
          key_tasks = some_task TaskState.artifact_uploaded ∷ [];
        }))
      accepted ack_ok

final_ok :
    record_final_key 7 1
      (upload 700)
      600
      1
      2
      222
      322
      42
      (record (store_in key_aggregation) { tree_plans = some_plan ∷ [] })
    ≡ ok (
      (accepted_artifact 700 600 128, false),
      after
          (record_final_key 7 1 (upload 700) 600 1 2 222 322 42)
          (record (store_in key_aggregation) { tree_plans = some_plan ∷ [] }),
    )
unfolding record_final_key plan_row incomplete_tasks insert_artifact insert_final_key need replay_as
    answer prior_of round_of select select_one any count_where update_where insert_audit
    insert_idempotency transition transition_allowed update_rounds moved if_found when ◌>>=◌
final_ok = refl

record_final_key-retry_example :
    record_final_key 7 1 (upload 701) 600 1 2 222 322 52 (
      after
        (record_final_key 7 1 (upload 700) 600 1 2 222 322 42)
        (record (store_in key_aggregation) { tree_plans = some_plan ∷ [] }))
    ≡ ok (
      (accepted_artifact 700 600 128, true),
      after
          (record_final_key 7 1 (upload 700) 600 1 2 222 322 42)
          (record (store_in key_aggregation) { tree_plans = some_plan ∷ [] }),
    )
record_final_key-retry_example =
    record_final_key-retry 7 1 (upload 700) 600 1 2 222 322 42 (upload 701) 52
      (record (store_in key_aggregation) { tree_plans = some_plan ∷ [] })
      (after (record_final_key 7 1 (upload 700) 600 1 2 222 322 42)
        (record (store_in key_aggregation) { tree_plans = some_plan ∷ [] }))
      (accepted_artifact 700 600 128, false) final_ok

final_ack_ok :
    acknowledge_final_key 7 1 600 223 323 43 44
      (record (store_in key_aggregation) { final_keys = some_final_key ∷ [] })
    ≡ ok (
      accepted,
      after
          (acknowledge_final_key 7 1 600 223 323 43 44)
          (record (store_in key_aggregation) { final_keys = some_final_key ∷ [] }),
    )
unfolding acknowledge_final_key final_row receipts insert_final_receipt need replay_as answer
    prior_of round_of select select_one any count_where update_where insert_audit insert_idempotency
    transition transition_allowed update_rounds moved if_found when ◌>>=◌
final_ack_ok = refl

acknowledge_final_key-retry_example :
    acknowledge_final_key 7 1 600 223 323 53 54 (
      after
        (acknowledge_final_key 7 1 600 223 323 43 44)
        (record (store_in key_aggregation) { final_keys = some_final_key ∷ [] }))
    ≡ ok (
      accepted,
      after
          (acknowledge_final_key 7 1 600 223 323 43 44)
          (record (store_in key_aggregation) { final_keys = some_final_key ∷ [] }),
    )
acknowledge_final_key-retry_example =
    acknowledge_final_key-retry 7 1 600 223 323 43 44 53 54
      (record (store_in key_aggregation) { final_keys = some_final_key ∷ [] })
      (after (acknowledge_final_key 7 1 600 223 323 43 44)
        (record (store_in key_aggregation) { final_keys = some_final_key ∷ [] }))
      accepted final_ack_ok

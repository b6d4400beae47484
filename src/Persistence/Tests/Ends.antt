-- ===== src/Persistence/Tests/Ends.antt =====
-- Completion, purge and activation, on small stores.
use deki_smpc_server.Prelude.{ℕ, ℕ_discrete, ◌≤◌, true, some, [], ◌∷◌, ◌≡◌, refl}
use deki_smpc_server.Prelude.Rows.{select, select_one, any, count_where, update_where, delete_where}
use deki_smpc_server.Domain.States.{
  completed, key_aggregation, aggregating, transition_allowed, is_terminal,
}
use deki_smpc_server.Domain.Topology.{TaskId}
use deki_smpc_server.Persistence.Schema.{Db, DependencyRow, KeyTaskRow, TaskState, TaskId-discrete}
use deki_smpc_server.Persistence.Tx.{ok, err, worker_claim_lost, if_found, when, ◌>>=◌}
use deki_smpc_server.Persistence.Statements.{
  need, replay_as, answer, prior_of, round_of, insert_artifact, insert_audit, insert_idempotency,
  update_jobs, update_key_tasks,
}
use deki_smpc_server.Persistence.Transition.{transition, update_rounds, moved}
use deki_smpc_server.Persistence.KeyTasks.{activate, is_unblocked, is_blocked}
use deki_smpc_server.Persistence.Jobs.{complete_job, publish_result}
use deki_smpc_server.Persistence.Retention.{purge_round, delete_round}
use deki_smpc_server.Persistence.Requests.{after}
use deki_smpc_server.Persistence.Claims.{complete_job_once}
use deki_smpc_server.Persistence.Purge.{IsGone, purge_round_clean}
use deki_smpc_server.Persistence.Activation.{AreActivated, activate_settled}
use deki_smpc_server.Persistence.Tests.{upload, round_in, some_task, store_in}

job_ok :
    complete_job 90 7 91 (upload 402) 502 55 56 (store_in aggregating)
    ≡ ok (tt, after (complete_job 90 7 91 (upload 402) 502 55 56) (store_in aggregating))
unfolding complete_job publish_result insert_artifact update_jobs need replay_as answer prior_of
    round_of select select_one any count_where update_where insert_audit insert_idempotency
    transition transition_allowed update_rounds moved if_found when ◌>>=◌
job_ok = refl

complete_job_once_example :
    complete_job 90 7 91
      (upload 403)
      503
      65
      66
      (after (complete_job 90 7 91 (upload 402) 502 55 56) (store_in aggregating))
    ≡ err worker_claim_lost
complete_job_once_example =
    complete_job_once 90 7 91 (upload 402) (upload 403) 502 503 55 56 65 66 (store_in aggregating)
      (after (complete_job 90 7 91 (upload 402) 502 55 56) (store_in aggregating)) tt job_ok

purge_ok :
    purge_round 7 6000 (store_in completed)
    ≡ ok (tt, after (purge_round 7 6000) (store_in completed))
unfolding purge_round delete_round delete_where need replay_as answer prior_of round_of select
    select_one any count_where update_where insert_audit insert_idempotency transition
    transition_allowed update_rounds moved if_found when ◌>>=◌
purge_ok = refl

there : round_of 7 (store_in completed) ≡ some (round_in completed)
unfolding round_of select_one
there = refl

purge_round_clean_example :
    (is_terminal completed ≡ true)
    × (5010 ≤ 6000)
    × IsGone 7 (after (purge_round 7 6000) (store_in completed))
purge_round_clean_example =
    purge_round_clean 7 6000 (store_in completed) (after (purge_round 7 6000) (store_in completed))
      tt (round_in completed) there purge_ok

abbrev task_at : (number : ℕ) → TaskState → KeyTaskRow
task_at number state = record (some_task state) {
  task = record (some_task state).task { task_id = TaskId.start number };
}

abbrev needs : ℕ → ℕ → DependencyRow
needs task source = record {
  round_id = 7;
  task_id = TaskId.start task;
  dependency_id = TaskId.start source;
}

-- The second task waits for the first, which is completed, and the third for the second.
abbrev three_tasks : Db
three_tasks = record (store_in key_aggregation) {
  key_tasks =
      task_at 0 TaskState.completed
      ∷ task_at 1 TaskState.waiting
      ∷ task_at 2 TaskState.waiting
      ∷ [];
  task_dependencies = needs 1 0 ∷ needs 2 1 ∷ [];
}

abbrev second_ready : Db
second_ready = record three_tasks {
  key_tasks =
      task_at 0 TaskState.completed ∷ task_at 1 TaskState.ready ∷ task_at 2 TaskState.waiting ∷ [];
}

activate_ok : activate 7 three_tasks ≡ ok (tt, second_ready)
unfolding activate is_unblocked is_blocked update_key_tasks any update_where ◌>>=◌ TaskId-discrete
    ℕ_discrete
activate_ok = refl

activate_settled_example :
    AreActivated 7 three_tasks.task_dependencies three_tasks.key_tasks three_tasks.key_tasks
      second_ready.key_tasks
    × (second_ready ≡ record three_tasks { key_tasks = second_ready.key_tasks })
activate_settled_example = activate_settled 7 three_tasks second_ready tt activate_ok

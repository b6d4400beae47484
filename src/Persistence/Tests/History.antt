-- ===== src/Persistence/Tests/History.antt =====
-- The theorems on histories, for the round of two clients.
use deki_smpc_server.Prelude.{List, [], ◌∷◌, ◌++◌, ◌≤◌, some, ◌≡◌, refl}
use deki_smpc_server.Prelude.Rows.{select, select_one, any, count_where, update_where}
use deki_smpc_server.Domain.States.{registration_open, transition_allowed}
use deki_smpc_server.Domain.States.Lifecycle.{rank}
use deki_smpc_server.Persistence.Schema.{Db, RoundRow, key_artifact_rejected, empty}
use deki_smpc_server.Persistence.Tx.{ok, for_each, if_found, when, ◌>>=◌}
use deki_smpc_server.Persistence.Statements.{
  need, replay_as, answer, prior_of, round_of, insert_round, insert_participant, insert_audit,
  insert_idempotency,
}
use deki_smpc_server.Persistence.Transition.{transition, update_rounds, moved}
use deki_smpc_server.Persistence.Rounds.{create_round, register_round, fail_round}
use deki_smpc_server.Persistence.Failure.{IsOver, fail_round-IsOver}
use deki_smpc_server.Persistence.Requests.{Request, purges, handle, run}
use deki_smpc_server.Persistence.Lifecycle.History.{run_version_bound}
use deki_smpc_server.Persistence.Audit.{versions_of, up_to, version_of}
use deki_smpc_server.Persistence.Audit.History.{run-recorded}
use deki_smpc_server.Persistence.Tests.{service, opening, history, round_in}

-- The life of the round up to its purge.
abbrev whole_life : List Request
whole_life = history ++ purges 7 9000 ∷ []

run-recorded_example :
    let s = run service history empty in
    versions_of 7 s.audit_events ≡ up_to (version_of (round_of 7 s))
run-recorded_example = run-recorded service history 7

abbrev new_round : RoundRow
new_round = record (round_in registration_open) { state_version = 1 }

opened : round_of 7 (run service opening empty) ≡ some new_round
unfolding run handle create_round register_round insert_round insert_participant for_each need
    replay_as answer prior_of round_of select select_one any count_where update_where insert_audit
    insert_idempotency transition transition_allowed update_rounds moved if_found when ◌>>=◌
opened = refl

run_version_bound_example : (1 ≤ 1) × (1 ≤ rank registration_open) × (rank registration_open ≤ 7)
run_version_bound_example = run_version_bound service opening 7 new_round opened

fail_round-IsOver_example :
    (t : Db) × (fail_round 7 1 key_artifact_rejected [] 30 (run service opening empty) ≡ ok (tt, t))
    × IsOver (round_of 7 t)
fail_round-IsOver_example = fail_round-IsOver service opening 7 1 key_artifact_rejected [] 30

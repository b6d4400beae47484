-- ===== src/Persistence/Tests/Rounds.antt =====
-- Retries of the methods of a round, on small stores.
use deki_smpc_server.Prelude.{true, false, [], ◌∷◌, ◌≡◌, refl, arith}
use deki_smpc_server.Prelude.Rows.{select, select_one, any, count_where, update_where}
use deki_smpc_server.Domain.States.{
  registration_open, update_collection, aggregating, transition_allowed,
}
use deki_smpc_server.Domain.Models.{AggregationPolicy}
use deki_smpc_server.Persistence.Schema.{
  empty, v1_0, public_key_body, accepted, accepted_digest, accepted_artifact, round_response,
}
use deki_smpc_server.Persistence.Tx.{ok, err, idempotency_conflict, for_each, if_found, when, ◌>>=◌}
use deki_smpc_server.Persistence.Statements.{
  need, replay_as, answer, prior_of, round_of, participant_of, update_participant, insert_round,
  insert_participant, insert_artifact, insert_audit, insert_idempotency,
}
use deki_smpc_server.Persistence.Transition.{transition, update_rounds, moved}
use deki_smpc_server.Persistence.Rounds.{create_round, register_round, abort_round}
use deki_smpc_server.Persistence.Setup.{Slot, record_json_slot, filled}
use deki_smpc_server.Persistence.Updates.{record_update, first_update}
use deki_smpc_server.Persistence.Requests.{after}
use deki_smpc_server.Persistence.Retry.Rounds.{
  create_round-retry, abort_round-retry, record_json_slot-retry, record_update-retry,
  record_update-conflict,
}
use deki_smpc_server.Persistence.Tests.{schema, upload, store_in}

creates_ok :
    create_round 50 v1_0 schema 60 (1 ∷ 2 ∷ []) 61 1000 5000 1 200 300 7 10 (empty)
    ≡ ok (
      (
        round_response 7 50 registration_open 1 v1_0 60 61 2 AggregationPolicy.equal_weighted 16
            1010,
        false,
      ),
      after (create_round 50 v1_0 schema 60 (1 ∷ 2 ∷ []) 61 1000 5000 1 200 300 7 10) (empty),
    )
unfolding create_round register_round insert_round insert_participant for_each need replay_as answer
    prior_of round_of select select_one any count_where update_where insert_audit insert_idempotency
    transition transition_allowed update_rounds moved if_found when ◌>>=◌
creates_ok = refl

create_round-retry_example :
    create_round 50 v1_0 schema 60
      (1 ∷ 2 ∷ [])
      61
      1000
      5000
      1
      200
      300
      8
      11
      (after (create_round 50 v1_0 schema 60 (1 ∷ 2 ∷ []) 61 1000 5000 1 200 300 7 10) empty)
    ≡ ok (
      (
        round_response 7 50 registration_open 1 v1_0 60 61 2 AggregationPolicy.equal_weighted 16
            1010,
        true,
      ),
      after (create_round 50 v1_0 schema 60 (1 ∷ 2 ∷ []) 61 1000 5000 1 200 300 7 10) empty,
    )
create_round-retry_example =
    create_round-retry 50 v1_0 schema 60 (1 ∷ 2 ∷ []) 61 1000 5000 1 200 300 7 10 8 11 empty
      (after (create_round 50 v1_0 schema 60 (1 ∷ 2 ∷ []) 61 1000 5000 1 200 300 7 10) empty)
      (
        round_response 7 50 registration_open 1 v1_0 60 61 2 AggregationPolicy.equal_weighted 16
            1010,
        false,
      )
      creates_ok

aborts_ok :
    abort_round 7 1 (5 ∷ []) 210 310 70 71 (store_in aggregating)
    ≡ ok ((accepted, false), after (abort_round 7 1 (5 ∷ []) 210 310 70 71) (store_in aggregating))
unfolding abort_round need replay_as answer prior_of round_of select select_one any count_where
    update_where insert_audit insert_idempotency transition transition_allowed update_rounds moved
    if_found when ◌>>=◌
aborts_ok = refl

abort_round-retry_example :
    abort_round 7 1
      (5 ∷ [])
      210
      310
      80
      81
      (after (abort_round 7 1 (5 ∷ []) 210 310 70 71) (store_in aggregating))
    ≡ ok ((accepted, true), after (abort_round 7 1 (5 ∷ []) 210 310 70 71) (store_in aggregating))
abort_round-retry_example =
    abort_round-retry 7 1 (5 ∷ []) 210 310 70 71 80 81 (store_in aggregating)
      (after (abort_round 7 1 (5 ∷ []) 210 310 70 71) (store_in aggregating)) (accepted, false)
      aborts_ok

slot_ok :
    record_json_slot 7 1 Slot.public_key
      (public_key_body 11 12)
      201
      301
      20
      21
      (store_in registration_open)
    ≡ ok (
      (accepted_digest 301, false),
      after
          (record_json_slot 7 1 Slot.public_key (public_key_body 11 12) 201 301 20 21)
          (store_in registration_open),
    )
unfolding record_json_slot filled participant_of update_participant need replay_as answer prior_of
    round_of select select_one any count_where update_where insert_audit insert_idempotency
    transition transition_allowed update_rounds moved if_found when ◌>>=◌
slot_ok = refl

record_json_slot-retry_example :
    record_json_slot 7 1 Slot.public_key (public_key_body 11 12) 201 301 30 31 (
      after
        (record_json_slot 7 1 Slot.public_key (public_key_body 11 12) 201 301 20 21)
        (store_in registration_open))
    ≡ ok (
      (accepted_digest 301, true),
      after
          (record_json_slot 7 1 Slot.public_key (public_key_body 11 12) 201 301 20 21)
          (store_in registration_open),
    )
record_json_slot-retry_example =
    record_json_slot-retry 7 1 Slot.public_key (public_key_body 11 12) 201 301 20 21 30 31
      (store_in registration_open)
      (after (record_json_slot 7 1 Slot.public_key (public_key_body 11 12) 201 301 20 21)
        (store_in registration_open))
      (accepted_digest 301, false) slot_ok

update_ok :
    record_update 7 1 (upload 400) 500 205 305 95 40 41 (store_in update_collection)
    ≡ ok (
      (accepted_artifact 400 400 128, false),
      after (record_update 7 1 (upload 400) 500 205 305 95 40 41) (store_in update_collection),
    )
unfolding record_update first_update filled participant_of update_participant insert_artifact need
    replay_as answer prior_of round_of select select_one any count_where update_where insert_audit
    insert_idempotency transition transition_allowed update_rounds moved if_found when ◌>>=◌
update_ok = refl

record_update-retry_example :
    record_update 7 1
      (upload 401)
      500
      205
      305
      96
      50
      51
      (after (record_update 7 1 (upload 400) 500 205 305 95 40 41) (store_in update_collection))
    ≡ ok (
      (accepted_artifact 400 400 128, true),
      after (record_update 7 1 (upload 400) 500 205 305 95 40 41) (store_in update_collection),
    )
record_update-retry_example =
    record_update-retry 7 1 (upload 400) 500 205 305 95 40 41 (upload 401) 500 96 50 51
      (store_in update_collection)
      (after (record_update 7 1 (upload 400) 500 205 305 95 40 41) (store_in update_collection))
      (accepted_artifact 400 400 128, false) update_ok

record_update-conflict_example :
    record_update 7 1
      (upload 401)
      500
      205
      306
      96
      50
      51
      (after (record_update 7 1 (upload 400) 500 205 305 95 40 41) (store_in update_collection))
    ≡ err idempotency_conflict
record_update-conflict_example =
    record_update-conflict 7 1 (upload 400) 500 205 305 95 40 41 (upload 401) 500 306 96 50 51
      (store_in update_collection)
      (after (record_update 7 1 (upload 400) 500 205 305 95 40 41) (store_in update_collection))
      (accepted_artifact 400 400 128, false) (ground arith) update_ok

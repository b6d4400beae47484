-- ===== src/Persistence/Retry/Keys.antt =====
-- Retries of the methods of key setup and key aggregation: `key_complete`, the artifacts and
-- acknowledgements of the tree tasks, and the final key.
use deki_smpc_server.Prelude.{ℕ, Text, Bool, true, false, ◌≡◌, refl}
use deki_smpc_server.Domain.Topology.{TaskId}
use deki_smpc_server.Persistence.Schema.{
  Db, StoredObject, Response, Operation, key_complete, key_task_artifact, key_task_ack, Hashing,
}
use deki_smpc_server.Persistence.Tx.{ok}
use deki_smpc_server.Persistence.KeyContext.{key_complete_tx, complete_key_setup}
use deki_smpc_server.Persistence.KeyTasks.{record_task_artifact, acknowledge_task}
use deki_smpc_server.Persistence.FinalKeys.{record_final_key, acknowledge_final_key}
use deki_smpc_server.Persistence.Retry.{Records, replay_as_known}
use deki_smpc_server.Persistence.Retry.Keeping.{KeepsRecords-IsPreorder}
use deki_smpc_server.Persistence.Retry.Rules.{recording_rules}
use deki_smpc_server.Persistence.Retry.Rounds.{under}

module _ (h : Hashing) (round_id client_id commitment idem_key digest : Text) (now later : ℕ) where
  key_complete_tx-Records :
      Records
        (λ a. a.0)
        (under client_id round_id key_complete idem_key)
        digest
        (key_complete_tx h round_id client_id commitment idem_key digest now later)
  unfolding key_complete_tx
  key_complete_tx-Records = search recording_rules depth 40

  again :
      (now' later' : ℕ) (s t : Db) (response : Response) (b : Bool)
      → key_complete_tx h round_id client_id commitment idem_key digest now later s
        ≡ ok ((response, b), t)
      → key_complete_tx h round_id client_id commitment idem_key digest now' later' t
        ≡ ok ((response, false), t)
  unfolding key_complete_tx
  again now' later' s t response b e =
      replay_as_known {A = Response × Bool} (λ r. (r, false))
        (under client_id round_id key_complete idem_key) digest _
        (key_complete_tx-Records.at s (response, b) t e)

  -- A commitment whose transaction committed is answered as accepted again, without an effect, at
  -- any time: also where the transaction found that the commitments of the clients differ (`b` is
  -- true), so that its caller was told of the mismatch and the round had failed.
  pub complete_key_setup-retry :
      (now' later' : ℕ) (s t : Db) (response : Response) (b : Bool)
      → key_complete_tx h round_id client_id commitment idem_key digest now later s
        ≡ ok ((response, b), t)
      → complete_key_setup h round_id client_id commitment idem_key digest now' later' t
        ≡ (ok response, t)
  unfolding complete_key_setup
  complete_key_setup-retry now' later' s t response b e =
      rw (complete_key_setup, again now' later' s t response b e) refl

module _ (round_id client_id : Text) (task_id : TaskId) (stored : StoredObject)
    (ciphertext_digest nonce signature idem_key digest : Text) (now : ℕ) where
  record_task_artifact-Records :
      Records
        (λ a. a.0)
        (under client_id round_id (key_task_artifact task_id) idem_key)
        digest
        (record_task_artifact round_id client_id task_id stored ciphertext_digest nonce signature
          idem_key digest now)
  unfolding record_task_artifact
  record_task_artifact-Records = search recording_rules depth 40

  -- A task's artifact that was taken is answered the same again, without an effect, at any time,
  -- though the task is not ready any more and the retry's upload is another object.
  pub record_task_artifact-retry :
      (stored' : StoredObject) (now' : ℕ) (s t : Db) (a : Response × Bool)
      → record_task_artifact round_id client_id task_id stored ciphertext_digest nonce signature
          idem_key digest now s
        ≡ ok (a, t)
      → record_task_artifact round_id client_id task_id stored' ciphertext_digest nonce signature
          idem_key digest now' t
        ≡ ok ((a.0, true), t)
  unfolding record_task_artifact
  record_task_artifact-retry stored' now' s t a e =
      replay_as_known (λ r. (r, true))
        (under client_id round_id (key_task_artifact task_id) idem_key) digest _
        (record_task_artifact-Records.at s a t e)

module _ (round_id client_id : Text) (task_id : TaskId) (artifact_digest idem_key digest : Text)
    (now : ℕ) where
  acknowledge_task-Records :
      Records
        (λ a. a)
        (under client_id round_id (key_task_ack task_id) idem_key)
        digest
        (acknowledge_task round_id client_id task_id artifact_digest idem_key digest now)
  unfolding acknowledge_task
  acknowledge_task-Records = search recording_rules depth 40

  -- A task that was acknowledged is answered the same again, without an effect, at any time, though
  -- it is completed by now.
  pub acknowledge_task-retry :
      (now' : ℕ) (s t : Db) (a : Response)
      → acknowledge_task round_id client_id task_id artifact_digest idem_key digest now s
        ≡ ok (a, t)
      → acknowledge_task round_id client_id task_id artifact_digest idem_key digest now' t
        ≡ ok (a, t)
  unfolding acknowledge_task
  acknowledge_task-retry now' s t a e =
      replay_as_known (λ r. r) (under client_id round_id (key_task_ack task_id) idem_key) digest _
        (acknowledge_task-Records.at s a t e)

module _ (round_id client_id : Text) (stored : StoredObject)
    (ciphertext_digest nonce signature idem_key digest : Text) (now : ℕ) where
  record_final_key-Records :
      Records
        (λ a. a.0)
        (under client_id round_id Operation.final_key idem_key)
        digest
        (record_final_key round_id client_id stored ciphertext_digest nonce signature idem_key
          digest now)
  unfolding record_final_key
  record_final_key-Records = search recording_rules depth 40

  -- A final key that was published is answered the same again, without an effect, at any time,
  -- though the retry's upload is another object.
  pub record_final_key-retry :
      (stored' : StoredObject) (now' : ℕ) (s t : Db) (a : Response × Bool)
      → record_final_key round_id client_id stored ciphertext_digest nonce signature idem_key digest
          now s
        ≡ ok (a, t)
      → record_final_key round_id client_id stored' ciphertext_digest nonce signature idem_key
          digest now' t
        ≡ ok ((a.0, true), t)
  unfolding record_final_key
  record_final_key-retry stored' now' s t a e =
      replay_as_known (λ r. (r, true)) (under client_id round_id Operation.final_key idem_key)
        digest _ (record_final_key-Records.at s a t e)

module _ (round_id client_id artifact_digest idem_key digest : Text) (now later : ℕ) where
  acknowledge_final_key-Records :
      Records
        (λ a. a)
        (under client_id round_id Operation.final_key_ack idem_key)
        digest
        (acknowledge_final_key round_id client_id artifact_digest idem_key digest now later)
  unfolding acknowledge_final_key
  acknowledge_final_key-Records = search recording_rules depth 40

  -- A final key that a client acknowledged is answered the same again under the same key, without
  -- an effect, at any time, though the round may collect updates by now.
  pub acknowledge_final_key-retry :
      (now' later' : ℕ) (s t : Db) (a : Response)
      → acknowledge_final_key round_id client_id artifact_digest idem_key digest now later s
        ≡ ok (a, t)
      → acknowledge_final_key round_id client_id artifact_digest idem_key digest now' later' t
        ≡ ok (a, t)
  unfolding acknowledge_final_key
  acknowledge_final_key-retry now' later' s t a e =
      replay_as_known (λ r. r) (under client_id round_id Operation.final_key_ack idem_key) digest _
        (acknowledge_final_key-Records.at s a t e)

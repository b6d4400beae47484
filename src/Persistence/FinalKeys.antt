-- ===== src/Persistence/FinalKeys.antt =====
-- The final key in database.py: `record_final_key`, `final_key` and `acknowledge_final_key`.
use deki_smpc_server.Prelude.{ℕ, Text, Bool, false, not, ◌||◌, Option, none, some, ◌==◌}
use deki_smpc_server.Prelude.Rows.{select_one, count_where}
use deki_smpc_server.Domain.States.{key_aggregation, update_collection, state_eq}
use deki_smpc_server.Persistence.Schema.{
  Db, ArtifactRow, ArtifactType, StoredObject, caller, Response, accepted, accepted_artifact,
  final_key_published, final_key_acknowledged, final_key_barrier, Operation,
}
use deki_smpc_server.Persistence.Tx.{Tx, round_conflict, pure, gets, raise_if, when, ◌>>=◌, ◌>>◌}
use deki_smpc_server.Persistence.Statements.{
  round_of, plan_row, final_row, insert_artifact, insert_final_key, insert_final_receipt, note,
  remember, replay_or, replay_alone, need,
}
use deki_smpc_server.Persistence.Transition.{transition}
use deki_smpc_server.Persistence.KeyTasks.{incomplete_tasks, artifact_row}

-- `nonce`, `signature` and `ciphertext_digest` are columns, the object a stored file.
unfoldable pub record_final_key :
    (round_id client_id : Text)
    → StoredObject
    → (ciphertext_digest nonce signature idem_key request_digest : Text) → (now : ℕ)
    → Tx (Response × Bool)
record_final_key round_id client_id stored ciphertext_digest nonce signature idem_key request_digest
      now =
    let response = accepted_artifact stored.object_id ciphertext_digest stored.size in
    replay_or client_id round_id Operation.final_key idem_key request_digest do
      plan ← need (plan_row round_id) round_conflict
      round_row ← need (round_of round_id) round_conflict
      incomplete ← gets (incomplete_tasks round_id)
      raise_if
          (not (state_eq round_row.state key_aggregation)
            || not (plan.plan.root_client_id == client_id)
            || not (incomplete == 0))
          round_conflict
      insert_artifact (artifact_row stored round_id (some client_id) ArtifactType.final_key now)
      insert_final_key (record {
        round_id = round_id;
        artifact_id = stored.object_id;
        ciphertext_digest = ciphertext_digest;
        nonce = nonce;
        signature = signature;
        sender = client_id;
        created_at = now;
      })
      remember client_id round_id Operation.final_key idem_key request_digest response now
      note round_id (caller client_id) final_key_published now none
      pure (response, false)

pub record FinalMetadata : Type 0 where
  pub nonce : Text
  pub ciphertext_digest : Text
  pub ciphertext_size : ℕ
  pub signature : Text
  pub sender : Text
  pub plan_hash : Text

unfoldable pub final_key : (round_id : Text) → Tx (Option (ArtifactRow × FinalMetadata))
final_key round_id = do
  final ← gets (final_row round_id)
  plan ← gets (plan_row round_id)
  artifacts ← gets (λ s. s.artifacts)
  pure (elim final [
    | none ↦ none
    | some f ↦ elim (select_one (λ a. a.artifact_id == f.artifact_id) artifacts) [
      | none ↦ none
      | some artifact ↦ elim plan [
        | none ↦ none
        | some p ↦ some (
          artifact,
          record {
            nonce = f.nonce;
            ciphertext_digest = f.ciphertext_digest;
            ciphertext_size = artifact.size;
            signature = f.signature;
            sender = f.sender;
            plan_hash = p.plan_hash;
          },
        )
      ]
    ]
  ])

-- `SELECT count(*) FROM final_key_receipts WHERE round_id=?`.
unfoldable pub receipts : Text → Db → ℕ
receipts round s = count_where (λ r. r.round_id == round) s.final_key_receipts

unfoldable pub acknowledge_final_key :
    (round_id client_id artifact_digest idem_key digest : Text) → (now later : ℕ) → Tx Response
acknowledge_final_key round_id client_id artifact_digest idem_key digest now later =
    replay_alone client_id round_id Operation.final_key_ack idem_key digest do
      round_row ← need (round_of round_id) round_conflict
      final ← need (final_row round_id) round_conflict
      raise_if
          (not (state_eq round_row.state key_aggregation)
            || not (final.ciphertext_digest == artifact_digest))
          round_conflict
      insert_final_receipt (record {
        round_id = round_id;
        client_id = client_id;
        artifact_digest = artifact_digest;
        created_at = now;
      })
      remember client_id round_id Operation.final_key_ack idem_key digest accepted now
      note round_id (caller client_id) final_key_acknowledged now none
      count ← gets (receipts round_id)
      when (count == round_row.expected_count) (
          transition round_id key_aggregation update_collection (caller client_id) final_key_barrier
            none later)
      pure accepted

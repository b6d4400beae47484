-- ===== src/Persistence/Retry/Rounds.antt =====
-- Retries of the methods of a round and its participants: `create_round`, `abort`,
-- `record_json_slot` and `record_update`. A retry may meet other times and bring new identifiers.
use deki_smpc_server.Prelude.{ℕ, Text, Message, Bool, true, List, ◌≡◌, ◌≢◌}
use deki_smpc_server.Domain.Models.{ModelSchema}
use deki_smpc_server.Persistence.Schema.{
  Db, Protocol, StoredObject, Body, Response, Operation, create, abort,
}
use deki_smpc_server.Persistence.Tx.{ok, err, idempotency_conflict}
use deki_smpc_server.Persistence.Rounds.{create_round, abort_round}
use deki_smpc_server.Persistence.Setup.{Slot, slot_operation, record_json_slot}
use deki_smpc_server.Persistence.Updates.{repeat_update, first_update, record_update}
use deki_smpc_server.Persistence.Retry.{RetryKey, Records, replay_as_known, replay_as_conflict}
use deki_smpc_server.Persistence.Retry.Keeping.{KeepsRecords-IsPreorder}
use deki_smpc_server.Persistence.Retry.Rules.{recording_rules}

abbrev pub under : Text → Text → Operation → Text → RetryKey
under client round op key = record {
  client = client;
  round = round;
  operation = op;
  idem_key = key;
}

module _ (federation_id : Text) (protocol_version : Protocol) (schema : ModelSchema)
    (schema_hash : Text) (participants : List Text) (manifest_hash : Text) (ttl retention : ℕ)
    (actor idem_key digest round_id : Text) (now : ℕ) where
  create_round-Records :
      Records
        (λ a. a.0)
        (under actor federation_id create idem_key)
        digest
        (create_round federation_id protocol_version schema schema_hash participants manifest_hash
          ttl retention actor idem_key digest round_id now)
  unfolding create_round
  create_round-Records = search recording_rules depth 40

  -- A creation that committed is answered the same again, without a second round, at any time and
  -- whatever identifier is drawn for the retry.
  pub create_round-retry :
      (round_id' : Text) (now' : ℕ) (s t : Db) (a : Response × Bool)
      → create_round federation_id protocol_version schema schema_hash participants manifest_hash
          ttl retention actor idem_key digest round_id now s
        ≡ ok (a, t)
      → create_round federation_id protocol_version schema schema_hash participants manifest_hash
          ttl retention actor idem_key digest round_id' now' t
        ≡ ok ((a.0, true), t)
  unfolding create_round
  create_round-retry round_id' now' s t a e =
      replay_as_known (λ r. (r, true)) (under actor federation_id create idem_key) digest _
        (create_round-Records.at s a t e)

module _ (round_id actor : Text) (reason : Message) (idem_key digest : Text) (now later : ℕ) where
  abort_round-Records :
      Records
        (λ a. a.0)
        (under actor round_id abort idem_key)
        digest
        (abort_round round_id actor reason idem_key digest now later)
  unfolding abort_round
  abort_round-Records = search recording_rules depth 40

  -- An abort that committed is answered the same again to the same request, without an effect, at
  -- any time, though the round is terminal by now.
  pub abort_round-retry :
      (now' later' : ℕ) (s t : Db) (a : Response × Bool)
      → abort_round round_id actor reason idem_key digest now later s ≡ ok (a, t)
      → abort_round round_id actor reason idem_key digest now' later' t ≡ ok ((a.0, true), t)
  unfolding abort_round
  abort_round-retry now' later' s t a e =
      replay_as_known (λ r. (r, true)) (under actor round_id abort idem_key) digest _
        (abort_round-Records.at s a t e)

module _ (round_id client_id : Text) (slot : Slot) (body : Body) (idem_key digest : Text)
    (now later : ℕ) where
  record_json_slot-Records :
      Records
        (λ a. a.0)
        (under client_id round_id (slot_operation slot) idem_key)
        digest
        (record_json_slot round_id client_id slot body idem_key digest now later)
  unfolding record_json_slot
  record_json_slot-Records = search recording_rules depth 40

  -- A public key or a key bundle that was taken is answered the same again, without an effect, at
  -- any time.
  pub record_json_slot-retry :
      (now' later' : ℕ) (s t : Db) (a : Response × Bool)
      → record_json_slot round_id client_id slot body idem_key digest now later s ≡ ok (a, t)
      → record_json_slot round_id client_id slot body idem_key digest now' later' t
        ≡ ok ((a.0, true), t)
  unfolding record_json_slot
  record_json_slot-retry now' later' s t a e =
      replay_as_known (λ r. (r, true)) (under client_id round_id (slot_operation slot) idem_key)
        digest _ (record_json_slot-Records.at s a t e)

module _ (round_id client_id : Text) (stored : StoredObject) (tag idem_key digest job_id : Text)
    (now later : ℕ) where
  record_update-Records :
      Records
        (λ a. a.0)
        (under client_id round_id Operation.update idem_key)
        digest
        (record_update round_id client_id stored tag idem_key digest job_id now later)
  unfolding record_update repeat_update first_update
  record_update-Records = search recording_rules depth 40

  -- An update that was taken is answered the same again, without an effect, at any time, though
  -- the retry's upload is another object and draws another job.
  pub record_update-retry :
      (stored' : StoredObject) (tag' job_id' : Text) (now' later' : ℕ) (s t : Db)
      (a : Response × Bool)
      → record_update round_id client_id stored tag idem_key digest job_id now later s ≡ ok (a, t)
      → record_update round_id client_id stored' tag' idem_key digest job_id' now' later' t
        ≡ ok ((a.0, true), t)
  unfolding record_update
  record_update-retry stored' tag' job_id' now' later' s t a e =
      replay_as_known (λ r. (r, true)) (under client_id round_id Operation.update idem_key) digest _
        (record_update-Records.at s a t e)

  -- After an update was taken, a request under the same key whose digest is another is refused as
  -- an idempotency conflict, whatever it uploads.
  pub record_update-conflict :
      (stored' : StoredObject) (tag' digest' job_id' : Text) (now' later' : ℕ) (s t : Db)
      (a : Response × Bool)
      → digest' ≢ digest
      → record_update round_id client_id stored tag idem_key digest job_id now later s ≡ ok (a, t)
      → record_update round_id client_id stored' tag' idem_key digest' job_id' now' later' t
        ≡ err idempotency_conflict
  unfolding record_update
  record_update-conflict stored' tag' digest' job_id' now' later' s t a ne e =
      replay_as_conflict (λ r. (r, true)) (under client_id round_id Operation.update idem_key)
        digest digest' _ ne (record_update-Records.at s a t e)

-- ===== src/Persistence/Requests.antt =====
-- The store as its callers use it: every method that may change it, as a request, one transaction
-- each, in any order. The API process and the workers interleave between transactions only, since
-- each begins with `BEGIN IMMEDIATE`.
pub mod Respects
use deki_smpc_server.Prelude.{ℕ, Text, Message, Bool, List, [], ◌∷◌}
use deki_smpc_server.Domain.Models.{ModelSchema}
use deki_smpc_server.Domain.Topology.{TaskId}
use deki_smpc_server.Persistence.Schema.{Db, Protocol, StoredObject, Body, Event, Hashing}
use deki_smpc_server.Persistence.Tx.{Tx, ok, err}
use deki_smpc_server.Persistence.Rounds.{create_round, get_round, fail_round, abort_round}
use deki_smpc_server.Persistence.Setup.{Slot, record_json_slot}
use deki_smpc_server.Persistence.KeyContext.{complete_key_setup}
use deki_smpc_server.Persistence.KeyTasks.{record_task_artifact, acknowledge_task}
use deki_smpc_server.Persistence.FinalKeys.{record_final_key, acknowledge_final_key}
use deki_smpc_server.Persistence.Updates.{record_update, complete_participant}
use deki_smpc_server.Persistence.Jobs.{LeaseTexts, claim_job, renew_job, complete_job, fail_job}
use deki_smpc_server.Persistence.Retention.{expire_rounds, purge_round}

pub data Request : Type 0 where
  creates :
      (federation_id : Text)
      → Protocol
      → ModelSchema
      → (schema_hash : Text) → (participants : List Text) → (manifest_hash : Text)
      → (ttl retention : ℕ) → (actor idem_key digest round_id : Text) → (now : ℕ) → Request
  reads : (round_id : Text) → (expire : Bool) → (now later last : ℕ) → Request
  fails : (round_id client_id : Text) → Event → Message → (now : ℕ) → Request
  aborts : (round_id actor : Text) → Message → (idem_key digest : Text) → (now later : ℕ) → Request
  records_slot :
      (round_id client_id : Text)
      → Slot
      → Body
      → (idem_key digest : Text) → (now later : ℕ) → Request
  completes_key_setup :
      (round_id client_id commitment idem_key digest : Text) → (now later : ℕ) → Request
  records_task :
      (round_id client_id : Text)
      → TaskId
      → StoredObject
      → (ciphertext_digest nonce signature idem_key digest : Text) → (now : ℕ) → Request
  acknowledges_task :
      (round_id client_id : Text)
      → TaskId
      → (artifact_digest idem_key digest : Text) → (now : ℕ) → Request
  records_final_key :
      (round_id client_id : Text)
      → StoredObject
      → (ciphertext_digest nonce signature idem_key digest : Text) → (now : ℕ) → Request
  acknowledges_final_key :
      (round_id client_id artifact_digest idem_key digest : Text) → (now later : ℕ) → Request
  records_update :
      (round_id client_id : Text)
      → StoredObject
      → (tag idem_key digest job_id : Text) → (now later : ℕ) → Request
  completes : (round_id client_id idem_key digest : Text) → (now later : ℕ) → Request
  claims : (lease_seconds : ℕ) → (token : Text) → (now : ℕ) → (moved_at : Text → ℕ) → Request
  renews : (job_id token : Text) → (lease_seconds now : ℕ) → Request
  completes_job :
      (job_id round_id token : Text) → StoredObject → (tag : Text) → (now later : ℕ) → Request
  fails_job : (job_id round_id token : Text) → Message → (retryable : Bool) → (now : ℕ) → Request
  expires : (timestamp : ℕ) → (moved_at : Text → ℕ) → Request
  purges : (round_id : Text) → (now : ℕ) → Request

-- The database after a transaction: what it committed, or what was there if it raised.
abbrev pub after : {A : Type 0} → Tx A → Db → Db
after m s = elim (m s) [ ok (a, t) ↦ t | err e ↦ s ]

-- What is fixed for a process: the hashing, and the texts that it records.
pub record Service : Type 0 where
  pub hashing : Hashing
  pub leases : LeaseTexts
  pub deadline_text : Message

unfoldable pub handle : Service → Request → Db → Db
handle v (creates f p m h ps mh ttl ret a k d r now) =
    after (create_round f p m h ps mh ttl ret a k d r now)
handle v (reads r x now later last) = after (get_round r x now later last)
handle v (fails r c e m now) = after (fail_round r c e m now)
handle v (aborts r a m k d now later) = after (abort_round r a m k d now later)
handle v (records_slot r c s b k d now later) = after (record_json_slot r c s b k d now later)
handle v (completes_key_setup r c x k d now later) =
    λ s. (complete_key_setup v.hashing r c x k d now later s).1
handle v (records_task r c t o x n g k d now) = after (record_task_artifact r c t o x n g k d now)
handle v (acknowledges_task r c t x k d now) = after (acknowledge_task r c t x k d now)
handle v (records_final_key r c o x n g k d now) = after (record_final_key r c o x n g k d now)
handle v (acknowledges_final_key r c x k d now later) =
    after (acknowledge_final_key r c x k d now later)
handle v (records_update r c o t k d j now later) = after (record_update r c o t k d j now later)
handle v (completes r c k d now later) = after (complete_participant r c k d now later)
handle v (claims l t now m) = after (claim_job v.leases l t now m)
handle v (renews j t l now) = after (renew_job j t l now)
handle v (completes_job j r t o g now later) = after (complete_job j r t o g now later)
handle v (fails_job j r t m b now) = after (fail_job j r t m b now)
handle v (expires ts m) = after (expire_rounds v.deadline_text ts m)
handle v (purges r now) = after (purge_round r now)

unfoldable pub run : Service → List Request → Db → Db
unfolding handle
run v [] s = s
run v (r ∷ rs) s = run v rs (handle v r s)

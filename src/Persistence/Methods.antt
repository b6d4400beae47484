-- ===== src/Persistence/Methods.antt =====
-- Each method of the store respects a relation that the statements respect: one proof for each
-- method, by `search`, for every such relation.
use deki_smpc_server.Prelude.{ℕ, Text, Message, Bool, Option, List, ◌≡◌}
use deki_smpc_server.Domain.States.{RoundState, registration_open}
use deki_smpc_server.Domain.Models.{ModelSchema}
use deki_smpc_server.Domain.Topology.{TaskId}
use deki_smpc_server.Persistence.Schema.{
  Db, Actor, Detail, Protocol, StoredObject, Body, Event, Hashing, RoundRow, ParticipantRow, JobRow,
}
use deki_smpc_server.Persistence.Ensures.{IsPreorder, Ensures, ensures_rules}
use deki_smpc_server.Persistence.Quiet.{AllowsQuiet, quiet_rules}
use deki_smpc_server.Persistence.Statements.{note}
use deki_smpc_server.Persistence.Transition.{transition}
use deki_smpc_server.Persistence.Rounds.{
  register_round, create_round, get_round, fail_round, abort_round,
}
use deki_smpc_server.Persistence.Setup.{Slot, record_json_slot}
use deki_smpc_server.Persistence.KeyContext.{
  create_tree_plan, commit_context, commit_when_all, key_complete_tx,
}
use deki_smpc_server.Persistence.KeyTasks.{activate, record_task_artifact, acknowledge_task}
use deki_smpc_server.Persistence.FinalKeys.{record_final_key, acknowledge_final_key}
use deki_smpc_server.Persistence.Updates.{
  repeat_update, first_update, record_update, complete_participant,
}
use deki_smpc_server.Persistence.Jobs.{
  LeaseTexts, reclaim, claim_job, renew_job, publish_result, complete_job, fail_job,
}
use deki_smpc_server.Persistence.Retention.{expire_row, expire_rounds}

-- What a relation has to allow: the statements that touch the rounds or the audit log.
pub record IsRespected (R : Db → Db → Type 0) : Type 0 where
  pub noted :
      (round : Text) (actor : Actor) (event : Event) (now : ℕ) (detail : Option Detail)
      → Ensures R (note round actor event now detail)
  pub moves :
      (id : Text) (source target : RoundState) (actor : Actor) (event : Event)
      (detail : Option Message) (now : ℕ)
      → Ensures R (transition id source target actor event detail now)
  pub opens :
      (row : RoundRow) (participants : List Text) (actor : Text) (now : ℕ)
      → row.state ≡ registration_open
      → row.state_version ≡ 1
      → Ensures R (register_round row participants actor now)

ruleset rules = (ensures_rules, quiet_rules)

module _ {R : Db → Db → Type 0} ⦃p : IsPreorder R⦄ ⦃q : AllowsQuiet R⦄ (k : IsRespected R) where
  pub create_round-Ensures :
      (federation_id : Text) (protocol_version : Protocol) (schema : ModelSchema)
      (schema_hash : Text) (participants : List Text) (manifest_hash : Text) (ttl retention : ℕ)
      (actor idem_key digest round_id : Text) (now : ℕ)
      → Ensures R (
          create_round federation_id protocol_version schema schema_hash participants manifest_hash
            ttl retention actor idem_key digest round_id now)
  unfolding create_round
  create_round-Ensures federation_id protocol_version schema schema_hash participants manifest_hash
        ttl retention actor idem_key digest round_id now =
      search (rules, k.opens) depth 40

  pub get_round-Ensures :
      (round_id : Text) (expire : Bool) (now later last : ℕ)
      → Ensures R (get_round round_id expire now later last)
  unfolding get_round
  get_round-Ensures round_id expire now later last = search (rules, k.moves) depth 40

  pub fail_round-Ensures :
      (round_id client_id : Text) (code : Event) (detail : Message) (now : ℕ)
      → Ensures R (fail_round round_id client_id code detail now)
  unfolding fail_round
  fail_round-Ensures round_id client_id code detail now = search (rules, k.moves) depth 40

  pub abort_round-Ensures :
      (round_id actor : Text) (reason : Message) (idem_key digest : Text) (now later : ℕ)
      → Ensures R (abort_round round_id actor reason idem_key digest now later)
  unfolding abort_round
  abort_round-Ensures round_id actor reason idem_key digest now later =
      search (rules, k.moves) depth 40

  pub record_json_slot-Ensures :
      (round_id client_id : Text) (slot : Slot) (body : Body) (idem_key digest : Text)
      (now later : ℕ)
      → Ensures R (record_json_slot round_id client_id slot body idem_key digest now later)
  unfolding record_json_slot
  record_json_slot-Ensures round_id client_id slot body idem_key digest now later =
      search (rules, k.noted, k.moves) depth 40

  create_tree_plan-Ensures :
      (h : Hashing) (r : RoundRow) (now : ℕ) → Ensures R (create_tree_plan h r now)
  unfolding create_tree_plan
  create_tree_plan-Ensures h r now = search (rules, k.noted) depth 40

  commit_context-Ensures :
      (h : Hashing) (round_id : Text) (r : RoundRow) (client_id : Text) (rows : List ParticipantRow)
      (now later : ℕ)
      → Ensures R (commit_context h round_id r client_id rows now later)
  unfolding commit_context
  commit_context-Ensures h round_id r client_id rows now later =
      search (rules, k.moves, create_tree_plan-Ensures) depth 40

  commit_when_all-Ensures :
      (h : Hashing) (round_id : Text) (r : RoundRow) (client_id : Text) (rows : List ParticipantRow)
      (now later : ℕ)
      → Ensures R (commit_when_all h round_id r client_id rows now later)
  unfolding commit_when_all
  commit_when_all-Ensures h round_id r client_id rows now later =
      search (rules, commit_context-Ensures) depth 40

  pub key_complete_tx-Ensures :
      (h : Hashing) (round_id client_id commitment idem_key digest : Text) (now later : ℕ)
      → Ensures R (key_complete_tx h round_id client_id commitment idem_key digest now later)
  unfolding key_complete_tx
  key_complete_tx-Ensures h round_id client_id commitment idem_key digest now later =
      search (rules, k.noted, commit_when_all-Ensures) depth 40

  pub record_task_artifact-Ensures :
      (round_id client_id : Text) (task_id : TaskId) (stored : StoredObject)
      (ciphertext_digest nonce signature idem_key digest : Text) (now : ℕ)
      → Ensures R (
          record_task_artifact round_id client_id task_id stored ciphertext_digest nonce signature
            idem_key digest now)
  unfolding record_task_artifact
  record_task_artifact-Ensures round_id client_id task_id stored ciphertext_digest nonce signature
        idem_key digest now =
      search (rules, k.noted) depth 40

  activate-Ensures : (round_id : Text) → Ensures R (activate round_id)
  unfolding activate
  activate-Ensures round_id = search rules depth 40

  pub acknowledge_task-Ensures :
      (round_id client_id : Text) (task_id : TaskId) (artifact_digest idem_key digest : Text)
      (now : ℕ)
      → Ensures R (acknowledge_task round_id client_id task_id artifact_digest idem_key digest now)
  unfolding acknowledge_task
  acknowledge_task-Ensures round_id client_id task_id artifact_digest idem_key digest now =
      search (rules, k.noted, activate-Ensures) depth 40

  pub record_final_key-Ensures :
      (round_id client_id : Text) (stored : StoredObject)
      (ciphertext_digest nonce signature idem_key digest : Text) (now : ℕ)
      → Ensures R (
          record_final_key round_id client_id stored ciphertext_digest nonce signature idem_key
            digest now)
  unfolding record_final_key
  record_final_key-Ensures round_id client_id stored ciphertext_digest nonce signature idem_key
        digest now =
      search (rules, k.noted) depth 40

  pub acknowledge_final_key-Ensures :
      (round_id client_id artifact_digest idem_key digest : Text) (now later : ℕ)
      → Ensures R
          (acknowledge_final_key round_id client_id artifact_digest idem_key digest now later)
  unfolding acknowledge_final_key
  acknowledge_final_key-Ensures round_id client_id artifact_digest idem_key digest now later =
      search (rules, k.noted, k.moves) depth 40

  repeat_update-Ensures :
      (round_id client_id : Text) (p : ParticipantRow) (stored : StoredObject)
      (tag idem_key digest : Text) (now : ℕ)
      → Ensures R (repeat_update round_id client_id p stored tag idem_key digest now)
  unfolding repeat_update
  repeat_update-Ensures round_id client_id p stored tag idem_key digest now = search rules depth 40

  first_update-Ensures :
      (r : RoundRow) (round_id client_id : Text) (stored : StoredObject)
      (tag idem_key digest job_id : Text) (now later : ℕ)
      → Ensures R (first_update r round_id client_id stored tag idem_key digest job_id now later)
  unfolding first_update
  first_update-Ensures r round_id client_id stored tag idem_key digest job_id now later =
      search (rules, k.noted, k.moves) depth 40

  pub record_update-Ensures :
      (round_id client_id : Text) (stored : StoredObject) (tag idem_key digest job_id : Text)
      (now later : ℕ)
      → Ensures R (record_update round_id client_id stored tag idem_key digest job_id now later)
  unfolding record_update
  record_update-Ensures round_id client_id stored tag idem_key digest job_id now later =
      search (rules, repeat_update-Ensures, first_update-Ensures) depth 40

  pub complete_participant-Ensures :
      (round_id client_id idem_key digest : Text) (now later : ℕ)
      → Ensures R (complete_participant round_id client_id idem_key digest now later)
  unfolding complete_participant
  complete_participant-Ensures round_id client_id idem_key digest now later =
      search (rules, k.noted, k.moves) depth 40

  reclaim-Ensures :
      (texts : LeaseTexts) (now later : ℕ) (j : JobRow) → Ensures R (reclaim texts now later j)
  unfolding reclaim
  reclaim-Ensures texts now later j = search (rules, k.noted, k.moves) depth 40

  pub claim_job-Ensures :
      (texts : LeaseTexts) (lease : ℕ) (token : Text) (now : ℕ) (moved_at : Text → ℕ)
      → Ensures R (claim_job texts lease token now moved_at)
  unfolding claim_job
  claim_job-Ensures texts lease token now moved_at = search (rules, reclaim-Ensures) depth 40

  pub renew_job-Ensures :
      (job_id token : Text) (lease now : ℕ) → Ensures R (renew_job job_id token lease now)
  unfolding renew_job
  renew_job-Ensures job_id token lease now = search rules depth 40

  publish_result-Ensures :
      (round_id : Text) (stored : StoredObject) (now : ℕ)
      → Ensures R (publish_result round_id stored now)
  unfolding publish_result
  publish_result-Ensures round_id stored now = search rules depth 40

  pub complete_job-Ensures :
      (job_id round_id token : Text) (stored : StoredObject) (tag : Text) (now later : ℕ)
      → Ensures R (complete_job job_id round_id token stored tag now later)
  unfolding complete_job
  complete_job-Ensures job_id round_id token stored tag now later =
      search (rules, k.moves, publish_result-Ensures) depth 40

  pub fail_job-Ensures :
      (job_id round_id token : Text) (detail : Message) (retryable : Bool) (now : ℕ)
      → Ensures R (fail_job job_id round_id token detail retryable now)
  unfolding fail_job
  fail_job-Ensures job_id round_id token detail retryable now = search (rules, k.moves) depth 40

  expire_row-Ensures : (text : Message) (now : ℕ) (r : RoundRow) → Ensures R (expire_row text now r)
  unfolding expire_row
  expire_row-Ensures text now r = search (rules, k.moves) depth 40

  pub expire_rounds-Ensures :
      (text : Message) (timestamp : ℕ) (moved_at : Text → ℕ)
      → Ensures R (expire_rounds text timestamp moved_at)
  unfolding expire_rounds
  expire_rounds-Ensures text timestamp moved_at = search (rules, expire_row-Ensures) depth 40

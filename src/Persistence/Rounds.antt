-- ===== src/Persistence/Rounds.antt =====
-- The life of a round in database.py: `create_round`, `get_round`, `fail_round` and `abort`.
use deki_smpc_server.Prelude.{
  ℕ, ◌+◌, Text, Message, Bool, false, not, ◌&&◌, ◌||◌, Option, none, some, List, ltb, leb,
  if◌then◌else◌, length, take,
}
use deki_smpc_server.Domain.States.{registration_open, failed, aborted, expired, is_terminal}
use deki_smpc_server.Domain.Models.{ModelSchema}
use deki_smpc_server.Persistence.Schema.{
  RoundRow, ParticipantRow, AuditRow, awaiting_public_key, caller, reconciler, Protocol, Response,
  round_response, accepted, round_created, round_deadline_exceeded, operator_abort, Event, create,
  abort,
}
use deki_smpc_server.Persistence.Tx.{
  Tx, round_conflict, round_not_found, type_error, pure, gets, raise_if, when, if_found, for_each,
  ◌>>=◌, ◌>>◌,
}
use deki_smpc_server.Persistence.Statements.{
  round_of, insert_round, insert_participant, insert_audit, remember, replay_or, need,
}
use deki_smpc_server.Persistence.Transition.{transition}

abbrev pub created_event : Text → Text → ℕ → AuditRow
created_event round actor now = record {
  round_id = round;
  actor = caller actor;
  event_type = round_created;
  state_version = some 1;
  created_at = now;
  detail = none;
}

abbrev pub new_participant : Text → ℕ → Text → ParticipantRow
new_participant round now client = record {
  round_id = round;
  client_id = client;
  state = awaiting_public_key;
  public_key = none;
  key_bundle = none;
  context_commitment = none;
  update_artifact_id = none;
  update_digest = none;
  integrity_tag = none;
  completed = false;
  last_seen = now;
}

-- The rows of a new round: its own, those of its participants, and its audit event.
unfoldable pub register_round :
    RoundRow → (participants : List Text) → (actor : Text) → (now : ℕ) → Tx Unit
register_round row participants actor now = do
  insert_round row
  for_each participants (λ client. insert_participant (new_participant row.round_id now client))
  insert_audit (created_event row.round_id actor now)

-- `create_round`. `round_id` is the new UUID, and the record of the response is kept under the
-- federation in place of a round.
unfoldable pub create_round :
    (federation_id : Text)
    → Protocol
    → ModelSchema
    → (schema_hash : Text) → (participants : List Text) → (manifest_hash : Text)
    → (ttl retention : ℕ) → (actor idem_key request_digest : Text) → (round_id : Text) → (now : ℕ)
    → Tx (Response × Bool)
create_round federation_id protocol_version schema schema_hash participants manifest_hash ttl
      retention actor idem_key request_digest round_id now =
    replay_or actor federation_id create idem_key request_digest do
      let response =
          round_response round_id federation_id registration_open 1 protocol_version schema_hash
            manifest_hash (length participants) schema.aggregation_policy schema.precision_bits
            (now + ttl)
      register_round
          (record {
            round_id = round_id;
            federation_id = federation_id;
            protocol_version = protocol_version;
            model_schema_hash = schema_hash;
            model_schema = schema;
            participant_manifest_hash = manifest_hash;
            participants = participants;
            expected_count = length participants;
            aggregation_policy = schema.aggregation_policy;
            precision_bits = schema.precision_bits;
            state = registration_open;
            state_version = 1;
            created_at = now;
            deadline_at = now + ttl;
            completed_at = none;
            retention_at = now + retention;
            failure_code = none;
            failure_detail = none;
          })
          participants actor now
      remember actor federation_id create idem_key request_digest response now
      pure (response, false)

-- `state not in {terminal} and time.time() > deadline_at`.
unfoldable pub overdue : ℕ → RoundRow → Bool
overdue now r = not (is_terminal r.state) && ltb r.deadline_at now

-- `get_round`, with its deadline check. The method reads the row, and opens a transaction for the
-- expiry only where the row is overdue; there it looks again. The clock is read before, in, and at
-- the transition of that transaction.
unfoldable pub get_round :
    (round_id : Text) → (expire : Bool) → (now later last : ℕ) → Tx (Option RoundRow)
unfolding overdue
get_round round_id expire now later last = do
  row ← gets (round_of round_id)
  if_found row
      (λ found.
        if not expire || is_terminal found.state || leb now found.deadline_at
        then pure (some found)
        else do
          current ← gets (round_of round_id)
          if_found current
              (λ r. do
                when (overdue later r) (
                    transition round_id r.state expired reconciler round_deadline_exceeded none
                      last)
                after ← need (round_of round_id) type_error
                pure (some after))
              (pure none))
      (pure none)

-- `fail_round`: a missing or terminal round is left alone. The detail is cut to 256 characters.
unfoldable pub fail_round :
    (round_id client_id : Text) → (code : Event) → (detail : Message) → (now : ℕ) → Tx Unit
fail_round round_id client_id code detail now = do
  row ← gets (round_of round_id)
  if_found row
      (λ r.
        when (not (is_terminal r.state))
          (transition round_id r.state failed (caller client_id) code (some (take 256 detail)) now))
      (pure tt)

-- `abort`, by the operator; `now` is the time of the transition and `later` that of the record.
unfoldable pub abort_round :
    (round_id actor : Text)
    → (reason : Message) → (idem_key digest : Text) → (now later : ℕ) → Tx (Response × Bool)
abort_round round_id actor reason idem_key digest now later =
    replay_or actor round_id abort idem_key digest do
      row ← need (round_of round_id) round_not_found
      raise_if (is_terminal row.state) round_conflict
      transition round_id row.state aborted (caller actor) operator_abort (some reason) now
      remember actor round_id abort idem_key digest accepted later
      pure (accepted, false)

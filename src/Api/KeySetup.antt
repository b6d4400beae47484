-- ===== src/Api/KeySetup.antt =====
-- The handlers of api/v1.py that read a round and set up the keys: `get_round`, `get_me`,
-- `put_public_key`, `get_public_keys`, `put_key_bundle`, `get_key_bundles` and `key_setup_complete`.
use deki_smpc_server.Prelude.{
  ℕ, Text, Message, Bool, true, false, not, ◌&&◌, ◌||◌, Option, none, some, List, [], ◌∷◌, ltb,
  ◌==◌, if◌then◌else◌,
}
use deki_smpc_server.Prelude.Rows.{any}
use deki_smpc_server.Domain.States.{RoundState}
use deki_smpc_server.Domain.Models.{AggregationPolicy}
use deki_smpc_server.Persistence.Schema.{
  Db, RoundRow, ParticipantRow, ParticipantState, Protocol, Event, Body, public_key_body,
  key_bundle_body, Response, Hashing,
}
use deki_smpc_server.Persistence.Statements.{participant_of}
use deki_smpc_server.Persistence.Setup.{
  Slot, public_key, key_bundle, record_json_slot, public_keys, incoming_bundles,
}
use deki_smpc_server.Persistence.KeyContext.{complete_key_setup}
use deki_smpc_server.Api.{
  Answer, answered, refused, api_error, authorization_failed, artifact_invalid,
}
use deki_smpc_server.Api.Rounds.{Member}
use deki_smpc_server.Api.Visits.{Visit, visit, call, answer_of}
use deki_smpc_server.Api.Signing.{
  Codec, is_signed, ephemeral_public_key, key_bundle_purpose, signed_key, signed_messages,
  body_payload, text_payload,
}

-- What `get_round` answers, but for `retry_after`, which is 1.
pub record RoundView : Type 0 where
  pub round_id : Text
  pub federation_id : Text
  pub state : RoundState
  pub state_version : ℕ
  pub protocol_version : Protocol
  pub model_schema_hash : Text
  pub participant_manifest_hash : Text
  pub expected_participant_count : ℕ
  pub aggregation_policy : AggregationPolicy
  pub precision_bits : ℕ
  pub deadline_at : ℕ
  pub failure_code : Option Event
  pub failure_detail : Option Message

abbrev pub view_of : RoundRow → RoundView
view_of row = record {
  round_id = row.round_id;
  federation_id = row.federation_id;
  state = row.state;
  state_version = row.state_version;
  protocol_version = row.protocol_version;
  model_schema_hash = row.model_schema_hash;
  participant_manifest_hash = row.participant_manifest_hash;
  expected_participant_count = row.expected_count;
  aggregation_policy = row.aggregation_policy;
  precision_bits = row.precision_bits;
  deadline_at = row.deadline_at;
  failure_code = row.failure_code;
  failure_detail = row.failure_detail;
}

-- What `get_me` answers.
pub record ParticipantView : Type 0 where
  pub client_id : Text
  pub state : ParticipantState
  pub completed : Bool
  pub last_seen : ℕ

abbrev pub seen_by : Option ParticipantRow → Answer ParticipantView
seen_by none = refused (api_error 403 authorization_failed)
seen_by (some p) = answered (record {
  client_id = p.client_id;
  state = p.state;
  completed = p.completed;
  last_seen = p.last_seen;
})

-- `KeyEnvelope`, and the two bodies of requests.
pub record Envelope : Type 0 where
  pub nonce : Text
  pub ciphertext : Text
  pub json : Text

abbrev pub json_messages : List (Text × Envelope) → List (Text × Text)
json_messages [] = []
json_messages ((client, e) ∷ rest) = (client, e.json) ∷ json_messages rest

unfoldable pub has_client : Text → List Text → Bool
has_client client [] = false
has_client client (c ∷ cs) = c == client || has_client client cs

abbrev pub recipients : List (Text × Envelope) → List Text
recipients [] = []
recipients ((client, e) ∷ rest) = client ∷ recipients rest

-- `set(body.messages) == set(participants) - {client_id}`; the recipients are keys of a `dict`.
unfoldable pub names_others : (client_id : Text) → (named participants : List Text) → Bool
unfolding has_client any
names_others client_id named participants =
    not (any (λ c. not (has_client c participants) || c == client_id) named)
    && not (any (λ c. not (c == client_id) && not (has_client c named)) participants)

-- A length that is one, or that keeps to a limit.
abbrev pub is_length : ℕ → Option ℕ → Bool
is_length n none = false
is_length n (some m) = m == n

abbrev pub fits : ℕ → Option ℕ → Bool
fits n none = false
fits n (some m) = not (ltb n m)

-- The loop over the envelopes.
unfoldable pub envelopes_fit : Codec → List (Text × Envelope) → Bool
envelopes_fit k [] = true
envelopes_fit k ((client, e) ∷ rest) =
    is_length 12 (k.decoded_length e.nonce)
    && fits 4096 (k.decoded_length e.ciphertext)
    && envelopes_fit k rest

module _ (k : Codec) (round_id : Text) (member : Member) (t : Visit) where
  -- `get_round`.
  unfoldable pub read_round : Db → Answer RoundView × Db
  read_round = visit round_id member t (λ row s. (answered (view_of row), s))

  -- `get_me`.
  unfoldable pub get_me : Db → Answer ParticipantView × Db
  get_me = visit round_id member t (λ row s.
      let s' = t.before_method s in (seen_by (participant_of round_id member.client_id s'), s'))

  -- The slot that a body fills, after it was found valid.
  abbrev pub put_slot : Slot → Body → (idem_key : Text) → Db → Answer (Response × Bool) × Db
  put_slot slot body idem_key =
      call
        (record_json_slot round_id member.client_id slot body idem_key
          (k.digest (body_payload body)) t.recorded t.moved)
        t

  -- `put_public_key`.
  unfoldable pub put_public_key :
      (key signature idem_key : Text) → Db → Answer (Response × Bool) × Db
  put_public_key key signature idem_key = visit round_id member t (λ row s.
      if not (is_length 32 (k.decoded_length key))
        || not (is_signed k row member ephemeral_public_key (signed_key key) signature)
      then (refused (api_error 422 artifact_invalid), s)
      else put_slot public_key (public_key_body key signature) idem_key s)

  -- `get_public_keys`.
  unfoldable pub get_public_keys : Db → Answer (List (Text × Body)) × Db
  get_public_keys = visit round_id member t (λ row. call (public_keys round_id) t)

  -- `put_key_bundle`: a bundle names the other participants of the round, each with an envelope.
  unfoldable pub put_key_bundle :
      (messages : List (Text × Envelope))
      → (signature idem_key : Text) → Db
      → Answer (Response × Bool) × Db
  unfolding names_others envelopes_fit
  put_key_bundle messages signature idem_key = visit round_id member t (λ row s.
      if not (names_others member.client_id (recipients messages) row.participants)
        || not (
            is_signed k row member key_bundle_purpose (signed_messages (json_messages messages))
              signature)
        || not (envelopes_fit k messages)
      then (refused (api_error 422 artifact_invalid), s)
      else put_slot key_bundle (key_bundle_body (json_messages messages) signature) idem_key s)

  -- `get_key_bundles`; none is the answer 204.
  unfoldable pub get_key_bundles : Db → Answer (Option (List (Text × Body))) × Db
  get_key_bundles =
      visit round_id member t (λ row. call (incoming_bundles round_id member.client_id) t)

  -- `key_setup_complete`.
  unfoldable pub key_setup_complete :
      Hashing → (commitment idem_key : Text) → Db → Answer Response × Db
  key_setup_complete h commitment idem_key = visit round_id member t (λ row s. answer_of (
      complete_key_setup h round_id member.client_id commitment idem_key
        (k.digest (text_payload commitment)) t.recorded t.moved (t.before_method s)))

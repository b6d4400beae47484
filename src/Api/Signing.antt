-- ===== src/Api/Signing.antt =====
-- `_domain` and `_verify_signature` of api/v1.py, on what a member signs.
use deki_smpc_server.Prelude.{ℕ, Text, Bool, Option, List}
use deki_smpc_server.Domain.Models.{AggregationPolicy, ModelSchema}
use deki_smpc_server.Persistence.Schema.{RoundRow, Protocol, Body}
use deki_smpc_server.Api.Rounds.{Member}
use deki_smpc_server.Api.KeyTasks.{ArtifactValue}

pub data Purpose : Type 0 where
  ephemeral_public_key key_bundle_purpose tree_artifact final_key_purpose : Purpose

-- `_domain`: the fields that the code joins by NUL bytes.
pub record Domain : Type 0 where
  pub purpose : Purpose
  pub protocol_version : Protocol
  pub federation_id : Text
  pub round_id : Text
  pub model_schema_hash : Text
  pub participant_manifest_hash : Text
  pub aggregation_policy : AggregationPolicy
  pub precision_bits : ℕ

abbrev pub domain : RoundRow → Purpose → Domain
domain row purpose = record {
  purpose = purpose;
  protocol_version = row.protocol_version;
  federation_id = row.federation_id;
  round_id = row.round_id;
  model_schema_hash = row.model_schema_hash;
  participant_manifest_hash = row.participant_manifest_hash;
  aggregation_policy = row.aggregation_policy;
  precision_bits = row.precision_bits;
}

-- `_final_key_value`, but for its constant entries.
pub record FinalKeyValue : Type 0 where
  pub sender : Text
  pub round_id : Text
  pub plan_hash : Text
  pub model_schema_hash : Text
  pub nonce : Text
  pub ciphertext_digest : Text
  pub ciphertext_size : ℕ

abbrev pub final_key_value :
    RoundRow → (plan_hash root nonce digest : Text) → (size : ℕ) → FinalKeyValue
final_key_value row plan_hash root nonce digest size = record {
  sender = root;
  round_id = row.round_id;
  plan_hash = plan_hash;
  model_schema_hash = row.model_schema_hash;
  nonce = nonce;
  ciphertext_digest = digest;
  ciphertext_size = size;
}

-- The values that are signed, as JSON: a public key, the messages of a bundle, or the metadata of an
-- artifact.
pub data Signed : Type 0 where
  signed_key : Text → Signed
  signed_messages : List (Text × Text) → Signed
  signed_artifact : ArtifactValue → Signed
  signed_final : FinalKeyValue → Signed

-- The JSON of the requests, whose digests `hashlib` gives.
pub data Payload : Type 0 where
  body_payload : Body → Payload
  text_payload : Text → Payload
  reason_payload : List ℕ → Payload
  empty_payload : Payload

-- The cryptography and the canonical JSON. `verifies` is whether the key can be loaded and the
-- signature is one of the domain and the value.
pub record Codec : Type 0 where
  pub decoded_length : Text → Option ℕ
  pub verifies : (key : Text) → Domain → Signed → (signature : Text) → Bool
  pub digest : Payload → Text
  pub schema_digest : ModelSchema → Text
  pub manifest_digest : List (Text × Text) → Text

-- `_verify_signature`: does it pass?
abbrev pub is_signed : Codec → RoundRow → Member → Purpose → Signed → (signature : Text) → Bool
is_signed k row member purpose value signature =
    k.verifies member.signing_public_key (domain row purpose) value signature

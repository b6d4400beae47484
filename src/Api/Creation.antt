-- ===== src/Api/Creation.antt =====
-- The handlers of the operator in api/v1.py: `create_round` and `abort`.
pub mod Checked
use deki_smpc_server.Prelude.{
  ℕ, ◌+◌, ◌*◌, ◌/◌, Text, Message, Bool, true, false, not, ◌||◌, Option, none, some, List, [], ◌∷◌,
  ltb, leb, ◌==◌, if◌then◌else◌, length,
}
use deki_smpc_server.Domain.Models.{ModelSchema, TensorSchema}
use deki_smpc_server.Domain.Topology.Derive.{has_duplicate}
use deki_smpc_server.Persistence.Schema.{Db, Protocol, Response}
use deki_smpc_server.Persistence.Rounds.{create_round, abort_round}
use deki_smpc_server.Persistence.Members.{MemberRow, Members, Role, participant, other_role, member}
use deki_smpc_server.Worker.Inputs.{is_aggregated}
use deki_smpc_server.Api.{
  Answer, answered, refused, ApiError, api_error, protocol_version_unsupported,
  participant_limit_exceeded, artifact_invalid, schema_mismatch, unknown_client,
}
use deki_smpc_server.Api.Visits.{Visit, call}
use deki_smpc_server.Api.Signing.{Codec, reason_payload}

-- The settings that the handler reads; `from_env` leaves them positive.
pub record Limits : Type 0 where
  pub max_participants : Option ℕ
  pub max_artifact_bytes : ℕ
  pub round_ttl_seconds : ℕ
  pub retention_seconds : ℕ

-- `CreateRoundRequest`, with the digest of its JSON. The version is none where it is another text
-- than the two that are supported.
pub record CreateRequest : Type 0 where
  pub protocol_version : Option Protocol
  pub model_schema : ModelSchema
  pub model_schema_hash : Text
  pub participants : List Text
  pub deadline_seconds : Option ℕ
  pub request_digest : Text

-- `math.prod(shape)`.
unfoldable pub product : List ℕ → ℕ
product [] = 1
product (n ∷ ns) = n * product ns

-- `uploaded_elements`.
unfoldable pub uploaded_elements : List TensorSchema → ℕ
unfolding product
uploaded_elements [] = 0
uploaded_elements (t ∷ ts) =
    let rest = uploaded_elements ts in
    if is_aggregated t.policy then product t.shape + rest else rest

-- `sorted(body.participants)`; a text is its number in the order of texts.
unfoldable pub insert_name : Text → List Text → List Text
insert_name x [] = x ∷ []
insert_name x (y ∷ ys) = let rest = insert_name x ys in if leb x y then x ∷ y ∷ ys else y ∷ rest

unfoldable pub sorted_names : List Text → List Text
unfolding insert_name
sorted_names [] = []
sorted_names (x ∷ xs) = insert_name x (sorted_names xs)

-- The key of a member that takes part in rounds.
abbrev pub participant_key : Option MemberRow → Option Text
participant_key none = none
participant_key (some m) = elim m.role [
  | participant ↦ some m.signing_public_key
  | other_role x ↦ none
]

abbrev pub with_entry :
    Text → Option Text → Option (List (Text × Text)) → Option (List (Text × Text))
with_entry client none rest = none
with_entry client (some key) none = none
with_entry client (some key) (some rest) = some ((client, key) ∷ rest)

-- The loop that builds the manifest: none where a participant is not an enrolled member.
unfoldable pub manifest : (federation_id : Text) → Members → List Text → Option (List (Text × Text))
manifest federation_id ms [] = some []
manifest federation_id ms (c ∷ cs) =
    with_entry c (participant_key (member federation_id c ms)) (manifest federation_id ms cs)

abbrev pub exceeds : Option ℕ → ℕ → Bool
exceeds none n = false
exceeds (some limit) n = ltb limit n

-- `body.deadline_seconds or settings.round_ttl_seconds`.
abbrev pub seconds_or : Option ℕ → ℕ → ℕ
seconds_or none ttl = ttl
seconds_or (some n) ttl = if n == 0 then ttl else n

unfoldable pub unless : {A : Type 0} → Option ApiError → (Db → Answer A × Db) → Db → Answer A × Db
unless none f s = f s
unless (some e) f s = (refused e, s)

module _ (k : Codec) (limits : Limits) (ms : Members) (t : Visit) where
  -- The round, once every check has passed.
  unfoldable pub open_checked :
      (federation_id operator idem_key round_id : Text)
      → CreateRequest
      → Protocol
      → List (Text × Text)
      → Db
      → Answer (Response × Bool) × Db
  open_checked federation_id operator idem_key round_id body version entries =
      call
        (create_round federation_id version body.model_schema body.model_schema_hash
          (sorted_names body.participants) (k.manifest_digest entries)
          (seconds_or body.deadline_seconds limits.round_ttl_seconds) limits.retention_seconds
          operator idem_key body.request_digest round_id t.recorded)
        t

  unfoldable pub with_manifest :
      (federation_id operator idem_key round_id : Text)
      → CreateRequest
      → Protocol
      → Option (List (Text × Text))
      → Db
      → Answer (Response × Bool) × Db
  unfolding open_checked
  with_manifest federation_id operator idem_key round_id body version none s =
      (refused (api_error 422 unknown_client), s)
  with_manifest federation_id operator idem_key round_id body version (some entries) s =
      open_checked federation_id operator idem_key round_id body version entries s

  -- The checks of the body, before the members are looked up: what it is refused with, if it is.
  unfoldable pub request_error : CreateRequest → Option ApiError
  unfolding uploaded_elements has_duplicate
  request_error body =
      if exceeds limits.max_participants (length body.participants)
      then some (api_error 422 participant_limit_exceeded)
      else if has_duplicate body.participants
      then some (api_error 422 artifact_invalid)
      else if ltb (limits.max_artifact_bytes / 8) (uploaded_elements body.model_schema.entries)
      then some (api_error 422 artifact_invalid)
      else if not (k.schema_digest body.model_schema == body.model_schema_hash)
      then some (api_error 422 schema_mismatch)
      else none

  unfoldable pub with_version :
      (federation_id operator idem_key round_id : Text)
      → CreateRequest
      → Option Protocol
      → Db
      → Answer (Response × Bool) × Db
  unfolding manifest
  with_version federation_id operator idem_key round_id body none s =
      (refused (api_error 422 protocol_version_unsupported), s)
  with_version federation_id operator idem_key round_id body (some version) s =
      unless (request_error body)
        (with_manifest federation_id operator idem_key round_id body version
          (manifest federation_id ms (sorted_names body.participants)))
        s

  -- `create_round`. `operator` is the text that the identity of the operator stands for, and
  -- `round_id` the new UUID.
  unfoldable pub open_round :
      (federation_id operator idem_key round_id : Text)
      → CreateRequest
      → Db
      → Answer (Response × Bool) × Db
  unfolding with_version
  open_round federation_id operator idem_key round_id body s =
      with_version federation_id operator idem_key round_id body body.protocol_version s

  -- `abort`.
  unfoldable pub abort_by_operator :
      (round_id operator idem_key : Text) → (reason : Message) → Db → Answer (Response × Bool) × Db
  abort_by_operator round_id operator idem_key reason =
      call
        (abort_round round_id operator reason idem_key (k.digest (reason_payload reason)) t.recorded
          t.moved)
        t

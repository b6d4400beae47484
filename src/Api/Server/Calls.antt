-- ===== src/Api/Server/Calls.antt =====
-- What the API is made of, what reaches it, and what it answers.
use deki_smpc_server.Prelude.{ℕ, Text, Message, Bool, Option, List}
use deki_smpc_server.Domain.Topology.{TaskId}
use deki_smpc_server.Persistence.Schema.{TreePlanRow, Response, Body}
use deki_smpc_server.Persistence.KeyTasks.{KeyAction, ArtifactMetadata}
use deki_smpc_server.Persistence.Members.{Members, Encoding}
use deki_smpc_server.Persistence.Requests.{Request, Service}
use deki_smpc_server.Storage.{Stream}
use deki_smpc_server.Worker.Inputs.{Libraries}
use deki_smpc_server.Api.KeyTasks.{ArtifactValue, Metadata, Rejection}
use deki_smpc_server.Api.Signing.{Codec, FinalKeyValue}
use deki_smpc_server.Api.KeySetup.{RoundView, ParticipantView, Envelope}
use deki_smpc_server.Api.Tree.{Reasons, FileReply}
use deki_smpc_server.Api.Creation.{Limits, CreateRequest}
use deki_smpc_server.Api.Results.{ResultReply}
use deki_smpc_server.Api.FinalKeys.{KeyMetadata, FinalRejection}

-- What a process of the API is made of: its settings, the members, and the libraries.
pub record App : Type 1 where
  pub libraries : Libraries
  pub encoding : Encoding
  pub codec : Codec
  pub reasons : Reasons
  pub rejection_text : Rejection → Message
  pub task_digest : ArtifactValue → (signature content : Text) → Text
  pub final_text : FinalRejection → Message
  pub final_digest : FinalKeyValue → (signature content : Text) → Text
  pub update_digest : Text → Text → Text
  pub limits : Limits
  pub service : Service
  pub members : Members
  pub admin_token : Message
  pub operator : Text
  pub name_le : TaskId → TaskId → Bool
  pub key_text : Message → Text

-- The headers that the dependencies read.
pub record Headers : Type 0 where
  pub authorization : Option Message
  pub idempotency : Option Message

-- What a request meets: the clock, what other processes do between its steps, and the new UUIDs.
pub record Arrival : Type 0 where
  pub now : ℕ
  pub later : ℕ
  pub last : ℕ
  pub recorded : ℕ
  pub moved : ℕ
  pub failed_at : ℕ
  pub before_participant : List Request
  pub before_plan : List Request
  pub before_method : List Request
  pub before_failure : List Request
  pub new_round : Text
  pub object_id : Text
  pub job_id : Text

-- The routes for the participants of a round, with what they take of the path and the body.
pub data Call : Type 0 where
  reads_round reads_me reads_public_keys reads_bundles reads_plan reads_action : Call
  reads_final_key reads_result completes : Call
  puts_public_key : (key signature : Text) → Call
  puts_bundle : List (Text × Envelope) → (signature : Text) → Call
  completes_setup : (commitment : Text) → Call
  puts_artifact : TaskId → Option Metadata → (signature : Option Text) → Stream → Call
  puts_final_key : Option KeyMetadata → (signature : Option Text) → Stream → Call
  reads_artifact : TaskId → Call
  acknowledges : TaskId → (artifact_digest : Text) → Call
  acknowledges_final : (artifact_digest : Text) → Call
  puts_update : (schema_hash integrity_tag : Option Text) → (tag_length : Option ℕ) → Stream → Call

pub data Route : Type 0 where
  opens : (federation_id : Text) → CreateRequest → Route
  aborts : (round_id : Text) → (reason : Message) → Route
  of_round : (round_id : Text) → Call → Route

pub data Reply : Type 0 where
  round_reply : RoundView → Reply
  participant_reply : ParticipantView → Reply
  -- with `idempotent_replay`
  response_reply : Response × Bool → Reply
  plain_reply : Response → Reply
  keys_reply : List (Text × Body) → Reply
  -- none is the status 204
  bundles_reply : Option (List (Text × Body)) → Reply
  plan_reply : TreePlanRow → Reply
  action_reply : Option KeyAction → Reply
  artifact_reply : FileReply ArtifactMetadata → Reply
  final_reply : FileReply FinalKeyValue → Reply
  result_reply : ResultReply → Reply

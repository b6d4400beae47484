-- ===== src/Api/Server.antt =====
-- The routes of api/v1.py: from the headers of a request, through the dependencies that say who
-- calls, to the handler.
mod Calls
pub use Calls.*
pub mod Refinement
pub mod Operator
pub mod Routes
pub mod Serving
pub mod Access
pub mod Membership
mod Tests
use deki_smpc_server.Prelude.{
  ℕ, Text, Message, Bool, true, false, Option, none, some, List, [], ◌∷◌,
}
use deki_smpc_server.Domain.Topology.{TaskId}
use deki_smpc_server.Persistence.Schema.{Db, RoundRow, TreePlanRow, Response, Body}
use deki_smpc_server.Persistence.KeyTasks.{KeyAction, ArtifactMetadata}
use deki_smpc_server.Persistence.Members.{MemberRow, Members, Encoding}
use deki_smpc_server.Persistence.Requests.{Request, Service, run}
use deki_smpc_server.Storage.{Disk, Stream}
use deki_smpc_server.Worker.Inputs.{Libraries}
use deki_smpc_server.Api.{Answer, answered, refused}
use deki_smpc_server.Api.Identity.{
  participant_identity, operator_identity, idempotency_key, caller_of,
}
use deki_smpc_server.Api.Rounds.{Member}
use deki_smpc_server.Api.Updates.{Upload, Moments, Site, put_update}
use deki_smpc_server.Api.KeyTasks.{
  ArtifactValue, Metadata, Rejection, TaskUpload, TaskMoments, TaskService, put_key_task_artifact,
}
use deki_smpc_server.Api.Visits.{Visit}
use deki_smpc_server.Api.Signing.{Codec, FinalKeyValue, is_signed, tree_artifact, signed_artifact}
use deki_smpc_server.Api.KeySetup.{
  RoundView, ParticipantView, Envelope, read_round, get_me, put_public_key, get_public_keys,
  put_key_bundle, get_key_bundles, key_setup_complete,
}
use deki_smpc_server.Api.Tree.{
  Reasons, FileReply, get_tree_plan, get_next_key_action, get_key_task_artifact,
  acknowledge_key_task, get_final_key, acknowledge_final,
}
use deki_smpc_server.Api.Creation.{Limits, CreateRequest, open_round, abort_by_operator}
use deki_smpc_server.Api.Results.{ResultReply, get_result, complete_round}
use deki_smpc_server.Api.FinalKeys.{KeyMetadata, FinalUpload, FinalService, put_final_key}

abbrev pub map_answer : {A : Type 0} → (A → Reply) → Answer A → Answer Reply
map_answer f (refused e) = refused e
map_answer f (answered a) = answered (f a)

-- A handler that leaves the files alone, and one that does not.
abbrev pub on_db : {A : Type 0} → (A → Reply) → (Db → Answer A × Db) → Site → Answer Reply × Site
on_db f h site = (map_answer f (h site.db).0, record { db = (h site.db).1; disk = site.disk })

abbrev pub on_site :
    {A : Type 0} → (A → Reply) → (Site → Answer A × Site) → Site → Answer Reply × Site
on_site f h site = (map_answer f (h site).0, (h site).1)

module _ (app : App) (a : Arrival) where
  abbrev pub visit_of : Visit
  visit_of = record {
    now = a.now;
    later = a.later;
    last = a.last;
    recorded = a.recorded;
    moved = a.moved;
    failed_at = a.failed_at;
    before_participant = run app.service a.before_participant;
    before_method = run app.service a.before_method;
    before_failure = run app.service a.before_failure;
  }

  abbrev pub moments_of : Moments
  moments_of = record {
    now = a.now;
    later = a.later;
    last = a.last;
    recorded = a.recorded;
    moved = a.moved;
    before_participant = run app.service a.before_participant;
    before_record = run app.service a.before_method;
  }

  abbrev pub task_moments_of : TaskMoments
  task_moments_of = record {
    now = a.now;
    later = a.later;
    last = a.last;
    recorded = a.recorded;
    rejected_at = a.failed_at;
    before_participant = run app.service a.before_participant;
    before_plan = run app.service a.before_plan;
    before_record = run app.service a.before_method;
    before_failure = run app.service a.before_failure;
  }

  abbrev pub task_service_of : TaskService
  task_service_of = record {
    sha256 = app.libraries.sha256;
    verifies = λ row member value signature.
        is_signed app.codec row member tree_artifact (signed_artifact value) signature;
    request_digest = app.task_digest;
    text_of = app.rejection_text;
    max_bytes = app.limits.max_artifact_bytes;
  }

  abbrev pub update_of :
      (key : Text) → (schema_hash tag : Option Text) → (tag_length : Option ℕ) → Stream → Upload
  update_of key schema_hash tag tag_length body = record {
    schema_hash = schema_hash;
    integrity_tag = tag;
    tag_length = tag_length;
    idem_key = key;
    body = body;
    object_id = a.object_id;
    job_id = a.job_id;
  }

  abbrev pub artifact_of :
      (key : Text) → TaskId → Option Metadata → (signature : Option Text) → Stream → TaskUpload
  artifact_of key task_id metadata signature body = record {
    task_id = task_id;
    metadata = metadata;
    signature = signature;
    idem_key = key;
    body = body;
    object_id = a.object_id;
  }

  abbrev pub final_service_of : FinalService
  final_service_of = record {
    codec = app.codec;
    sha256 = app.libraries.sha256;
    request_digest = app.final_digest;
    text_of = app.final_text;
    max_bytes = app.limits.max_artifact_bytes;
  }

  abbrev pub final_of :
      (key : Text) → Option KeyMetadata → (signature : Option Text) → Stream → FinalUpload
  final_of key metadata signature body = record {
    metadata = metadata;
    signature = signature;
    idem_key = key;
    body = body;
    object_id = a.object_id;
  }

  -- The handler of a route in a round, for the member that calls.
  unfoldable pub handled :
      (round_id : Text) → Member → (key : Text) → Call → Site → Answer Reply × Site
  handled r m key reads_round = on_db round_reply (read_round app.codec r m visit_of)
  handled r m key reads_me = on_db participant_reply (get_me app.codec r m visit_of)
  handled r m key reads_public_keys = on_db keys_reply (get_public_keys app.codec r m visit_of)
  handled r m key reads_bundles = on_db bundles_reply (get_key_bundles app.codec r m visit_of)
  handled r m key reads_plan = on_db plan_reply (get_tree_plan app.codec app.reasons r m visit_of)
  handled r m key reads_action =
      on_db action_reply (get_next_key_action app.codec app.reasons r m visit_of app.name_le)
  handled r m key reads_final_key = λ site.
      on_db final_reply
        (get_final_key app.codec app.reasons r m visit_of app.libraries.sha256 site.disk) site
  handled r m key reads_result = on_db result_reply (get_result app.codec r m visit_of)
  handled r m key completes = on_db plain_reply (complete_round app.codec r m visit_of key)
  handled r m key (puts_public_key k signature) =
      on_db response_reply (put_public_key app.codec r m visit_of k signature key)
  handled r m key (puts_bundle messages signature) =
      on_db response_reply (put_key_bundle app.codec r m visit_of messages signature key)
  handled r m key (completes_setup commitment) =
      on_db plain_reply
        (key_setup_complete app.codec r m visit_of app.service.hashing commitment key)
  handled r m key (puts_artifact task_id metadata signature body) = on_site response_reply (
      put_key_task_artifact task_service_of r m (artifact_of key task_id metadata signature body)
        task_moments_of)
  handled r m key (puts_final_key metadata signature body) = on_site response_reply (
      put_final_key final_service_of r m (final_of key metadata signature body) visit_of
        (run app.service a.before_plan))
  handled r m key (reads_artifact task_id) = λ site.
      on_db artifact_reply
        (get_key_task_artifact app.codec app.reasons r m visit_of app.libraries.sha256 task_id
          site.disk)
        site
  handled r m key (acknowledges task_id digest) =
      on_db plain_reply (acknowledge_key_task app.codec app.reasons r m visit_of task_id digest key)
  handled r m key (acknowledges_final digest) =
      on_db plain_reply (acknowledge_final app.codec app.reasons r m visit_of digest key)
  handled r m key (puts_update schema_hash tag tag_length body) = on_site response_reply (
      put_update app.libraries app.update_digest app.limits.max_artifact_bytes r m
        (update_of key schema_hash tag tag_length body) moments_of)

-- The routes that depend on `_idem`.
abbrev pub needs_key : Call → Bool
needs_key completes = true
needs_key (puts_public_key k signature) = true
needs_key (puts_bundle messages signature) = true
needs_key (completes_setup commitment) = true
needs_key (puts_artifact task_id metadata signature body) = true
needs_key (puts_final_key metadata signature body) = true
needs_key (acknowledges task_id digest) = true
needs_key (acknowledges_final digest) = true
needs_key (puts_update schema_hash tag tag_length body) = true
needs_key _ = false

-- Dependencies in their order: who calls, then the key where the route takes one.
unfoldable pub then_with :
    {A : Type 0} → Answer A → (A → Site → Answer Reply × Site) → Site → Answer Reply × Site
then_with (refused e) f site = (refused e, site)
then_with (answered x) f site = f x site

-- The key of a route that takes one; another ignores it.
unfoldable pub keyed :
    Bool → Answer Message → (Message → Site → Answer Reply × Site) → Site → Answer Reply × Site
unfolding then_with
keyed true key f = then_with key f
keyed false key f = f []

-- A request: the caller and the key come from its headers.
unfoldable pub serve : App → Headers → Route → Arrival → Site → Answer Reply × Site
serve app h (opens federation_id body) a =
    then_with (operator_identity app.admin_token h.authorization) (λ _.
      then_with (idempotency_key h.idempotency) (λ key. on_db response_reply (
        open_round app.codec app.limits app.members (visit_of app a) federation_id app.operator
          (app.key_text key) a.new_round body)))
serve app h (aborts round_id reason) a =
    then_with (operator_identity app.admin_token h.authorization) (λ _.
      then_with (idempotency_key h.idempotency) (λ key. on_db response_reply (
        abort_by_operator app.codec app.limits app.members (visit_of app a) round_id app.operator
          (app.key_text key) reason)))
serve app h (of_round round_id call) a =
    then_with (participant_identity app.encoding app.members h.authorization) (λ member.
      keyed (needs_key call) (idempotency_key h.idempotency)
        (λ key. handled app a round_id (caller_of member) (app.key_text key) call))

-- Requests one after the other; what runs beside each stands in its arrival.
unfoldable pub serve_all : App → List (Headers × Route × Arrival) → Site → Site
unfolding serve
serve_all app [] site = site
serve_all app ((h, route, a) ∷ rest) site = serve_all app rest (serve app h route a site).1

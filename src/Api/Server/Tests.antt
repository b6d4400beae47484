-- ===== src/Api/Server/Tests.antt =====
-- A server with three members, one round of two of them, and the requests that reach it.
use deki_smpc_server.Prelude.{ℕ, ◌≡◌, refl, Message, true, false, none, some, [], ◌∷◌, ◌++◌}
use deki_smpc_server.Prelude.Rows.{select_one, any}
use deki_smpc_server.Domain.Models.{equal_weighted}
use deki_smpc_server.Domain.Topology.Derive.{has_duplicate, mem}
use deki_smpc_server.Persistence.Schema.{Hashing, Response, round_response, v1_1, empty}
use deki_smpc_server.Persistence.Tx.{if_found, for_each, ◌>>=◌}
use deki_smpc_server.Domain.States.{registration_open}
use deki_smpc_server.Persistence.Statements.{
  replay_as, answer, prior_of, round_of, participant_of, insert_round, insert_participant,
  insert_audit, insert_idempotency,
}
use deki_smpc_server.Persistence.Rounds.{create_round, register_round, get_round}
use deki_smpc_server.Persistence.Requests.{Service, run}
use deki_smpc_server.Persistence.Members.{MemberRow, Members, Encoding, participant}
use deki_smpc_server.Persistence.Members
use deki_smpc_server.Storage.{chunk, ended}
use deki_smpc_server.Api.{refused, ApiError, api_error, authorization_failed}
use deki_smpc_server.Api.Tests.{checksum, numbers, site}
use deki_smpc_server.Api.Identity.{bearer_prefix}
use deki_smpc_server.Api.Rounds.{Member, admit, round_for_member}
use deki_smpc_server.Api.Visits.{call}
use deki_smpc_server.Api.Signing.{Codec}
use deki_smpc_server.Api.Creation.{
  Limits, CreateRequest, uploaded_elements, insert_name, sorted_names, manifest, unless,
  request_error, with_manifest, open_checked, with_version, open_round,
}
use deki_smpc_server.Api.Creation.Checked.{IsChecked, open_round-IsChecked}
use deki_smpc_server.Api.Server.{
  App, Headers, Route, aborts, of_round, Arrival, reads_round, puts_update, visit_of, handled,
  serve, serve_all,
}
use deki_smpc_server.Api.Server.Refinement.{Reaches}
use deki_smpc_server.Api.Server.Serving.{serve_all-Reaches}
use deki_smpc_server.Api.Server.Access.{serve-IsStranger}
use deki_smpc_server.Api.Server.Membership.{turned_away, handled-refused}

abbrev hashing : Hashing
hashing = record { draws = λ row entries n. n; plan_digest = λ plan. 0; fuel = 5 }

abbrev service : Service
service = record {
  hashing = hashing;
  leases = record { expired = 1 ∷ []; exhausted = 2 ∷ []; returned = 3 ∷ [] };
  deadline_text = 4 ∷ [];
}

abbrev member_with : ℕ → MemberRow
member_with n = record {
  federation_id = 50;
  client_id = n;
  token_hash = n;
  signing_public_key = 70;
  role = participant;
  revoked = false;
}

abbrev codec : Codec
codec = record {
  decoded_length = λ key. some 32;
  verifies = λ key where_ value signature. true;
  digest = λ payload. 80;
  schema_digest = λ schema. 60;
  manifest_digest = λ entries. 61;
}

abbrev limits : Limits
limits = record {
  max_participants = some 5;
  max_artifact_bytes = 800;
  round_ttl_seconds = 1800;
  retention_seconds = 86400;
}

abbrev members : Members
members = member_with 1 ∷ member_with 2 ∷ member_with 3 ∷ []

abbrev app : App
app = record {
  libraries = numbers;
  encoding = record { decoded_length = λ key. some 32; token_digest = checksum };
  codec = codec;
  reasons = record { artifact_unavailable = []; digest_changed = []; of_error = λ e. [] };
  rejection_text = λ r. [];
  task_digest = λ value signature content. content;
  final_text = λ r. [];
  final_digest = λ value signature content. content;
  update_digest = λ d t. 81;
  limits = limits;
  service = service;
  members = members;
  admin_token = 9 ∷ 9 ∷ [];
  operator = 0;
  name_le = λ a b. true;
  key_text = checksum;
}

abbrev arrival : Arrival
arrival = record {
  now = 40;
  later = 40;
  last = 40;
  recorded = 41;
  moved = 41;
  failed_at = 42;
  before_participant = [];
  before_plan = [];
  before_method = [];
  before_failure = [];
  new_round = 8;
  object_id = 400;
  job_id = 90;
}

abbrev headers : Message → Headers
headers token = record {
  authorization = some (bearer_prefix ++ token);
  idempotency = some (33 ∷ []);
}

abbrev upload_request : Headers × Route × Arrival
upload_request = (
  headers (1 ∷ []),
  of_round 7 (puts_update (some 60) (some 500) (some 16) (chunk (30 ∷ []) ended)),
  arrival,
)

abbrev read_request : Headers × Route × Arrival
read_request = (headers (2 ∷ []), of_round 7 reads_round, arrival)

serve_all-Reaches_example :
    Reaches service site.db (serve_all app (upload_request ∷ read_request ∷ []) site).db
serve_all-Reaches_example = serve_all-Reaches app (upload_request ∷ read_request ∷ []) site

serve-IsStranger_example :
    (e : ApiError) × (serve app (headers (5 ∷ [])) (aborts 7 []) arrival site ≡ (refused e, site))
serve-IsStranger_example =
    serve-IsStranger app (headers (5 ∷ [])) (aborts 7 []) arrival site
      (λ token carried is. let own : ◌≡◌ {A = Message} token (5 ∷ []) = cc in absurd (cc))

abbrev outsider : Member
outsider = record { federation_id = 50; client_id = 3; signing_public_key = 70 }

handled-refused_example :
    handled app arrival 7 outsider 33 reads_round site
    ≡ turned_away app arrival 7 outsider (api_error 403 authorization_failed) site
unfolding round_for_member admit get_round round_of participant_of select_one run if_found ◌>>=◌
handled-refused_example =
    handled-refused app arrival 7 outsider (api_error 403 authorization_failed) 33 reads_round site
      refl

abbrev creation : CreateRequest
creation = record {
  protocol_version = some v1_1;
  model_schema = record { aggregation_policy = equal_weighted; entries = []; precision_bits = 16 };
  model_schema_hash = 60;
  participants = 3 ∷ 1 ∷ 2 ∷ [];
  deadline_seconds = none;
  request_digest = 82;
}

abbrev new_response : Response
new_response = round_response 8 50 registration_open 1 v1_1 60 61 3 equal_weighted 16 1841

open_round-IsChecked_example :
    IsChecked codec limits members
      (visit_of app arrival)
      50
      0
      33
      8
      creation
      empty
      (new_response, false)
      (open_round codec limits members (visit_of app arrival) 50 0 33 8 creation empty).1
unfolding open_round with_version request_error uploaded_elements has_duplicate mem unless manifest
    Members.member sorted_names insert_name with_manifest open_checked call create_round
    register_round insert_round insert_participant insert_audit insert_idempotency for_each
    replay_as answer prior_of select_one any run ◌>>=◌
open_round-IsChecked_example =
    open_round-IsChecked codec limits members (visit_of app arrival) 50 0 33 8 creation empty
      (new_response, false) _ refl

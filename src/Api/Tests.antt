-- ===== src/Api/Tests.antt =====
-- The upload of an update to a round that collects updates.
use deki_smpc_server.Prelude.{ℕ, ◌+◌, Text, true, Option, none, some, List, [], ◌∷◌, map, refl, ◌⊎◌}
use deki_smpc_server.Domain.States.{update_collection}
use deki_smpc_server.Domain.Topology.{start}
use deki_smpc_server.Domain.Models.{TensorPolicy, int64, equal_weighted}
use deki_smpc_server.Persistence.Schema.{Db, v1_0, empty}
use deki_smpc_server.Persistence.Rounds.{new_participant}
use deki_smpc_server.Storage.{Bytes, Disk, chunk, ended}
use deki_smpc_server.Worker.Inputs.{Libraries}
use deki_smpc_server.Api.Rounds.{Member}
use deki_smpc_server.Api.Updates.{Upload, Moments, Site, put_update}
use deki_smpc_server.Api.KeyTasks.{TaskUpload, TaskMoments, TaskService, put_key_task_artifact}
use deki_smpc_server.Api.Artifacts.{WasNotAdmitted, IsSafe, put_key_task_artifact-IsSafe}
use deki_smpc_server.Api.Uploads.{IsTidy, put_update-IsTidy}

abbrev pub checksum : Bytes → Text
checksum [] = 0
checksum (b ∷ bs) = b + checksum bs

abbrev pub load_number : Bytes → Option (List (Text × ℕ))
load_number [] = none
load_number (b ∷ bs) = some ((5, b) ∷ [])

abbrev pub numbers : Libraries
numbers = record {
  Tensor = ℕ;
  add_tensors = λ a b. a + b;
  is_int64 = λ a. true;
  shape_of = λ a. 1 ∷ [];
  load = load_number;
  save = λ items. map (λ x. x.1) items;
  sha256 = checksum;
  parse_hex = λ t. some t;
  to_hex = λ n. n;
}

abbrev pub collecting : Db
collecting = record empty {
  rounds =
      record {
        round_id = 7;
        federation_id = 50;
        protocol_version = v1_0;
        model_schema_hash = 60;
        model_schema = record {
          aggregation_policy = equal_weighted;
          entries =
              record { name = 5; shape = 1 ∷ []; dtype = int64; policy = TensorPolicy.sum } ∷ [];
          precision_bits = 16;
        };
        participant_manifest_hash = 61;
        participants = 1 ∷ 2 ∷ [];
        expected_count = 2;
        aggregation_policy = equal_weighted;
        precision_bits = 16;
        state = update_collection;
        state_version = 3;
        created_at = 10;
        deadline_at = 1010;
        completed_at = none;
        retention_at = 5010;
        failure_code = none;
        failure_detail = none;
      }
      ∷ [];
  participants = new_participant 7 10 1 ∷ new_participant 7 10 2 ∷ [];
}

abbrev pub no_files : Disk
no_files f = none

abbrev upload : Upload
upload = record {
  schema_hash = some 60;
  integrity_tag = some 500;
  tag_length = some 16;
  idem_key = 205;
  body = chunk (30 ∷ []) ended;
  object_id = 400;
  job_id = 90;
}

abbrev moments : Moments
moments = record {
  now = 40;
  later = 40;
  last = 40;
  recorded = 41;
  moved = 41;
  before_participant = λ s. s;
  before_record = λ s. s;
}

abbrev pub uploader : Member
uploader = record { federation_id = 50; client_id = 1; signing_public_key = 71 }

abbrev pub site : Site
site = record { db = collecting; disk = no_files }

put_update-IsTidy_example :
    IsTidy numbers
      (λ d t. d + t)
      100
      7
      uploader
      upload
      moments
      no_files
      (put_update numbers (λ d t. d + t) 100 7 uploader upload moments site)
put_update-IsTidy_example =
    put_update-IsTidy numbers (λ d t. d + t) 100 7 uploader upload moments site refl refl

abbrev task_service : TaskService
task_service = record {
  sha256 = checksum;
  verifies = λ row who value signature. true;
  request_digest = λ value signature content. content;
  text_of = λ r. [];
  max_bytes = 100;
}

abbrev task_upload : TaskUpload
task_upload = record {
  task_id = start 0;
  metadata = some (record { nonce_text = 9; nonce = some (9 ∷ []); equals = λ value. true });
  signature = some 70;
  idem_key = 206;
  body = chunk (30 ∷ []) ended;
  object_id = 401;
}

abbrev task_moments : TaskMoments
task_moments = record {
  now = 40;
  later = 40;
  last = 40;
  recorded = 41;
  rejected_at = 42;
  before_participant = λ s. s;
  before_plan = λ s. s;
  before_record = λ s. s;
  before_failure = λ s. s;
}

put_key_task_artifact-IsSafe_example :
    WasNotAdmitted task_service 7 uploader task_upload task_moments site
      (put_key_task_artifact task_service 7 uploader task_upload task_moments site)
    ⊎ IsSafe task_service 7 uploader task_upload task_moments no_files
        (put_key_task_artifact task_service 7 uploader task_upload task_moments site)
put_key_task_artifact-IsSafe_example =
    put_key_task_artifact-IsSafe task_service 7 uploader task_upload task_moments site refl refl

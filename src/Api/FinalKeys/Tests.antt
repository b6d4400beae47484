-- ===== src/Api/FinalKeys/Tests.antt =====
-- The root of a tree publishes a final key.
use deki_smpc_server.Prelude.{true, some, List, [], ◌∷◌, ℕ, zero, suc, map}
use deki_smpc_server.Domain.States.{key_aggregation}
use deki_smpc_server.Domain.Topology.{start}
use deki_smpc_server.Persistence.Schema.{Db, RoundRow, v1_1}
use deki_smpc_server.Api.Updates.{Site}
use deki_smpc_server.Storage.{chunk, ended}
use deki_smpc_server.Api.Tests.{checksum, collecting, no_files}
use deki_smpc_server.Api.Visits.{Visit}
use deki_smpc_server.Api.FinalKeys.{FinalUpload, FinalService}

abbrev service : FinalService
service = record {
  codec = record {
    decoded_length = λ key. some 32;
    verifies = λ key where_ value signature. true;
    digest = λ payload. 80;
    schema_digest = λ schema. 60;
    manifest_digest = λ entries. 61;
  };
  sha256 = checksum;
  request_digest = λ value signature content. content;
  text_of = λ r. [];
  max_bytes = 100;
}

-- A round whose clients aggregate the key, with the uploader at the root of its plan.
abbrev aggregating : Db
aggregating = record collecting {
  rounds =
      map {A = RoundRow} (λ r. record r { state = key_aggregation; protocol_version = v1_1 })
        collecting.rounds;
  tree_plans =
      record {
        round_id = 7;
        plan_hash = 62;
        plan = record {
          participants = 1 ∷ 2 ∷ [];
          groups = [];
          tasks = [];
          root_client_id = 1;
          root_task_id = start 0;
          tree_levels = 0;
        };
        manifest = [];
        created_at = 20;
      }
      ∷ [];
}

abbrev site : Site
site = record { db = aggregating; disk = no_files }

abbrev bytes : ℕ → List ℕ
bytes zero = []
bytes (suc n) = 9 ∷ bytes n

abbrev upload : FinalUpload
upload = record {
  metadata = some (record { nonce_text = 9; nonce = some (bytes 12); equals = λ value. true });
  signature = some 70;
  idem_key = 207;
  body = chunk (bytes 20) ended;
  object_id = 402;
}

abbrev quiet_visit : Visit
quiet_visit = record {
  now = 40;
  later = 40;
  last = 40;
  recorded = 41;
  moved = 41;
  failed_at = 42;
  before_participant = λ s. s;
  before_method = λ s. s;
  before_failure = λ s. s;
}

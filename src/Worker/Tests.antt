-- ===== src/Worker/Tests.antt =====
-- The worker's theorems on a store with one job of two inputs, and on one with a round to purge.
use deki_smpc_server.Prelude.{
  ℕ, ◌+◌, ◌%◌, ◌≡◌, refl, Text, true, Option, none, some, List, [], ◌∷◌, map, ◌==◌, if◌then◌else◌,
}
use deki_smpc_server.Prelude.Rows.{select, select_one, count_where, update_where}
use deki_smpc_server.Domain.States.{completed, aggregating}
use deki_smpc_server.Domain.Models.{TensorSchema, TensorPolicy, int64, equal_weighted}
use deki_smpc_server.Persistence.Schema.{
  Db, RoundRow, ParticipantRow, ArtifactType, JobRow, JobState, v1_0, empty,
}
use deki_smpc_server.Persistence.Tx
use deki_smpc_server.Persistence.Statements.{update_jobs}
use deki_smpc_server.Persistence.Rounds.{new_participant}
use deki_smpc_server.Persistence.Updates.{JobInput, new_job}
use deki_smpc_server.Persistence.Jobs.{renew_job}
use deki_smpc_server.Storage.{Bytes, Disk, temporary, final}
use deki_smpc_server.Storage.Reading.{file_digest, read_loop}
use deki_smpc_server.Worker.Runs.{World, got, transact, read_clock, read_file, ◌>>=◌}
use deki_smpc_server.Worker.Inputs.{
  Libraries, Sums, field_prime, lookup, expected_of, names_within, same_shape, shapes_match,
  add_all, nothing_added, check_tensors, field_tag, load_verified, add_input, add_inputs,
}
use deki_smpc_server.Worker.Jobs.{Settings, Drawn}
use deki_smpc_server.Worker.Accepted.{Part, AreAccepted}
use deki_smpc_server.Worker.Sums.{sum_at, total_tags, aggregate_at, add_inputs_sum}
use deki_smpc_server.Worker.Maintenance.Purges.{alone}

abbrev checksum : Bytes → Text
checksum [] = 0
checksum (b ∷ bs) = b + checksum bs

-- A file is one tensor, a number, at the name 5.
abbrev load_number : Bytes → Option (List (Text × ℕ))
load_number [] = none
load_number (b ∷ bs) = some ((5, b) ∷ [])

abbrev numbers : Libraries
numbers = record {
  Tensor = ℕ;
  add_tensors = λ a b. a + b;
  is_int64 = λ a. true;
  shape_of = λ a. 1 ∷ [];
  load = load_number;
  save = λ items. map (λ x. x.1) items;
  sha256 = checksum;
  parse_hex = λ t. some t;
  to_hex = λ n. n;
}

abbrev one_entry : List TensorSchema
one_entry = record { name = 5; shape = 1 ∷ []; dtype = int64; policy = TensorPolicy.sum } ∷ []

abbrev input : (path digest tag : ℕ) → JobInput
input path digest tag = record {
  artifact = record {
    artifact_id = path;
    round_id = 7;
    client_id = some path;
    artifact_type = ArtifactType.update;
    path = path;
    digest = digest;
    size = 1;
    created_at = 40;
  };
  integrity_tag = some tag;
}

abbrev two_inputs : List JobInput
two_inputs = input 1 30 500 ∷ input 2 12 501 ∷ []

abbrev two_files : Disk
two_files (temporary id) = none
two_files (final id) = if id == 1 then some (30 ∷ []) else some (12 ∷ [])

abbrev claimed_job : JobRow
claimed_job = record {
  job_id = 90;
  round_id = 7;
  state = JobState.claimed;
  attempts = 1;
  max_attempts = 3;
  claimed_at = some 50;
  lease_until = some 110;
  claim_token = some 91;
  result_integrity_tag = none;
  last_error = none;
}

abbrev at_work : World
at_work = alone (record empty { jobs = claimed_job ∷ [] }) two_files (51 ∷ 52 ∷ [])

abbrev done_work : World
done_work =
    alone (record empty { jobs = record claimed_job { lease_until = some 112 } ∷ [] }) two_files []

abbrev both : Sums numbers
both = record { aggregate = some ((5, 42) ∷ []); tag = 1001 }

two_inputs_added :
    add_inputs numbers 90 91 60 one_entry two_inputs (nothing_added numbers) at_work
    ≡ (got both, done_work)
unfolding add_inputs add_input load_verified check_tensors field_tag names_within shapes_match
    same_shape expected_of lookup add_all file_digest read_loop renew_job update_jobs select
    select_one count_where update_where transact read_clock read_file ◌>>=◌
    deki_smpc_server.Persistence.Tx.◌>>=◌
two_inputs_added = refl

add_inputs_sum_example :
    (ps : List (Part numbers)) × AreAccepted numbers 90 91 60 one_entry two_inputs ps at_work
      done_work
    × (1001 ≡ total_tags numbers ps % field_prime)
    × ((n : Text) → aggregate_at numbers n (some ((5, 42) ∷ [])) ≡ sum_at numbers n ps)
add_inputs_sum_example =
    add_inputs_sum numbers 90 91 60 one_entry two_inputs both at_work done_work two_inputs_added

abbrev old_round : RoundRow
old_round = record {
  round_id = 7;
  federation_id = 50;
  protocol_version = v1_0;
  model_schema_hash = 60;
  model_schema = record {
    aggregation_policy = equal_weighted;
    entries = one_entry;
    precision_bits = 16;
  };
  participant_manifest_hash = 61;
  participants = 1 ∷ 2 ∷ [];
  expected_count = 2;
  aggregation_policy = equal_weighted;
  precision_bits = 16;
  state = completed;
  state_version = 6;
  created_at = 10;
  deadline_at = 1010;
  completed_at = some 60;
  retention_at = 5060;
  failure_code = none;
  failure_detail = none;
}

abbrev old_store : Db
old_store = record empty {
  rounds = old_round ∷ [];
  artifacts = (input 1 30 500).artifact ∷ (input 2 12 501).artifact ∷ [];
}

abbrev worker_settings : Settings
worker_settings = record {
  lease_seconds = 60;
  max_bytes = 100;
  leases = record { expired = []; exhausted = []; returned = [] };
  text_of = λ e. [];
}

abbrev drawn : Drawn
drawn = record { claim_token = 91; object_id = 402 }

abbrev client : Text → (tag : Text) → ParticipantRow
client id tag = record (new_participant 7 10 id) { integrity_tag = some tag }

abbrev waiting_store : Db
waiting_store = record empty {
  rounds = record old_round { state = aggregating; state_version = 4; completed_at = none } ∷ [];
  participants = client 1 500 ∷ client 2 501 ∷ [];
  artifacts = (input 1 30 500).artifact ∷ (input 2 12 501).artifact ∷ [];
  jobs = new_job 90 7 ∷ [];
}

abbrev waiting : World
waiting = alone waiting_store two_files (50 ∷ 51 ∷ 52 ∷ 53 ∷ 54 ∷ 55 ∷ [])

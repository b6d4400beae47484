-- ===== src/Persistence/Updates.antt =====
-- The updates and the result in database.py: `record_update`, `job_inputs`, `result` and
-- `complete_participant`.
use deki_smpc_server.Prelude.{
  ℕ, Text, Bool, true, false, not, ◌&&◌, ◌||◌, Option, none, some, List, [], ◌∷◌, leb, ◌==◌,
  if◌then◌else◌, same,
}
use mathlib.Core.List.{foldr}
use deki_smpc_server.Prelude.Rows.{select, select_one}
use deki_smpc_server.Domain.States.{
  update_collection, aggregating, result_ready, completed, state_eq,
}
use deki_smpc_server.Persistence.Schema.{
  RoundRow, ParticipantRow, ParticipantState, update_submitted, ArtifactRow, ArtifactType,
  ArtifactType-discrete, JobRow, JobState, StoredObject, caller, Response, accepted,
  accepted_artifact, Operation, update_accepted, update_barrier, participant_completed,
  completion_barrier,
}
use deki_smpc_server.Persistence.Tx.{
  Tx, round_conflict, type_error, pure, gets, raise_if, when, ◌>>=◌, ◌>>◌,
}
use deki_smpc_server.Persistence.Statements.{
  round_of, participant_of, update_participant, insert_artifact, insert_job, note, remember,
  replay_or, replay_alone, need,
}
use deki_smpc_server.Persistence.Transition.{transition}
use deki_smpc_server.Persistence.Setup.{is_some, filled}
use deki_smpc_server.Persistence.KeyTasks.{artifact_row, has_id}

abbrev pub is_update_of : Text → Text → ArtifactRow → Bool
is_update_of round client a =
    a.round_id == round
    && has_id a.client_id client
    && same ArtifactType-discrete a.artifact_type ArtifactType.update

-- A new upload for a participant whose update is already there.
unfoldable pub repeat_update :
    (round_id client_id : Text)
    → ParticipantRow
    → StoredObject
    → (tag idem_key request_digest : Text) → (now : ℕ) → Tx (Response × Bool)
repeat_update round_id client_id p stored tag idem_key request_digest now = do
  raise_if (not (has_id p.update_digest stored.digest) || not (has_id p.integrity_tag tag))
      round_conflict
  artifact ← need (λ s. select_one (is_update_of round_id client_id) s.artifacts) type_error
  let response = accepted_artifact artifact.artifact_id artifact.digest artifact.size
  remember client_id round_id Operation.update idem_key request_digest response now
  pure (response, true)

-- A row of the jobs table as it is inserted.
abbrev pub new_job : Text → Text → JobRow
new_job job_id round_id = record {
  job_id = job_id;
  round_id = round_id;
  state = JobState.ready;
  attempts = 0;
  max_attempts = 3;
  claimed_at = none;
  lease_until = none;
  claim_token = none;
  result_integrity_tag = none;
  last_error = none;
}

-- The first update of a participant, and the barrier. `job_id` is the new UUID.
unfoldable pub first_update :
    RoundRow
    → (round_id client_id : Text) → StoredObject
    → (tag idem_key request_digest job_id : Text) → (now later : ℕ) → Tx (Response × Bool)
first_update round_row round_id client_id stored tag idem_key request_digest job_id now later = do
  let response = accepted_artifact stored.object_id stored.digest stored.size
  insert_artifact (artifact_row stored round_id (some client_id) ArtifactType.update now)
  update_participant round_id client_id (λ p. record p {
    update_artifact_id = some stored.object_id;
    update_digest = some stored.digest;
    integrity_tag = some tag;
    state = update_submitted;
    last_seen = now;
  })
  remember client_id round_id Operation.update idem_key request_digest response now
  note round_id (caller client_id) update_accepted now none
  count ← gets (filled round_id (λ p. is_some p.update_artifact_id))
  when (count == round_row.expected_count && state_eq round_row.state update_collection) do
    transition round_id update_collection aggregating (caller client_id) update_barrier none later
    insert_job (new_job job_id round_id)
  pure (response, false)

unfoldable pub record_update :
    (round_id client_id : Text)
    → StoredObject
    → (tag idem_key request_digest job_id : Text) → (now later : ℕ) → Tx (Response × Bool)
record_update round_id client_id stored tag idem_key request_digest job_id now later =
    replay_or client_id round_id Operation.update idem_key request_digest do
      round_row ← need (round_of round_id) round_conflict
      raise_if
          (not (state_eq round_row.state update_collection || state_eq round_row.state aggregating))
          round_conflict
      participant ← need (participant_of round_id client_id) type_error
      if is_some participant.update_digest
          then repeat_update round_id client_id participant stored tag idem_key request_digest now
          else first_update round_row round_id client_id stored tag idem_key request_digest job_id
              now later

-- An input of the aggregation: the artifact and the participant's tag.
pub record JobInput : Type 0 where
  pub artifact : ArtifactRow
  pub integrity_tag : Option Text

-- The rows that the join gives for one artifact.
join_tags : ArtifactRow → List ParticipantRow → List JobInput
join_tags a [] = []
join_tags a (p ∷ ps) =
    let rest = join_tags a ps in
    if p.round_id == a.round_id && has_id a.client_id p.client_id
    then record { artifact = a; integrity_tag = p.integrity_tag } ∷ rest
    else rest

abbrev client_le : Option Text → Option Text → Bool
client_le none b = true
client_le (some a) none = false
client_le (some a) (some b) = leb a b

insert_input : JobInput → List JobInput → List JobInput
insert_input x [] = x ∷ []
insert_input x (y ∷ ys) =
    let rest = insert_input x ys in
    if client_le x.artifact.client_id y.artifact.client_id then x ∷ y ∷ ys else y ∷ rest

-- `SELECT a.*,p.integrity_tag … WHERE a.artifact_type='update' ORDER BY a.client_id`.
inputs_of : List ArtifactRow → List ParticipantRow → List JobInput
unfolding join_tags insert_input
inputs_of [] ps = []
inputs_of (a ∷ rest) ps = foldr insert_input (inputs_of rest ps) (join_tags a ps)

abbrev is_update_in : Text → ArtifactRow → Bool
is_update_in round a =
    a.round_id == round && same ArtifactType-discrete a.artifact_type ArtifactType.update

unfoldable pub job_inputs : (round_id : Text) → Tx (RoundRow × List JobInput)
unfolding inputs_of
job_inputs round_id = do
  round_row ← need (round_of round_id) type_error
  artifacts ← gets (λ s. select (is_update_in round_id) s.artifacts)
  participants ← gets (λ s. s.participants)
  pure (round_row, inputs_of artifacts participants)

abbrev pub job_state_eq : JobState → JobState → Bool
job_state_eq JobState.ready JobState.ready = true
job_state_eq JobState.claimed JobState.claimed = true
job_state_eq JobState.completed JobState.completed = true
job_state_eq JobState.failed JobState.failed = true
job_state_eq _ _ = false

abbrev pub is_result_in : Text → ArtifactRow → Bool
is_result_in round a =
    a.round_id == round && same ArtifactType-discrete a.artifact_type ArtifactType.result

-- `result`: the artifact with the aggregate tag of the completed job.
unfoldable pub result : (round_id : Text) → Tx (Option (ArtifactRow × Option Text))
result round_id = do
  artifact ← gets (λ s. select_one (is_result_in round_id) s.artifacts)
  job ← gets (λ s.
      select_one (λ j. j.round_id == round_id && job_state_eq j.state JobState.completed) s.jobs)
  pure (elim artifact [
    | none ↦ none
    | some a ↦ elim job [ none ↦ none | some j ↦ some (a, j.result_integrity_tag) ]
  ])

-- `complete_participant` tests the state of the round before it looks for a record.
unfoldable pub complete_participant :
    (round_id client_id idem_key digest : Text) → (now later : ℕ) → Tx Response
complete_participant round_id client_id idem_key digest now later = do
  round_row ← need (round_of round_id) round_conflict
  raise_if (not (state_eq round_row.state result_ready || state_eq round_row.state completed))
      round_conflict
  replay_alone client_id round_id Operation.complete idem_key digest do
    update_participant round_id client_id
        (λ p. record p { completed = true; state = ParticipantState.completed; last_seen = now })
    remember client_id round_id Operation.complete idem_key digest accepted now
    note round_id (caller client_id) participant_completed now none
    count ← gets (filled round_id (λ p. p.completed))
    when (count == round_row.expected_count && state_eq round_row.state result_ready) (
        transition round_id result_ready completed (caller client_id) completion_barrier none later)
    pure accepted

-- ===== src/Persistence/Jobs.antt =====
-- The aggregation jobs in database.py: `claim_job`, `renew_job`, `complete_job` and `fail_job`.
use deki_smpc_server.Prelude.{
  ℕ, ◌+◌, Text, Message, Bool, true, false, not, ◌&&◌, Option, none, some, leb, ltb, ◌==◌,
  if◌then◌else◌, take,
}
use deki_smpc_server.Prelude.Rows.{select, select_one, count_where, any}
use deki_smpc_server.Domain.States.{aggregating, result_ready, failed, state_eq}
use deki_smpc_server.Persistence.Schema.{
  Db, ArtifactType, JobRow, JobState, StoredObject, worker, message, aggregation_lease_expired,
  aggregation_lease_exhausted, aggregation_completed, aggregation_failed,
}
use deki_smpc_server.Persistence.Tx.{
  Tx, lease_not_positive, worker_claim_lost, worker_result_conflict, type_error, pure, gets,
  raise_if, when, if_found, for_each, ◌>>=◌, ◌>>◌,
}
use deki_smpc_server.Persistence.Statements.{round_of, insert_artifact, update_jobs, note, need}
use deki_smpc_server.Persistence.Transition.{transition}
use deki_smpc_server.Persistence.KeyTasks.{artifact_row, has_id}
use deki_smpc_server.Persistence.Updates.{job_state_eq, is_result_in}

-- The condition of the stale claims; `now - lease_seconds` is brought to the other side.
abbrev pub is_stale : ℕ → ℕ → JobRow → Bool
is_stale now lease_seconds j = job_state_eq j.state JobState.claimed && elim j.lease_until [
  | some t ↦ leb t now
  | none ↦ elim j.claimed_at [ some t ↦ leb (t + lease_seconds) now | none ↦ false ]
]

abbrev pub is_claimed_job : Text → JobRow → Bool
is_claimed_job job j = j.job_id == job && job_state_eq j.state JobState.claimed

-- The errors recorded for a lease: "worker lease expired", and "… after maximum attempts".
pub record LeaseTexts : Type 0 where
  pub expired : Message
  pub exhausted : Message
  pub returned : Message

abbrev pub back_to_ready : Message → JobRow → JobRow
back_to_ready error j = record j {
  state = JobState.ready;
  claimed_at = none;
  lease_until = none;
  claim_token = none;
  last_error = some error;
}

abbrev pub give_up : Message → JobRow → JobRow
give_up error j = record j {
  state = JobState.failed;
  lease_until = none;
  claim_token = none;
  last_error = some error;
}

-- The body of the loop over the stale claims; `later` is the time of the transition.
unfoldable pub reclaim : LeaseTexts → (now later : ℕ) → JobRow → Tx Unit
reclaim texts now later j =
    if ltb j.attempts j.max_attempts
    then (do
      update_jobs (is_claimed_job j.job_id) (back_to_ready texts.expired)
      note j.round_id worker aggregation_lease_expired now (some (message texts.returned)))
    else do
      update_jobs (is_claimed_job j.job_id) (give_up texts.exhausted)
      row ← need (round_of j.round_id) type_error
      when (state_eq row.state aggregating) (
          transition j.round_id row.state failed worker aggregation_lease_exhausted
            (some texts.exhausted) later)

-- The join with the round: in aggregation, and its deadline not passed.
unfoldable pub is_claimable : ℕ → Db → JobRow → Bool
is_claimable now s j =
    job_state_eq j.state JobState.ready
    && ltb j.attempts j.max_attempts
    && elim (round_of j.round_id s) [
      | none ↦ false
      | some r ↦ state_eq r.state aggregating && ltb now r.deadline_at
    ]

abbrev pub is_ready_job : Text → JobRow → Bool
is_ready_job job j = j.job_id == job && job_state_eq j.state JobState.ready

abbrev pub claim : ℕ → ℕ → Text → JobRow → JobRow
claim now lease_seconds token j = record j {
  state = JobState.claimed;
  attempts = j.attempts + 1;
  claimed_at = some now;
  lease_until = some (now + lease_seconds);
  claim_token = some token;
}

-- `claim_job`: stale claims first, then the oldest job that may be claimed. `token` is the new UUID,
-- and `moved_at` gives the time at which the loop fails the round of a stale job.
unfoldable pub claim_job :
    LeaseTexts
    → (lease_seconds : ℕ) → (token : Text) → (now : ℕ) → (moved_at : Text → ℕ) → Tx (Option JobRow)
unfolding is_claimable
claim_job texts lease_seconds token now moved_at = do
  raise_if (lease_seconds == 0) lease_not_positive
  stale ← gets (λ s. select (is_stale now lease_seconds) s.jobs)
  for_each stale (λ j. reclaim texts now (moved_at j.job_id) j)
  found ← gets (λ s. select_one (is_claimable now s) s.jobs)
  if_found found
      (λ j. do
        rowcount ← gets (λ s. count_where (is_ready_job j.job_id) s.jobs)
        update_jobs (is_ready_job j.job_id) (claim now lease_seconds token)
        if not (rowcount == 1) then pure none else do
          row ← need (λ s. select_one (λ k. k.job_id == j.job_id) s.jobs) type_error
          pure (some row))
      (pure none)

abbrev pub is_claim : Text → Text → JobRow → Bool
is_claim job token j = is_claimed_job job j && has_id j.claim_token token

unfoldable pub renew_job : (job_id claim_token : Text) → (lease_seconds : ℕ) → (now : ℕ) → Tx Unit
renew_job job_id claim_token lease_seconds now = do
  raise_if (lease_seconds == 0) lease_not_positive
  rowcount ← gets (λ s. count_where (is_claim job_id claim_token) s.jobs)
  update_jobs (is_claim job_id claim_token)
      (λ j. record j { lease_until = some (now + lease_seconds) })
  raise_if (not (rowcount == 1)) worker_claim_lost

abbrev pub is_claim_of : Text → Text → Text → JobRow → Bool
is_claim_of job round token j = is_claim job token j && j.round_id == round

abbrev pub has_token : Text → Text → JobRow → Bool
has_token job token j = j.job_id == job && has_id j.claim_token token

abbrev pub finish : Text → JobRow → JobRow
finish tag j = record j {
  state = JobState.completed;
  lease_until = none;
  claim_token = none;
  result_integrity_tag = some tag;
  last_error = none;
}

-- The result artifact, or the check against the one that is there.
unfoldable pub publish_result : (round_id : Text) → StoredObject → (now : ℕ) → Tx Unit
publish_result round_id stored now = do
  existing ← gets (λ s. select_one (is_result_in round_id) s.artifacts)
  if_found existing (λ a. raise_if (not (a.digest == stored.digest)) worker_result_conflict)
      (insert_artifact (artifact_row stored round_id none ArtifactType.result now))

unfoldable pub complete_job :
    (job_id round_id claim_token : Text) → StoredObject → (tag : Text) → (now later : ℕ) → Tx Unit
complete_job job_id round_id claim_token stored tag now later = do
  owned ← gets (λ s. any (is_claim_of job_id round_id claim_token) s.jobs)
  raise_if (not owned) worker_claim_lost
  publish_result round_id stored now
  row ← need (round_of round_id) type_error
  raise_if (not (state_eq row.state aggregating)) worker_claim_lost
  transition round_id row.state result_ready worker aggregation_completed none later
  update_jobs (has_token job_id claim_token) (finish tag)

-- `fail_job`; it returns whether the claim was the caller's.
unfoldable pub fail_job :
    (job_id round_id claim_token : Text)
    → (detail : Message) → (retryable : Bool) → (now : ℕ) → Tx Bool
fail_job job_id round_id claim_token detail retryable now = do
  job ← gets (λ s. select_one (is_claim_of job_id round_id claim_token) s.jobs)
  if_found job
      (λ j.
        if retryable && ltb j.attempts j.max_attempts
        then (do
          update_jobs (has_token job_id claim_token) (back_to_ready (take 256 detail))
          pure true)
        else do
          update_jobs (has_token job_id claim_token) (give_up (take 256 detail))
          row ← need (round_of round_id) type_error
          when (state_eq row.state aggregating) (
              transition round_id row.state failed worker aggregation_failed
                (some (take 256 detail)) now)
          pure true)
      (pure false)

-- ===== src/Worker/Jobs.antt =====
-- `run_once` of the worker: one job, from the claim to its completion or failure.
use deki_smpc_server.Prelude.{
  ℕ, Text, Message, Bool, Option, true, false, not, none, some, List, [], ◌∷◌, leb, length, ◌==◌,
  if◌then◌else◌,
}
use deki_smpc_server.Persistence.Schema.{JobRow, StoredObject}
use deki_smpc_server.Persistence.Jobs.{LeaseTexts, claim_job, renew_job, complete_job, fail_job}
use deki_smpc_server.Persistence.Updates.{job_inputs}
use deki_smpc_server.Storage.{stored, rejected, too_large, put_bytes, delete}
use deki_smpc_server.Worker.Runs.{
  World, Except, Run, Failure, got, fails, is_retryable, os_error, submission_count_changed,
  no_inputs, artifact_too_large, interfere, return, from_option, transact, read_clock, fail_if,
  ◌>>=◌, ◌>>◌,
}
use deki_smpc_server.Worker.Inputs.{Libraries, nothing_added, add_inputs}

-- What is fixed for a worker: the lease, the limit of the store, and the texts that are recorded.
pub record Settings : Type 0 where
  pub lease_seconds : ℕ
  pub max_bytes : ℕ
  pub leases : LeaseTexts
  pub text_of : Failure → Message

-- The identifiers that a run draws.
pub record Drawn : Type 0 where
  pub claim_token : Text
  pub object_id : Text

module _ (k : Libraries) where
  -- `{name: … for name in sorted(aggregate)}`.
  insert_named : Text × k.Tensor → List (Text × k.Tensor) → List (Text × k.Tensor)
  insert_named x [] = x ∷ []
  insert_named x (y ∷ ys) =
      let rest = insert_named x ys in if leb x.0 y.0 then x ∷ y ∷ ys else y ∷ rest

  unfoldable pub by_name : List (Text × k.Tensor) → List (Text × k.Tensor)
  unfolding insert_named
  by_name [] = []
  by_name (x ∷ xs) = insert_named x (by_name xs)

  -- `store.put_bytes`: a `ValueError` above the limit, and a `FileExistsError`, which is an `OSError`,
  -- where the temporary file is there.
  unfoldable pub keep : ℕ → Text → List ℕ → Run StoredObject
  keep max_bytes object_id content w =
      let (result, disk) = put_bytes k.sha256 max_bytes object_id content (interfere w).disk in
      let after = record (interfere w) { disk = disk } in
      elim result [
        | stored o ↦ (got o, after)
        | rejected e ↦ (fails (elim e [ too_large ↦ artifact_too_large | _ ↦ os_error ]), after)
      ]

  -- `try: … except Exception: self.store.delete(stored.path); raise`.
  unfoldable pub or_delete : StoredObject → Run Unit → Run Unit
  or_delete o m w =
      let (result, v) = m w in
      elim result [
        | got a ↦ (got a, v)
        | fails e ↦ (fails e, record v { disk = delete o.path v.disk })
      ]

  module _ (settings : Settings) (drawn : Drawn) where
    -- The body of the `try`.
    unfoldable pub attempt : JobRow → Run Unit
    unfolding by_name
    attempt job = do
      (round_row, artifacts) ← transact (job_inputs job.round_id)
      fail_if (not (length artifacts == round_row.expected_count)) submission_count_changed
      sums ←
          add_inputs k job.job_id drawn.claim_token settings.lease_seconds
            round_row.model_schema.entries artifacts (nothing_added k)
      aggregate ← from_option sums.aggregate no_inputs
      now ← read_clock
      transact (renew_job job.job_id drawn.claim_token settings.lease_seconds now)
      o ← keep settings.max_bytes drawn.object_id (k.save (by_name aggregate))
      published ← read_clock
      moved ← read_clock
      or_delete o (
          transact (
            complete_job job.job_id job.round_id drawn.claim_token o (k.to_hex sums.tag) published
              moved))

    unfoldable pub record_failure : JobRow → Failure → Run Bool
    record_failure job e = do
      now ← read_clock
      transact (
          fail_job job.job_id job.round_id drawn.claim_token (settings.text_of e) (is_retryable e)
            now)
      return true

    -- The `except` clauses: the failure is recorded, to be retried or not. An exception of the store
    -- in them is passed on.
    unfoldable pub end_job : JobRow → Except (Unit {0}) × World → Except Bool × World
    unfolding record_failure
    end_job job (got a, w) = (got true, w)
    end_job job (fails e, w) = record_failure job e w

    -- `if not job: return False`, and the `try`.
    unfoldable pub work_on : Option JobRow → Run Bool
    unfolding end_job attempt
    work_on none = return false
    work_on (some job) = λ w. end_job job (attempt job w)

    -- `run_once`. The row that `claim_job` returns holds the token that it drew. `moved_at` gives the
    -- times at which it fails the rounds of stale jobs.
    unfoldable pub run_once : (moved_at : Text → ℕ) → Run Bool
    unfolding work_on
    run_once moved_at = do
      now ← read_clock
      claimed ←
          transact (claim_job settings.leases settings.lease_seconds drawn.claim_token now moved_at)
      work_on claimed

-- ===== src/Worker/Results.antt =====
-- What a run of `run_once` does: with no job, with one that it publishes, and with one that fails.
use deki_smpc_server.Prelude.{ℕ, ◌≡◌, ◌⊎◌, Text, Bool, true, false, Option, none, some}
use deki_smpc_server.Persistence.Schema.{JobRow}
use deki_smpc_server.Persistence.Jobs.{claim_job, fail_job}
use deki_smpc_server.Worker.Runs.{World, Failure, is_retryable, transact, read_clock, got, fails}
use deki_smpc_server.Worker.Inputs.{Libraries}
use deki_smpc_server.Worker.Jobs.{Settings, Drawn, attempt}
use deki_smpc_server.Worker.Published.{IsPublished}

module _ (k : Libraries) (settings : Settings) (drawn : Drawn) where
  -- The attempt failed, and then the store was told of this failure, and took it.
  pub record WasFailed (job : JobRow) (w v : World) : Type 0 where
    pub failure : Failure
    pub failed : World
    pub fails_with : attempt k settings drawn job w ≡ (fails failure, failed)
    pub now : ℕ
    pub clock : World
    pub reads_clock : read_clock failed ≡ (got now, clock)
    pub owned : Bool
    pub recorded :
        transact
          (fail_job job.job_id job.round_id drawn.claim_token
            (settings.text_of failure)
            (is_retryable failure)
            now)
          clock
        ≡ (got owned, v)

  abbrev pub EndsWith : Bool → Option JobRow → World → World → Type 0
  EndsWith b none w v = (b ≡ false) × (v ≡ w)
  EndsWith b (some job) w v =
      (b ≡ true) × (IsPublished k settings drawn job w v ⊎ WasFailed job w v)

  -- A run read the clock, asked the store for a job, and went on with what it got.
  pub record HasRun (moved_at : Text → ℕ) (b : Bool) (w v : World) : Type 0 where
    pub now : ℕ
    pub clock : World
    pub reads_clock : read_clock w ≡ (got now, clock)
    pub job : Option JobRow
    pub working : World
    pub claims :
        transact
          (claim_job settings.leases settings.lease_seconds drawn.claim_token now moved_at)
          clock
        ≡ (got job, working)
    pub ends : EndsWith b job working v

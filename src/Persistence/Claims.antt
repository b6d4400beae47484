-- ===== src/Persistence/Claims.antt =====
-- The claims of the workers on the aggregation jobs: `complete_job` and `fail_job` end a claim.
use deki_smpc_server.Prelude.{ℕ, Text, Bool, false, List, [], ◌∷◌, ◌≡◌, refl, arith}
use deki_smpc_server.Prelude.Rows.{update_where, any}
use deki_smpc_server.Persistence.Schema.{Db, JobRow, StoredObject}
use deki_smpc_server.Persistence.Tx.{ok, err, worker_claim_lost, ◌>>=◌}
use deki_smpc_server.Persistence.Statements.{update_jobs}
use deki_smpc_server.Persistence.Ensures.{>>=-eq-ok}
use deki_smpc_server.Persistence.Jobs.{is_claim_of, has_token, finish, complete_job}

-- The caller holds the claim.
abbrev holds_claim : Text → Text → Text → Db → Bool
holds_claim job round token s = any (is_claim_of job round token) s.jobs

-- An update of the job that ends its claim.
released :
    (job round token : Text) (f : JobRow → JobRow) (xs : List JobRow)
    → ((j : JobRow) → is_claim_of job round token (f j) ≡ false)
    → any (is_claim_of job round token) (update_where (has_token job token) f xs) ≡ false
unfolding any update_where
released job round token f [] h = refl
released job round token f (j ∷ js) h = ground (arith, h j, released job round token f js h)

module _ (job_id round_id token : Text) where
  update_releases :
      (f : JobRow → JobRow) (s t : Db) (u : Unit)
      → ((j : JobRow) → is_claim_of job_id round_id token (f j) ≡ false)
      → update_jobs (has_token job_id token) f s ≡ ok (u, t)
      → holds_claim job_id round_id token t ≡ false
  unfolding update_jobs
  update_releases f s t u h e = ground (arith, released job_id round_id token f s.jobs h)

  -- Without the claim a completion is refused.
  unclaimed :
      (stored : StoredObject) (tag : Text) (now later : ℕ) (s : Db)
      → holds_claim job_id round_id token s ≡ false
      → complete_job job_id round_id token stored tag now later s ≡ err worker_claim_lost
  unfolding complete_job ◌>>=◌
  unclaimed stored tag now later s h = rw h refl

  finish_releases :
      (tag : Text) (j : JobRow) → is_claim_of job_id round_id token (finish tag j) ≡ false
  finish_releases tag j = ground arith

  completed_releases :
      (stored : StoredObject) (tag : Text) (now later : ℕ) (s t : Db) (a : Unit)
      → complete_job job_id round_id token stored tag now later s ≡ ok (a, t)
      → holds_claim job_id round_id token t ≡ false
  unfolding complete_job
  completed_releases stored tag now later s t a e =
      let owned = >>=-eq-ok _ _ s a t e in
      let checked = >>=-eq-ok _ _ owned.1 a t owned.3 in
      let published = >>=-eq-ok _ _ checked.1 a t checked.3 in
      let found = >>=-eq-ok _ _ published.1 a t published.3 in
      let open_round = >>=-eq-ok _ _ found.1 a t found.3 in
      let moved_round = >>=-eq-ok _ _ open_round.1 a t open_round.3 in
      update_releases (finish tag) moved_round.1 t a (finish_releases tag) moved_round.3

  -- A job is completed at most once under a claim: after a completion, a further one with the same
  -- token is refused, whatever its result.
  pub complete_job_once :
      (stored stored' : StoredObject) (tag tag' : Text) (now later now' later' : ℕ) (s t : Db)
      (a : Unit)
      → complete_job job_id round_id token stored tag now later s ≡ ok (a, t)
      → complete_job job_id round_id token stored' tag' now' later' t ≡ err worker_claim_lost
  complete_job_once stored stored' tag tag' now later now' later' s t a e =
      unclaimed stored' tag' now' later' t (completed_releases stored tag now later s t a e)

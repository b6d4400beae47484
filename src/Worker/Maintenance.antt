-- ===== src/Worker/Maintenance.antt =====
-- `run_maintenance` of the worker: it expires rounds, and then purges those whose retention has
-- passed, the files first.
use deki_smpc_server.Prelude.{ℕ, ◌+◌, Text, Message, List, [], ◌∷◌}
pub mod Rounds
pub mod Purges
pub mod Candidates
use deki_smpc_server.Persistence.Tx.{gets}
use deki_smpc_server.Persistence.Retention.{expire_rounds, retention_candidates, purge_round}
use deki_smpc_server.Storage.{Disk, delete}
use deki_smpc_server.Worker.Runs.{Run, got, return, transact, read_clock, ◌>>=◌, ◌>>◌}

-- `for path in paths: self.store.delete(path)`.
unfoldable pub delete_files : List Text → Disk → Disk
delete_files [] disk = disk
delete_files (path ∷ paths) disk = delete_files paths (delete path disk)

unfoldable pub remove_files : List Text → Run Unit
unfolding delete_files
remove_files paths w = (got tt, record w { disk = delete_files paths w.disk })

-- The loop over the candidates; `purged` counts.
unfoldable pub purge_all : List (Text × List Text) → (purged : ℕ) → Run ℕ
unfolding remove_files
purge_all [] purged = return purged
purge_all ((round_id, paths) ∷ rest) purged = do
  remove_files paths
  now ← read_clock
  transact (purge_round round_id now)
  purge_all rest (purged + 1)

unfoldable pub run_maintenance : Message → (moved_at : Text → ℕ) → Run ℕ
unfolding purge_all
run_maintenance deadline_text moved_at = do
  timestamp ← read_clock
  transact (expire_rounds deadline_text timestamp moved_at)
  now ← read_clock
  candidates ← transact (gets (retention_candidates now))
  purge_all candidates 0

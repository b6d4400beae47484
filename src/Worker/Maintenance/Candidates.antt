-- ===== src/Worker/Maintenance/Candidates.antt =====
-- The candidates of `retention_candidates` in the purge loop of the worker.
use deki_smpc_server.Prelude.{◌≤◌, ◌≡◌, Text, some, List, [], ◌∷◌}
use deki_smpc_server.Prelude.Rows.{select_one, count_where}
use deki_smpc_server.Persistence.Schema.{RoundRow}
use deki_smpc_server.Persistence.Statements.{is_round}

-- `round_id` is the PRIMARY KEY.
abbrev pub IsKeyed : List RoundRow → Type 0
IsKeyed rows = (id : Text) → count_where (is_round id) rows ≤ 1

abbrev AllFound : List RoundRow → List RoundRow → Type 0
AllFound rows [] = Unit
AllFound rows (r ∷ rs) = (select_one (is_round r.round_id) rows ≡ some r) × AllFound rows rs

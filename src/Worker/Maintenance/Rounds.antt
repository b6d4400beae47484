-- ===== src/Worker/Maintenance/Rounds.antt =====
-- `purge_round` in the worker's maintenance: when it returns, and what it leaves of the other rounds.
use deki_smpc_server.Prelude.{
  ℕ, ◌≤◌, ◌≡◌, refl, inl, inr, Text, true, false, Option, none, some, arith, ◌==◌, Option-cases,
}
use deki_smpc_server.Prelude.Rows.Laws.{select_one-delete_self, select_one-delete_ne}
use deki_smpc_server.Domain.States.{is_terminal}
use deki_smpc_server.Persistence.Schema.{Db, RoundRow}
use deki_smpc_server.Persistence.Tx.{ok, ◌>>=◌}
use deki_smpc_server.Persistence.Statements.{round_of}
use deki_smpc_server.Persistence.Retention.{purge_round, delete_round}

-- A round that may be purged at a time, or that is not there.
abbrev pub MayGo : ℕ → Option RoundRow → Type 0
MayGo now none = Unit
MayGo now (some r) = (is_terminal r.state ≡ true) × (r.retention_at ≤ now)

round_of-delete :
    (id other : Text) (s : Db)
    → id == other ≡ false
    → round_of other (delete_round id s) ≡ round_of other s
unfolding delete_round round_of
round_of-delete id other s differ = select_one-delete_ne _ _ s.rounds (λ r e. ground arith)

round_of-delete_self : (id : Text) (s : Db) → round_of id (delete_round id s) ≡ none
unfolding delete_round round_of
round_of-delete_self id s = select_one-delete_self _ _ s.rounds (λ r e. e)

-- A purge of a round that may go returns, without the round, and every other round is as before.
pub purge_round_total :
    (now t : ℕ) (id : Text) (s : Db)
    → now ≤ t
    → MayGo now (round_of id s)
    → (u : Db) × (purge_round id t s ≡ ok (tt, u))
      × (round_of id u ≡ none)
      × ((other : Text) → id == other ≡ false → round_of other u ≡ round_of other s)
unfolding purge_round ◌>>=◌
purge_round_total now t id s late may = elim (Option-cases (round_of id s)) [
  | inl missing ↦ (s, rw missing refl, missing, λ other differ. refl)
  | inr (r, found) ↦
      let (ended, due) = rw found at may in
      (
        delete_round id s,
        rw (found, ended) (ground arith),
        round_of-delete_self id s,
        λ other. round_of-delete id other s,
      )
]

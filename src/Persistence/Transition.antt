-- ===== src/Persistence/Transition.antt =====
-- `Database._transition`: the one statement that changes the state of a round.
use deki_smpc_server.Prelude.{
  ℕ, ◌+◌, ◌-◌, Text, Message, Bool, not, ◌&&◌, Option, some, ◌==◌, if◌then◌else◌,
}
use mathlib.Core.Option
use deki_smpc_server.Prelude.Rows.{count_where, update_where}
use deki_smpc_server.Domain.States.{
  RoundState, state_eq, is_terminal, is_failure, transition_allowed,
}
use deki_smpc_server.Persistence.Schema.{Db, RoundRow, Actor, Event, message}
use deki_smpc_server.Persistence.Tx.{
  Tx, illegal_transition, round_conflict, type_error, raise_if, gets, modify, ◌>>=◌, ◌>>◌,
}
use deki_smpc_server.Persistence.Statements.{is_round, round_of, insert_audit, need}

-- The SET clause.
unfoldable pub moved : RoundState → Event → Option Message → ℕ → RoundRow → RoundRow
moved target event detail now r = record r {
  state = target;
  state_version = r.state_version + 1;
  completed_at = if is_terminal target then some now else r.completed_at;
  retention_at =
      if is_terminal target then now + (r.retention_at - r.created_at) else r.retention_at;
  failure_code = if is_failure target then some event else r.failure_code;
  failure_detail = if is_failure target then detail else r.failure_detail;
}

-- The WHERE clause.
abbrev pub in_state : Text → RoundState → RoundRow → Bool
in_state id source r = is_round id r && state_eq r.state source

unfoldable pub update_rounds : (RoundRow → Bool) → (RoundRow → RoundRow) → Db → Db
update_rounds p f s = record s { rounds = update_where p f s.rounds }

unfoldable pub transition :
    Text → RoundState → RoundState → Actor → Event → Option Message → ℕ → Tx Unit
transition id source target actor event detail now = do
  raise_if (not (transition_allowed source target)) (illegal_transition source target)
  rowcount ← gets (λ s. count_where (in_state id source) s.rounds)
  modify (update_rounds (in_state id source) (moved target event detail now))
  raise_if (not (rowcount == 1)) round_conflict
  row ← need (round_of id) type_error
  insert_audit (record {
    round_id = id;
    actor = actor;
    event_type = event;
    state_version = some row.state_version;
    created_at = now;
    detail = Option.map message detail;
  })

-- ===== src/Persistence/Failure.antt =====
-- What `fail_round` does on a store whose rounds have distinct identifiers.
use deki_smpc_server.Prelude.{
  ℕ, ◌+◌, ◌≤◌, ◌≡◌, refl, Text, Message, true, false, Option, none, some, List, [], ◌∷◌, ◌++◌,
  arith, ◌==◌, Bool-cases, Option-cases, inl, inr, take,
}
use mathlib.Core.Option
use deki_smpc_server.Prelude.Rows.{select_one, count_where, update_where}
use deki_smpc_server.Prelude.Rows.Laws.{select_one-update, select_one_holds}
use deki_smpc_server.Prelude.Rows.Counts.{count-le}
use deki_smpc_server.Domain.States.{RoundState, failed, state_eq, is_terminal, transition_allowed}
use deki_smpc_server.Persistence.Schema.{Db, RoundRow, Actor, Event, caller, message, empty}
use deki_smpc_server.Persistence.Tx.{ok, if_found, when, ◌>>=◌}
use deki_smpc_server.Persistence.Statements.{is_round, round_of, need, insert_audit}
use deki_smpc_server.Persistence.Transition.{moved, in_state, update_rounds, transition}
use deki_smpc_server.Persistence.Rounds.{fail_round}
use deki_smpc_server.Persistence.Requests.{Request, Service, run}
use deki_smpc_server.Persistence.Audit.History.{run-IsAudited}

state_eq_self : (s : RoundState) → state_eq s s ≡ true
state_eq_self s = ground arith

may_fail : (s : RoundState) → is_terminal s ≡ false → transition_allowed s failed ≡ true
unfolding transition_allowed
may_fail s h = ground arith

counted :
    (id : Text) (rows : List RoundRow) (r : RoundRow)
    → select_one (is_round id) rows ≡ some r
    → count_where (is_round id) rows ≤ 1
    → count_where (in_state id r.state) rows ≡ 1
unfolding select_one count_where
counted id [] r e u = absurd (cc)
counted id (x ∷ xs) r e u = elim (Bool-cases (x.round_id == id)) [
  | inl hit ↦
      let e = rw hit at e in
      let same : x ≡ r = cc in
      let fewer = count-le (is_round id) (in_state id r.state) xs (λ y h. ground arith) in
      rw same (ground (arith, state_eq_self r.state, fewer))
  | inr miss ↦ ground (arith, counted id xs r)
]

module _ (id : Text) (actor : Actor) (event : Event) (detail : Option Message) (now : ℕ) (s : Db)
    (r : RoundRow) (found : round_of id s ≡ some r)
    (unique : count_where (is_round id) s.rounds ≤ 1) (running : is_terminal r.state ≡ false) where
  found_moved :
      select_one
        (is_round id)
        (update_where (in_state id r.state) (moved failed event detail now) s.rounds)
      ≡ some (moved failed event detail now r)
  unfolding round_of moved
  found_moved =
      let named = select_one_holds (is_round id) r s.rounds found in
      let change =
        select_one-update (is_round id) (in_state id r.state) (moved failed event detail now)
          s.rounds (λ x. refl) in
      let hit : in_state id r.state r ≡ true = ground (arith, named, state_eq_self r.state) in
      rw (change, found, hit) refl

  abbrev failed_store : Db
  failed_store = record (update_rounds (in_state id r.state) (moved failed event detail now) s) {
    audit_events =
        s.audit_events
        ++ record {
          round_id = id;
          actor = actor;
          event_type = event;
          state_version = some (r.state_version + 1);
          created_at = now;
          detail = Option.map message detail;
        }
          ∷ [];
  }

  failure_total : transition id r.state failed actor event detail now s ≡ ok (tt, failed_store)
  unfolding transition need ◌>>=◌ insert_audit update_rounds round_of moved
  failure_total =
      let one = counted id s.rounds r found unique in
      rw (may_fail r.state running, one, found_moved) refl

  failure_found : round_of id failed_store ≡ some (moved failed event detail now r)
  unfolding round_of update_rounds
  failure_found = found_moved

-- The round is not there, or it has ended.
abbrev pub IsOver : Option RoundRow → Type 0
IsOver none = Unit
IsOver (some r) = is_terminal r.state ≡ true

-- After any requests to a store that began empty, `fail_round` returns, whatever the round, the
-- caller and the reason, and then the round is not there or has come to a terminal state.
pub fail_round-IsOver :
    (v : Service) (rs : List Request) (id client : Text) (code : Event) (detail : Message) (now : ℕ)
    → (t : Db) × (fail_round id client code detail now (run v rs empty) ≡ ok (tt, t))
      × IsOver (round_of id t)
unfolding fail_round ◌>>=◌ if_found when moved
fail_round-IsOver v rs id client code detail now =
    let s = run v rs empty in
    elim (Option-cases (round_of id s)) [
      | inl missing ↦ (s, rw (missing, fail_round) refl, rw missing tt)
      | inr (r, found) ↦ elim (Bool-cases (is_terminal r.state)) [
        | inl ended ↦ (s, rw (found, ended, fail_round) refl, rw found ended)
        | inr running ↦
            let cut = some (take 256 detail) in
            let unique = (run-IsAudited v rs).unique id in
            (
              failed_store id (caller client) code cut now s r found unique running,
              rw (found, running, fail_round)
                  (failure_total id (caller client) code cut now s r found unique running),
              rw (failure_found id (caller client) code cut now s r found unique running) refl,
            )
      ]
    ]

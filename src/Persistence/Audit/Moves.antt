-- ===== src/Persistence/Audit/Moves.antt =====
-- A transition keeps the audit log complete: it adds one event, with the version that it made.
use mathlib.Core.Option
use deki_smpc_server.Prelude.{
  ℕ, ◌+◌, ◌≤◌, Text, Message, true, false, Option, none, some, List, [], ◌∷◌, ◌++◌, ◌≡◌, refl, sym,
  ◌∙◌, inl, inr, arith, ◌==◌, ==_self, if◌then◌else◌, Bool-cases, Option-cases,
}
use deki_smpc_server.Prelude.Rows.{select_one, count_where, update_where}
use deki_smpc_server.Prelude.Rows.Laws.{select_one-update, select_one_holds}
use deki_smpc_server.Prelude.Rows.Counts.{count-update, unique_row, selects_some}
use deki_smpc_server.Domain.States.{RoundState}
use deki_smpc_server.Persistence.Schema.{Db, RoundRow, AuditRow, Actor, Event, message}
use deki_smpc_server.Persistence.Tx.{ok, ◌>>=◌}
use deki_smpc_server.Persistence.Statements.{is_round, round_of, insert_audit, need}
use deki_smpc_server.Persistence.Transition.{moved, in_state, update_rounds, transition}
use deki_smpc_server.Persistence.Ensures.{Ensures}
use deki_smpc_server.Persistence.Audit.{
  versions_of, up_to, version_of, KeepsAudit, KeepsAudit-IsPreorder,
}
use deki_smpc_server.Persistence.Audit.Rules.{
  versions_of-append, versions_of-append_other, up_to-add_one, KeepsAudit-AllowsQuiet,
}

-- The rounds and the log after a transition, on the lists themselves.
module _ (id : Text) (source target : RoundState) (event : Event) (detail : Option Message)
    (now : ℕ) (rounds : List RoundRow) (log : List AuditRow) (r' : RoundRow) (row : AuditRow)
    (unique : (i : Text) → count_where (is_round i) rounds ≤ 1)
    (recorded : (i : Text)
      → versions_of i log ≡ up_to (version_of (select_one (is_round i) rounds)))
    (one : count_where (in_state id source) rounds ≡ 1)
    (found : select_one
        (is_round id)
        (update_where (in_state id source) (moved target event detail now) rounds)
      ≡ some r')
    (named : row.round_id ≡ id) (versioned : row.state_version ≡ some r'.state_version) where
  abbrev rounds' : List RoundRow
  rounds' = update_where (in_state id source) (moved target event detail now) rounds

  updated :
      (i : Text)
      → select_one (is_round i) rounds'
        ≡ Option.map
            (λ r. if in_state id source r then moved target event detail now r else r)
            (select_one (is_round i) rounds)
  unfolding moved
  updated i =
      select_one-update (is_round i) (in_state id source) (moved target event detail now) rounds
        (λ r. refl)

  -- The round itself: its version has grown by one.
  version_grown : r'.state_version ≡ version_of (select_one (is_round id) rounds) + 1
  unfolding moved
  version_grown =
      let (r, e) =
        selects_some (is_round id) (in_state id source) rounds (λ x h. ground arith) one in
      let at : in_state id source r ≡ true =
        unique_row (is_round id) (in_state id source) rounds r (λ x h. ground arith) (unique id) one
          e in
      ground (arith, updated id)

  other_round :
      (i : Text)
      → (id == i) ≡ false
      → select_one (is_round i) rounds' ≡ select_one (is_round i) rounds
  other_round i ne = updated i ∙ go (select_one (is_round i) rounds) refl
    where
      go :
          (o : Option RoundRow)
          → select_one (is_round i) rounds ≡ o
          → Option.map (λ r. if in_state id source r then moved target event detail now r else r) o
            ≡ o
      go none e = refl
      go (some r) e = ground (arith, select_one_holds (is_round i) r rounds e)

  unique_after : (i : Text) → count_where (is_round i) rounds' ≤ 1
  unfolding moved
  unique_after i =
      rw
        (count-update (is_round i) (in_state id source) (moved target event detail now) rounds
          (λ r. refl))
        (unique i)

  recorded_after :
      (i : Text)
      → versions_of i (log ++ row ∷ []) ≡ up_to (version_of (select_one (is_round i) rounds'))
  recorded_after i = elim (Bool-cases (id == i)) [
    | inl hit ↦
        let e : i ≡ id = ground arith in
        rw (e, versions_of-append, named, ==_self id, versioned, recorded id, found, version_grown)
          (sym (up_to-add_one (version_of (select_one (is_round id) rounds))))
    | inr miss ↦
        rw (other_round i miss) (versions_of-append_other i log row (rw (named, miss)) ∙ recorded i)
  ]

-- What a committed transition did to the log.
transition_log :
    (id : Text) (source target : RoundState) (actor : Actor) (event : Event)
    (detail : Option Message) (now : ℕ) (s : Db) (a : Unit) (t : Db)
    → transition id source target actor event detail now s ≡ ok (a, t)
    → (r' : RoundRow) × (row : AuditRow) × (count_where (in_state id source) s.rounds ≡ 1)
      × (select_one
            (is_round id)
            (update_where (in_state id source) (moved target event detail now) s.rounds)
          ≡ some r')
      × (row.round_id ≡ id)
      × (row.state_version ≡ some r'.state_version)
      × (t.rounds ≡ update_where (in_state id source) (moved target event detail now) s.rounds)
      × (t.audit_events ≡ s.audit_events ++ row ∷ [])
unfolding transition need ◌>>=◌ insert_audit update_rounds round_of
transition_log id source target actor event detail now s a t e =
    elim (Option-cases (
      select_one (is_round id)
        (update_where (in_state id source) (moved target event detail now) s.rounds))) [
          | inl missing ↦ absurd (ground arith)
          | inr (r', found) ↦ (
            r',
            record {
              round_id = id;
              actor = actor;
              event_type = event;
              state_version = some r'.state_version;
              created_at = now;
              detail = Option.map message detail;
            },
            ground arith,
            found,
            refl,
            refl,
            ground arith,
            ground arith,
          )
        ]

pub transition-KeepsAudit :
    (id : Text) (source target : RoundState) (actor : Actor) (event : Event)
    (detail : Option Message) (now : ℕ)
    → Ensures KeepsAudit (transition id source target actor event detail now)
unfolding round_of
transition-KeepsAudit id source target actor event detail now = record {
  at = λ s a t e.
      let (r', row, one, found, named, versioned, er, el) =
        transition_log id source target actor event detail now s a t e in
      record {
        keeps = λ h. record {
          unique = λ i. rw er (
              unique_after id source target event detail now s.rounds s.audit_events r' row h.unique
                h.recorded one found named versioned i);
          recorded = λ i.
              rw (er, el)
                (recorded_after id source target event detail now s.rounds s.audit_events r' row
                  h.unique h.recorded one found named versioned i);
        };
      };
}

-- ===== src/Persistence/Lifecycle/Rules.antt =====
-- Each statement of the store lets the rounds evolve.
use deki_smpc_server.Prelude.{
  ℕ, Text, Message, true, false, Option, none, some, ◌≡◌, refl, arith, inl, inr, List, [], ◌∷◌,
  ◌++◌, ◌==◌, ==_self, if◌then◌else◌, Bool-cases, Option-cases,
}
use mathlib.Core.Option
use deki_smpc_server.Prelude.Rows.{select_one, any}
use deki_smpc_server.Prelude.Rows.Laws.{
  select_one-update, select_one-append, select_one-append_other, select_one-none,
  select_one-delete_self, select_one-delete_ne,
}
use deki_smpc_server.Domain.States.{RoundState, transition_allowed, state_eq, is_terminal}
use deki_smpc_server.Domain.States.Lifecycle.{next, Trail-refl, state_eq_sound}
use deki_smpc_server.Persistence.Schema.{Db, RoundRow, AuditRow, Actor, Event}
use deki_smpc_server.Persistence.Tx.{ok, ◌>>=◌}
use deki_smpc_server.Persistence.Statements.{is_round, round_of, insert_round, insert_audit, need}
use deki_smpc_server.Persistence.Transition.{moved, in_state, update_rounds, transition}
use deki_smpc_server.Persistence.Retention.{delete_round, purge_round}
use deki_smpc_server.Persistence.Ensures.{Ensures}
use deki_smpc_server.Persistence.Quiet.{AllowsQuiet}
use deki_smpc_server.Persistence.Lifecycle.{
  Stays, Stays-refl, RoundsStay, RoundsStay-IsPreorder, RoundsStep, RoundsStep-of, Stays-Steps,
  Continues, Continues-refl, IsBorn,
}

same_rounds : (s t : Db) → t.rounds ≡ s.rounds → RoundsStay s t
unfolding round_of
same_rounds s t e = record { of = λ id. rw e (Stays-refl (select_one (is_round id) s.rounds)) }

instance pub RoundsStay-AllowsQuiet : AllowsQuiet RoundsStay
RoundsStay-AllowsQuiet = record { quiet = λ s t e f. same_rounds s t e }

pub insert_audit-Stays : (r : AuditRow) → Ensures RoundsStay (insert_audit r)
unfolding insert_audit
insert_audit-Stays r = record { at = λ s a t e. same_rounds s t (ground arith) }

-- The SET clause of a transition moves a row on by one version.
moved-Continues :
    (source target : RoundState) (event : Event) (detail : Option Message) (now : ℕ) (r : RoundRow)
    → transition_allowed source target ≡ true
    → state_eq r.state source ≡ true
    → Continues r (moved target event detail now r)
unfolding moved
moved-Continues source target event detail now r allowed at = record {
  trail =
      next r.state r.state_version (Trail-refl r.state r.state_version)
        (rw (state_eq_sound r.state source at) allowed) refl;
  terms = record {
    federation_id = refl;
    protocol_version = refl;
    model_schema_hash = refl;
    model_schema = refl;
    participant_manifest_hash = refl;
    participants = refl;
    expected_count = refl;
    created_at = refl;
    deadline_at = refl;
  };
}

step-Stays :
    (source target : RoundState) (event : Event) (detail : Option Message) (now : ℕ) (id : Text)
    → transition_allowed source target ≡ true
    → (o : Option RoundRow)
    → Stays o
        (Option.map (λ r. if in_state id source r then moved target event detail now r else r) o)
step-Stays source target event detail now id allowed none = tt
step-Stays source target event detail now id allowed (some r) =
    elim (Bool-cases (in_state id source r)) [
      | inl hit ↦ rw hit (moved-Continues source target event detail now r allowed (ground arith))
      | inr miss ↦ rw miss (Continues-refl r)
    ]

update-Stays :
    (source target : RoundState) (event : Event) (detail : Option Message) (now : ℕ) (id : Text)
    → transition_allowed source target ≡ true
    → (s : Db) → RoundsStay s (update_rounds (in_state id source) (moved target event detail now) s)
unfolding update_rounds round_of moved
update-Stays source target event detail now id allowed s = record {
  of = λ i.
      rw
        (select_one-update (is_round i) (in_state id source) (moved target event detail now)
          s.rounds (λ r. refl))
        (step-Stays source target event detail now id allowed (select_one (is_round i) s.rounds));
}

-- What a committed transition did.
transition_effect :
    (id : Text) (source target : RoundState) (actor : Actor) (event : Event)
    (detail : Option Message) (now : ℕ) (s : Db) (a : Unit) (t : Db)
    → transition id source target actor event detail now s ≡ ok (a, t)
    → (transition_allowed source target ≡ true)
      × (t.rounds ≡ (update_rounds (in_state id source) (moved target event detail now) s).rounds)
unfolding transition need ◌>>=◌ insert_audit
transition_effect id source target actor event detail now s a t e = ground arith

pub transition-Stays :
    (id : Text) (source target : RoundState) (actor : Actor) (event : Event)
    (detail : Option Message) (now : ℕ)
    → Ensures RoundsStay (transition id source target actor event detail now)
transition-Stays id source target actor event detail now = record {
  at = λ s a t e.
      let h = transition_effect id source target actor event detail now s a t e in
      RoundsStay-IsPreorder.chain s _ t (update-Stays source target event detail now id h.0 s)
        (same_rounds _ t h.1);
}

new_round-Stays :
    (row : RoundRow) (rounds : List RoundRow) (i : Text)
    → IsBorn row
    → any (is_round row.round_id) rounds ≡ false
    → Stays (select_one (is_round i) rounds) (select_one (is_round i) (rounds ++ row ∷ []))
new_round-Stays row rounds i born absent = elim (Bool-cases (row.round_id == i)) [
  | inl hit ↦
      let e : i ≡ row.round_id = ground arith in
      rw e (
        rw
          (
            select_one-none (is_round row.round_id) rounds absent,
            select_one-append (is_round row.round_id) row rounds absent,
            ==_self row.round_id,
          )
          born)
  | inr miss ↦
      rw (select_one-append_other (is_round i) row rounds miss)
        (Stays-refl (select_one (is_round i) rounds))
]

pub insert_round-Stays : (row : RoundRow) → IsBorn row → Ensures RoundsStay (insert_round row)
unfolding insert_round round_of
insert_round-Stays row born = record {
  at = λ s a t e.
      let h : (any (is_round row.round_id) s.rounds ≡ false) × (t.rounds ≡ s.rounds ++ row ∷ []) =
        ground arith in
      record { of = λ i. rw h.1 (new_round-Stays row s.rounds i born h.0) };
}

delete-Steps :
    (id : Text) (s : Db) (r : RoundRow)
    → round_of id s ≡ some r
    → is_terminal r.state ≡ true
    → RoundsStep s (delete_round id s)
unfolding round_of delete_round
delete-Steps id s r found over = record {
  of = λ i. elim (Bool-cases (id == i)) [
    | inl hit ↦
        let e : i ≡ id = ground arith in
        rw e
          (rw (found, select_one-delete_self (is_round id) (is_round id) s.rounds (λ x h. h)) over)
    | inr miss ↦
        rw (select_one-delete_ne (is_round i) (is_round id) s.rounds (λ x h. ground arith))
          (let o = select_one (is_round i) s.rounds in Stays-Steps o o (Stays-refl o))
  ];
}

-- A purge removes a round only in a terminal state.
pub purge_round-Steps : (id : Text) (now : ℕ) → Ensures RoundsStep (purge_round id now)
unfolding purge_round ◌>>=◌
purge_round-Steps id now = record {
  at = λ s a t e. elim (Option-cases (round_of id s)) [
    | inl missing ↦ RoundsStep-of s t (same_rounds s t (ground arith))
    | inr (r, found) ↦
        let (over, same) : (is_terminal r.state ≡ true) × (t ≡ delete_round id s) = ground arith in
        rw same (delete-Steps id s r found over)
  ];
}

pub ruleset lifecycle_rules = (insert_audit-Stays, transition-Stays, insert_round-Stays)

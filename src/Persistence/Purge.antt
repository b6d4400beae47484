-- ===== src/Persistence/Purge.antt =====
-- What `purge_round` leaves behind.
use deki_smpc_server.Prelude.{
  ℕ, Text, Bool, true, false, ◌≤◌, some, List, [], ◌∷◌, ◌≡◌, refl, arith, Bool-cases, inl, inr,
  ◌==◌, ltb,
}
use deki_smpc_server.Prelude.Rows.{delete_where, any}
use deki_smpc_server.Domain.States.{is_terminal}
use deki_smpc_server.Prelude.Rows.Listed.{Listed, Listed-any}
use deki_smpc_server.Persistence.Schema.{
  Db, RoundRow, Response, round_response, IdempotencyRow, create,
}
use deki_smpc_server.Persistence.Tx.{ok, ◌>>=◌}
use deki_smpc_server.Persistence.Statements.{round_of}
use deki_smpc_server.Persistence.Retention.{purge_round, delete_round, is_record_of, response_names}

-- The response to a creation names the round.
abbrev pub NamesRound : Text → Response → Type 0
NamesRound id (round_response round _ _ _ _ _ _ _ _ _ _) = round ≡ id
NamesRound id _ = ⊥

-- No table has a row of the round, and there is no record of its creation, which stands under its
-- federation.
pub record IsGone (id : Text) (s : Db) : Type 0 where
  pub rounds : any (λ r. r.round_id == id) s.rounds ≡ false
  pub participants : any (λ r. r.round_id == id) s.participants ≡ false
  pub artifacts : any (λ r. r.round_id == id) s.artifacts ≡ false
  pub idempotency : any (is_record_of id) s.idempotency ≡ false
  pub records : any (λ r. r.round_id == id) s.idempotency ≡ false
  pub creation :
      (r : IdempotencyRow)
      → Listed r s.idempotency
      → r.operation ≡ create
      → NamesRound id r.response
      → ⊥
  pub jobs : any (λ r. r.round_id == id) s.jobs ≡ false
  pub audit_events : any (λ r. r.round_id == id) s.audit_events ≡ false
  pub tree_plans : any (λ r. r.round_id == id) s.tree_plans ≡ false
  pub key_tasks : any (λ r. r.round_id == id) s.key_tasks ≡ false
  pub task_dependencies : any (λ r. r.round_id == id) s.task_dependencies ≡ false
  pub task_receipts : any (λ r. r.round_id == id) s.task_receipts ≡ false
  pub final_keys : any (λ r. r.round_id == id) s.final_keys ≡ false
  pub final_key_receipts : any (λ r. r.round_id == id) s.final_key_receipts ≡ false

any-delete : {A : Type 0} (p : A → Bool) (xs : List A) → any p (delete_where p xs) ≡ false
unfolding any delete_where
any-delete p [] = refl
any-delete p (x ∷ xs) = ground (arith, any-delete p xs)

no_records :
    (id : Text) (xs : List IdempotencyRow)
    → any (is_record_of id) xs ≡ false
    → any (λ r. r.round_id == id) xs ≡ false
unfolding any
no_records id [] h = refl
no_records id (x ∷ xs) h = ground (arith, no_records id xs)

names_true : (id : Text) (r : Response) → NamesRound id r → response_names id r ≡ true
names_true id (round_response round _ _ _ _ _ _ _ _ _ _) h = ground arith
names_true id _ h = absurd h

no_creation :
    (id : Text) (xs : List IdempotencyRow)
    → any (is_record_of id) xs ≡ false
    → (r : IdempotencyRow) → Listed r xs
    → r.operation ≡ create
    → NamesRound id r.response
    → ⊥
no_creation id xs h r listed is names =
    let found : is_record_of id r ≡ true = rw (is, names_true id r.response names) (ground arith) in
    let other = Listed-any (is_record_of id) r xs listed found in absurd (cc)

delete_round-IsGone : (id : Text) (s : Db) → IsGone id (delete_round id s)
unfolding delete_round
delete_round-IsGone id s = record {
  rounds = any-delete _ s.rounds;
  participants = any-delete _ s.participants;
  artifacts = any-delete _ s.artifacts;
  idempotency = any-delete _ s.idempotency;
  records = no_records id _ (any-delete (is_record_of id) s.idempotency);
  creation = no_creation id _ (any-delete (is_record_of id) s.idempotency);
  jobs = any-delete _ s.jobs;
  audit_events = any-delete _ s.audit_events;
  tree_plans = any-delete _ s.tree_plans;
  key_tasks = any-delete _ s.key_tasks;
  task_dependencies = any-delete _ s.task_dependencies;
  task_receipts = any-delete _ s.task_receipts;
  final_keys = any-delete _ s.final_keys;
  final_key_receipts = any-delete _ s.final_key_receipts;
}

-- A purge of a round that is there commits only where the round is terminal and its retention has
-- passed, and then no table has anything of the round left.
pub purge_round_clean :
    (id : Text) (now : ℕ) (s t : Db) (a : Unit) (r : RoundRow)
    → round_of id s ≡ some r
    → purge_round id now s ≡ ok (a, t)
    → (is_terminal r.state ≡ true) × (r.retention_at ≤ now) × IsGone id t
unfolding purge_round ◌>>=◌
purge_round_clean id now s t a r found e =
    let h = rw found at e in
    let gone = delete_round-IsGone id s in
    elim (Bool-cases (is_terminal r.state)) [
      | inl ended ↦ elim (Bool-cases (ltb now r.retention_at)) [
        | inl early ↦ absurd (ground arith)
        | inr late ↦
            let same : delete_round id s ≡ t = ground arith in
            (ended, ground arith, rw (← same) gone)
      ]
      | inr running ↦ absurd (ground arith)
    ]

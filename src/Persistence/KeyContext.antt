-- ===== src/Persistence/KeyContext.antt =====
-- `key_complete` and `_create_tree_plan` of database.py: the commitments to the key context, and
-- what the last of them sets off.
use deki_smpc_server.Prelude.{
  ℕ, Text, Bool, true, false, not, ◌||◌, Option, none, some, List, [], ◌∷◌, leb, ◌==◌,
  if◌then◌else◌,
}
use deki_smpc_server.Prelude.Rows.{any}
use deki_smpc_server.Domain.States.{
  RoundState, key_setup, key_aggregation, update_collection, failed, state_eq,
}
use deki_smpc_server.Domain.Topology.{Task, ManifestEntry}
use deki_smpc_server.Domain.Topology.Derive.{derive_tree_plan}
use deki_smpc_server.Persistence.Schema.{
  Db, RoundRow, ParticipantRow, ready_for_update, is_v1_1, Hashing, caller, coordinator,
  public_key_body, Response, accepted, key_complete, key_context_accepted, key_context_mismatch,
  key_setup_barrier, tree_plan_committed, digest_text, TaskState,
}
use deki_smpc_server.Persistence.Tx.{
  Tx, Error, Result, ok, err, round_conflict, not_ready, type_error, plan_error, pure, gets,
  or_raise, raise_if, when, for_each, ◌>>=◌, ◌>>◌,
}
use deki_smpc_server.Persistence.Statements.{
  round_of, participant_of, update_participant, note, remember, replay_as, need, insert_tree_plan,
  insert_key_task, insert_dependency,
}
use deki_smpc_server.Persistence.Transition.{transition}
use deki_smpc_server.Persistence.Setup.{participants_of, is_some, is_empty}

-- `ORDER BY client_id`.
insert_row : ParticipantRow → List ParticipantRow → List ParticipantRow
insert_row p [] = p ∷ []
insert_row p (q ∷ qs) =
    let rest = insert_row p qs in if leb p.client_id q.client_id then p ∷ q ∷ qs else q ∷ rest

by_client : List ParticipantRow → List ParticipantRow
unfolding insert_row
by_client [] = []
by_client (p ∷ ps) = insert_row p (by_client ps)

-- The manifest, from rows that all have a public key.
manifest_of : List ParticipantRow → List ManifestEntry
manifest_of [] = []
manifest_of (p ∷ ps) =
    let rest = manifest_of ps in
    elim p.public_key [
      | some (public_key_body key signature) ↦
          record { client_id = p.client_id; public_key = key; signature = signature } ∷ rest
      | other ↦ rest
    ]

insert_tasks : Text → List Task → Tx Unit
insert_tasks round tasks = for_each tasks λ task. insert_key_task (record {
  round_id = round;
  task = task;
  state = if is_empty task.dependencies then TaskState.ready else TaskState.waiting;
  artifact_id = none;
  ciphertext_digest = none;
  nonce = none;
  signature = none;
  completed_at = none;
})

insert_dependencies : Text → List Task → Tx Unit
insert_dependencies round tasks = for_each tasks λ task. for_each task.dependencies λ dependency.
    insert_dependency
      (record { round_id = round; task_id = task.task_id; dependency_id = dependency })

-- `_create_tree_plan`.
unfoldable pub create_tree_plan : Hashing → RoundRow → (now : ℕ) → Tx Unit
unfolding by_client manifest_of insert_tasks insert_dependencies
create_tree_plan h round_row now = do
  rows ← gets (participants_of round_row.round_id)
  raise_if (is_empty rows || any (λ p. not (is_some p.public_key)) rows) not_ready
  let manifest = manifest_of (by_client rows)
  plan ← or_raise (derive_tree_plan (h.draws round_row manifest) h.fuel manifest) plan_error
  insert_tree_plan (record {
    round_id = round_row.round_id;
    plan_hash = h.plan_digest plan;
    plan = plan;
    manifest = manifest;
    created_at = now;
  })
  insert_tasks round_row.round_id plan.tasks
  insert_dependencies round_row.round_id plan.tasks
  note round_row.round_id coordinator tree_plan_committed now
      (some (digest_text (h.plan_digest plan)))

abbrev commitment_ne : Option Text → Option Text → Bool
commitment_ne (some a) (some b) = not (a == b)
commitment_ne _ _ = true

-- `len({row[0] for row in rows}) != 1`, on rows that all have a commitment.
commitments_differ : List ParticipantRow → Bool
commitments_differ [] = true
commitments_differ (p ∷ ps) = any (λ q. commitment_ne q.context_commitment p.context_commitment) ps

-- What `key_complete` does when the last commitment is there. It returns whether they differ.
unfoldable pub commit_context :
    Hashing
    → (round_id : Text) → RoundRow
    → (client_id : Text) → List ParticipantRow
    → (now later : ℕ) → Tx Bool
unfolding commitments_differ
commit_context h round_id round_row client_id rows now later =
    if commitments_differ rows
    then (do
      transition round_id key_setup failed (caller client_id) key_context_mismatch none later
      pure true)
    else do
      when (state_eq round_row.state key_setup) (
          if is_v1_1 round_row.protocol_version
          then (do
            create_tree_plan h round_row now
            transition round_id key_setup key_aggregation (caller client_id) key_setup_barrier none
                later)
          else transition round_id key_setup update_collection (caller client_id) key_setup_barrier
              none later)
      pure false

-- `all(row[0] for row in rows)`, and then the above.
unfoldable pub commit_when_all :
    Hashing
    → (round_id : Text) → RoundRow
    → (client_id : Text) → List ParticipantRow
    → (now later : ℕ) → Tx Bool
commit_when_all h round_id round_row client_id rows now later =
    if any (λ p. not (is_some p.context_commitment)) rows
    then pure false
    else commit_context h round_id round_row client_id rows now later

-- `existing and existing != commitment`.
abbrev commits_otherwise : Option Text → Text → Bool
commits_otherwise none new = false
commits_otherwise (some old) new = not (old == new)

-- The states in which a commitment is taken.
abbrev pub context_open : RoundState → Bool
context_open s = state_eq s key_setup || state_eq s key_aggregation || state_eq s update_collection

-- The transaction of `key_complete`; its second value is `mismatch`.
unfoldable pub key_complete_tx :
    Hashing
    → (round_id client_id commitment idem_key digest : Text) → (now later : ℕ)
    → Tx (Response × Bool)
key_complete_tx h round_id client_id commitment idem_key digest now later =
    replay_as (λ r. (r, false)) client_id round_id key_complete idem_key digest
      do
        round_row ← need (round_of round_id) round_conflict
        raise_if (not (context_open round_row.state)) round_conflict
        existing ← need (participant_of round_id client_id) type_error
        raise_if (commits_otherwise existing.context_commitment commitment) round_conflict
        update_participant round_id client_id (λ p. record p {
          context_commitment = some commitment;
          state = ready_for_update;
          last_seen = now;
        })
        remember client_id round_id key_complete idem_key digest accepted now
        note round_id (caller client_id) key_context_accepted now none
        rows ← gets (participants_of round_id)
        mismatch ← commit_when_all h round_id round_row client_id rows now later
        pure (accepted, mismatch)

-- `key_complete`: the mismatch is raised after the commit.
unfoldable pub complete_key_setup :
    Hashing
    → (round_id client_id commitment idem_key digest : Text) → (now later : ℕ) → Db
    → Result Response × Db
complete_key_setup h round_id client_id commitment idem_key digest now later s =
    elim (key_complete_tx h round_id client_id commitment idem_key digest now later s) [
      | err e ↦ (err e, s)
      | ok ((response, mismatch), s') ↦
          (if mismatch then err Error.key_context_mismatch else ok response, s')
    ]

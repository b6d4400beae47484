-- ===== src/Persistence/Statements.antt =====
-- The SQL statements of database.py, one definition for each kind: queries that the methods share,
-- and the writes, each with the constraints of its table (a violation is an `integrity_error`).
use deki_smpc_server.Prelude.{
  ℕ, Text, Bool, true, false, not, ◌&&◌, ◌||◌, Option, none, some, [], ◌∷◌, ◌++◌, ◌==◌,
  if◌then◌else◌, same,
}
use deki_smpc_server.Prelude.Rows.{select_one, update_where, any}
use deki_smpc_server.Domain.Topology.{TaskId}
use deki_smpc_server.Persistence.Schema.{
  Db, RoundRow, ParticipantRow, ArtifactRow, IdempotencyRow, JobRow, AuditRow, TreePlanRow,
  KeyTaskRow, DependencyRow, TaskReceiptRow, FinalKeyRow, FinalReceiptRow, Operation,
  Operation-discrete, ArtifactType-discrete, TaskId-discrete, Actor, Event, Detail, Response,
}
use deki_smpc_server.Persistence.Tx.{
  Tx, ok, err, Error, integrity_error, idempotency_conflict, pure, raise_if, gets, or_raise, ◌>>=◌,
  ◌>>◌,
}

-- The first row of a query, which has to be there.
unfoldable pub need : {A : Type 0} → (Db → Option A) → Error → Tx A
unfolding ◌>>=◌
need q e = do row ← gets q; or_raise row e

abbrev pub is_round : Text → RoundRow → Bool
is_round id r = r.round_id == id

-- `SELECT * FROM rounds WHERE round_id=?`.
unfoldable pub round_of : Text → Db → Option RoundRow
round_of id s = select_one (is_round id) s.rounds

abbrev pub is_participant : Text → Text → ParticipantRow → Bool
is_participant round client p = p.round_id == round && p.client_id == client

-- `SELECT * FROM participants WHERE round_id=? AND client_id=?`.
unfoldable pub participant_of : Text → Text → Db → Option ParticipantRow
participant_of round client s = select_one (is_participant round client) s.participants

abbrev pub is_task : Text → TaskId → KeyTaskRow → Bool
is_task round task t = t.round_id == round && same TaskId-discrete t.task.task_id task

unfoldable pub task_of : Text → TaskId → Db → Option KeyTaskRow
task_of round task s = select_one (is_task round task) s.key_tasks

unfoldable pub plan_row : Text → Db → Option TreePlanRow
plan_row round s = select_one (λ p. p.round_id == round) s.tree_plans

unfoldable pub final_row : Text → Db → Option FinalKeyRow
final_row round s = select_one (λ f. f.round_id == round) s.final_keys

abbrev pub is_record : Text → Text → Operation → Text → IdempotencyRow → Bool
is_record client round op key r =
    r.client_id == client
    && r.round_id == round
    && same Operation-discrete r.operation op
    && r.idem_key == key

-- `SELECT … FROM idempotency WHERE client_id=? AND round_id=? AND operation=? AND idem_key=?`.
unfoldable pub prior_of : Text → Text → Operation → Text → Db → Option IdempotencyRow
prior_of client round op key s = select_one (is_record client round op key) s.idempotency

unfoldable pub insert_round : RoundRow → Tx Unit
insert_round row s =
    if any (is_round row.round_id) s.rounds
    then err integrity_error
    else ok (tt, record s { rounds = s.rounds ++ row ∷ [] })

unfoldable pub insert_participant : ParticipantRow → Tx Unit
insert_participant row s =
    if any (is_participant row.round_id row.client_id) s.participants
    then err integrity_error
    else ok (tt, record s { participants = s.participants ++ row ∷ [] })

unfoldable pub update_participant : Text → Text → (ParticipantRow → ParticipantRow) → Tx Unit
update_participant round client f s =
    ok (tt, record s { participants = update_where (is_participant round client) f s.participants })

-- A comparison with NULL is never true, so results never clash by their client.
abbrev pub same_client : Option Text → Option Text → Bool
same_client (some a) (some b) = a == b
same_client _ _ = false

-- `artifact_id` is the primary key, `path` is unique, and so is the slot of a client in a round.
abbrev pub same_artifact : ArtifactRow → ArtifactRow → Bool
same_artifact a b =
    b.artifact_id == a.artifact_id
    || b.path == a.path
    || (b.round_id == a.round_id
        && same_client b.client_id a.client_id
        && same ArtifactType-discrete b.artifact_type a.artifact_type)

unfoldable pub insert_artifact : ArtifactRow → Tx Unit
insert_artifact row s =
    if any (same_artifact row) s.artifacts
    then err integrity_error
    else ok (tt, record s { artifacts = s.artifacts ++ row ∷ [] })

unfoldable pub insert_idempotency : IdempotencyRow → Tx Unit
insert_idempotency row s =
    if any (is_record row.client_id row.round_id row.operation row.idem_key) s.idempotency
    then err integrity_error
    else ok (tt, record s { idempotency = s.idempotency ++ row ∷ [] })

unfoldable pub insert_audit : AuditRow → Tx Unit
insert_audit row s = ok (tt, record s { audit_events = s.audit_events ++ row ∷ [] })

-- A round has one job.
unfoldable pub insert_job : JobRow → Tx Unit
insert_job row s =
    if any (λ j. j.job_id == row.job_id || j.round_id == row.round_id) s.jobs
    then err integrity_error
    else ok (tt, record s { jobs = s.jobs ++ row ∷ [] })

unfoldable pub update_jobs : (JobRow → Bool) → (JobRow → JobRow) → Tx Unit
update_jobs p f s = ok (tt, record s { jobs = update_where p f s.jobs })

unfoldable pub insert_tree_plan : TreePlanRow → Tx Unit
insert_tree_plan row s =
    if any (λ p. p.round_id == row.round_id) s.tree_plans
    then err integrity_error
    else ok (tt, record s { tree_plans = s.tree_plans ++ row ∷ [] })

unfoldable pub insert_key_task : KeyTaskRow → Tx Unit
insert_key_task row s =
    if any (is_task row.round_id row.task.task_id) s.key_tasks
    then err integrity_error
    else ok (tt, record s { key_tasks = s.key_tasks ++ row ∷ [] })

unfoldable pub update_key_tasks : (KeyTaskRow → Bool) → (KeyTaskRow → KeyTaskRow) → Tx Unit
update_key_tasks p f s = ok (tt, record s { key_tasks = update_where p f s.key_tasks })

abbrev pub is_dependency : DependencyRow → DependencyRow → Bool
is_dependency a b =
    b.round_id == a.round_id
    && same TaskId-discrete b.task_id a.task_id
    && same TaskId-discrete b.dependency_id a.dependency_id

unfoldable pub insert_dependency : DependencyRow → Tx Unit
insert_dependency row s =
    if any (is_dependency row) s.task_dependencies
    then err integrity_error
    else ok (tt, record s { task_dependencies = s.task_dependencies ++ row ∷ [] })

unfoldable pub insert_task_receipt : TaskReceiptRow → Tx Unit
insert_task_receipt row s =
    if any (λ r. r.round_id == row.round_id && same TaskId-discrete r.task_id row.task_id)
      s.task_receipts
    then err integrity_error
    else ok (tt, record s { task_receipts = s.task_receipts ++ row ∷ [] })

unfoldable pub insert_final_key : FinalKeyRow → Tx Unit
insert_final_key row s =
    if any (λ f. f.round_id == row.round_id) s.final_keys
    then err integrity_error
    else ok (tt, record s { final_keys = s.final_keys ++ row ∷ [] })

abbrev pub is_receipt : Text → Text → FinalReceiptRow → Bool
is_receipt round client r = r.round_id == round && r.client_id == client

unfoldable pub insert_final_receipt : FinalReceiptRow → Tx Unit
insert_final_receipt row s =
    if any (is_receipt row.round_id row.client_id) s.final_key_receipts
    then err integrity_error
    else ok (tt, record s { final_key_receipts = s.final_key_receipts ++ row ∷ [] })

-- An audit event without a state version.
abbrev pub plain_event : Text → Actor → Event → ℕ → Option Detail → AuditRow
plain_event round actor event now detail = record {
  round_id = round;
  actor = actor;
  event_type = event;
  state_version = none;
  created_at = now;
  detail = detail;
}

abbrev pub note : Text → Actor → Event → ℕ → Option Detail → Tx Unit
note round actor event now detail = insert_audit (plain_event round actor event now detail)

-- The record of a response under its key.
abbrev pub remember : Text → Text → Operation → Text → Text → Response → ℕ → Tx Unit
remember client round op key digest response now = insert_idempotency (record {
  client_id = client;
  round_id = round;
  operation = op;
  idem_key = key;
  content_digest = digest;
  response = response;
  created_at = now;
})

-- What the methods do first: a request whose key is known is answered from the recorded response if
-- its content is the same, and raises if it is not.
unfoldable pub answer : {A : Type 0} → (Response → A) → Option IdempotencyRow → Text → Tx A → Tx A
unfolding ◌>>=◌
answer replayed none digest body = body
answer replayed (some row) digest body = do
  raise_if (not (row.content_digest == digest)) idempotency_conflict
  pure (replayed row.response)

unfoldable pub replay_as :
    {A : Type 0} → (Response → A) → Text → Text → Operation → Text → Text → Tx A → Tx A
unfolding answer
replay_as replayed client round op key digest body = do
  prior ← gets (prior_of client round op key)
  answer replayed prior digest body

-- The methods that return `(response, replay)`.
abbrev pub replay_or :
    Text → Text → Operation → Text → Text → Tx (Response × Bool) → Tx (Response × Bool)
replay_or = replay_as (λ r. (r, true))

-- The methods that return the response alone.
abbrev pub replay_alone : Text → Text → Operation → Text → Text → Tx Response → Tx Response
replay_alone = replay_as (λ r. r)

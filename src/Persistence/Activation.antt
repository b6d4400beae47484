-- ===== src/Persistence/Activation.antt =====
-- Which tasks of the tree are ready: what the activation in `acknowledge_task` leaves behind.
use deki_smpc_server.Prelude.{
  Text, Bool, true, false, not, ◌&&◌, List, [], ◌∷◌, ◌≡◌, refl, inl, inr, ◌==◌, arith, same,
  same_self, Bool-cases, ==_self,
}
use deki_smpc_server.Prelude.Rows.{update_where, any}
use deki_smpc_server.Prelude.Rows.Listed.{Listed, any-Listed, Listed-any}
use deki_smpc_server.Persistence.Schema.{Db, KeyTaskRow, DependencyRow, TaskState, TaskId-discrete}
use deki_smpc_server.Persistence.Tx.{ok, ◌>>=◌}
use deki_smpc_server.Persistence.Statements.{update_key_tasks}
use deki_smpc_server.Persistence.KeyTasks.{
  task_state_eq, blocks, is_blocked, is_unblocked, set_ready, activate,
}

same_sound : {A : Type 0} (d : Discrete A) (a b : A) → same d a b ≡ true → a ≡ b
same_sound d a b h = go (d a b) h
  where
    go : (x : Dec (a ≡ b)) → elim x [ yes _ ↦ true | no _ ↦ false ] ≡ true → a ≡ b
    go (yes e) h = e
    go (no _) h = absurd (cc)

state_sound : (a b : TaskState) → task_state_eq a b ≡ true → a ≡ b
state_sound TaskState.waiting b h = ground arith
state_sound TaskState.ready b h = ground arith
state_sound TaskState.artifact_uploaded b h = ground arith
state_sound TaskState.completed b h = ground arith

both : (a b : Bool) → a && b ≡ true → (a ≡ true) × (b ≡ true)
both a b h = ground arith

-- A task depends on one that is not completed.
pub record IsHeld (ds : List DependencyRow) (xs : List KeyTaskRow) (t : KeyTaskRow) : Type 0 where
  pub dependency : DependencyRow
  pub listed : Listed dependency ds
  pub of_round : dependency.round_id ≡ t.round_id
  pub of_task : dependency.task_id ≡ t.task.task_id
  pub source : KeyTaskRow
  pub there : Listed source xs
  pub same_round : source.round_id ≡ t.round_id
  pub required : source.task.task_id ≡ dependency.dependency_id
  pub unfinished : source.state ≡ TaskState.completed → ⊥

-- The condition of a dependency in `is_blocked`.
abbrev holding : List KeyTaskRow → KeyTaskRow → DependencyRow → Bool
holding xs t d =
    d.round_id == t.round_id && same TaskId-discrete d.task_id t.task.task_id && any (blocks t d) xs

is_blocked-IsHeld :
    (ds : List DependencyRow) (xs : List KeyTaskRow) (t : KeyTaskRow)
    → is_blocked ds xs t ≡ true
    → IsHeld ds xs t
unfolding is_blocked
is_blocked-IsHeld ds xs t h =
    let (d, listed, p) = any-Listed (holding xs t) ds h in
    let own = same TaskId-discrete d.task_id t.task.task_id in
    let (p, inner) = both (d.round_id == t.round_id && own) (any (blocks t d) xs) p in
    let (r, i) = both (d.round_id == t.round_id) own p in
    let (y, there, q) = any-Listed (blocks t d) xs inner in
    let wanted = same TaskId-discrete y.task.task_id d.dependency_id in
    let todo = not (task_state_eq y.state TaskState.completed) in
    let (q, n) = both (y.round_id == d.round_id && wanted) todo q in
    let (s, j) = both (y.round_id == d.round_id) wanted q in
    let e : d.round_id ≡ t.round_id = ground arith in
    let f : y.round_id ≡ t.round_id = ground arith in
    record {
      dependency = d;
      listed = listed;
      of_round = e;
      of_task = same_sound TaskId-discrete _ _ i;
      source = y;
      there = there;
      same_round = f;
      required = same_sound TaskId-discrete _ _ j;
      unfinished = λ done. let n = rw done at n in absurd (cc);
    }

open_state :
    (a : TaskState) → (a ≡ TaskState.completed → ⊥) → task_state_eq a TaskState.completed ≡ false
open_state TaskState.waiting h = refl
open_state TaskState.ready h = refl
open_state TaskState.artifact_uploaded h = refl
open_state TaskState.completed h = absurd (h refl)

IsHeld-is_blocked :
    (ds : List DependencyRow) (xs : List KeyTaskRow) (t : KeyTaskRow)
    → IsHeld ds xs t
    → is_blocked ds xs t ≡ true
unfolding is_blocked
IsHeld-is_blocked ds xs t h =
    let d = h.dependency in
    let y = h.source in
    let inner : any (blocks t d) xs ≡ true = Listed-any (blocks t d) y xs h.there (
      rw
        (
          h.same_round,
          h.of_round,
          h.required,
          open_state y.state h.unfinished,
          ==_self t.round_id,
          same_self TaskId-discrete d.dependency_id,
        )
        refl) in
    Listed-any (holding xs t) d ds h.listed (
      rw
        (inner, h.of_round, h.of_task, ==_self t.round_id, same_self TaskId-discrete t.task.task_id)
        refl)

-- What the activation makes of a row: ready, where it is a waiting task of the round and depends on
-- no task that is not completed; as it was, where it is none or does depend on one.
pub data IsActivated (round : Text) (ds : List DependencyRow) (xs : List KeyTaskRow)
    (before after : KeyTaskRow) : Type 0 where
  activated :
      before.round_id ≡ round
      → before.state ≡ TaskState.waiting
      → (IsHeld ds xs before → ⊥)
      → after ≡ record before { state = TaskState.ready }
      → IsActivated round ds xs before after
  held : IsHeld ds xs before → after ≡ before → IsActivated round ds xs before after
  elsewhere : (before.round_id ≡ round → ⊥) → after ≡ before → IsActivated round ds xs before after
  not_waiting :
      (before.state ≡ TaskState.waiting → ⊥) → after ≡ before → IsActivated round ds xs before after

abbrev pub AreActivated :
    Text → List DependencyRow → List KeyTaskRow → List KeyTaskRow → List KeyTaskRow → Type 0
AreActivated round ds xs [] [] = Unit
AreActivated round ds xs (before ∷ bs) (after ∷ rest) =
    IsActivated round ds xs before after × AreActivated round ds xs bs rest
AreActivated round ds xs _ _ = ⊥

module _ (round : Text) (ds : List DependencyRow) (xs : List KeyTaskRow) where
  unblocked-IsActivated :
      (x : KeyTaskRow) → is_unblocked round ds xs x ≡ true → IsActivated round ds xs x (set_ready x)
  unfolding is_unblocked
  unblocked-IsActivated x h =
      let waits = task_state_eq x.state TaskState.waiting in
      let free = not (is_blocked ds xs x) in
      let (p, n) = both (x.round_id == round && waits) free h in
      let (r, w) = both (x.round_id == round) waits p in
      activated (ground arith) (state_sound x.state TaskState.waiting w)
        (λ g. let b = IsHeld-is_blocked ds xs x g in let n = rw b at n in absurd (cc)) refl

  blocked-IsActivated :
      (x : KeyTaskRow) → is_unblocked round ds xs x ≡ false → IsActivated round ds xs x x
  unfolding is_unblocked
  blocked-IsActivated x h = elim (Bool-cases (x.round_id == round)) [
    | inr other ↦ elsewhere (λ e. absurd (ground arith)) refl
    | inl here ↦ elim (Bool-cases (task_state_eq x.state TaskState.waiting)) [
      | inr moved ↦ not_waiting (λ e. let moved = rw e at moved in absurd (cc)) refl
      | inl waits ↦ elim (Bool-cases (is_blocked ds xs x)) [
        | inl blocked ↦ held (is_blocked-IsHeld ds xs x blocked) refl
        | inr free ↦ let h = rw (here, waits, free, is_unblocked) at h in absurd (cc)
      ]
    ]
  ]

  update-AreActivated :
      (ys : List KeyTaskRow)
      → AreActivated round ds xs ys (update_where (is_unblocked round ds xs) set_ready ys)
  unfolding update_where
  update-AreActivated [] = tt
  update-AreActivated (y ∷ ys) = elim (Bool-cases (is_unblocked round ds xs y)) [
    | inl free ↦ rw free (unblocked-IsActivated y free, update-AreActivated ys)
    | inr kept ↦ rw kept (blocked-IsActivated y kept, update-AreActivated ys)
  ]

-- The activation makes ready exactly the waiting tasks of the round that depend on no task that is
-- not completed; every other task and every other table is as before.
pub activate_settled :
    (round : Text) (s t : Db) (a : Unit)
    → activate round s ≡ ok (a, t)
    → AreActivated round s.task_dependencies s.key_tasks s.key_tasks t.key_tasks
      × (t ≡ record s { key_tasks = t.key_tasks })
unfolding activate update_key_tasks ◌>>=◌
activate_settled round s t a e =
    let p = is_unblocked round s.task_dependencies s.key_tasks in
    let is : record s { key_tasks = update_where p set_ready s.key_tasks } ≡ t = cc in
    rw (← is) (update-AreActivated round s.task_dependencies s.key_tasks s.key_tasks, refl)

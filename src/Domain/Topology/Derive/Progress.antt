-- ===== src/Domain/Topology/Derive/Progress.antt =====
-- The order of the tasks of a plan of topology.py, while the tasks are done one after the other.
use deki_smpc_server.Prelude.{
  ℕ, ◌≡◌, refl, ◌⊎◌, inl, inr, Bool, true, false, some, List, [], ◌∷◌, map, Bool-cases,
}
use deki_smpc_server.Domain.Topology.{TaskId, Task, ManifestEntry, Plan}
use deki_smpc_server.Domain.Topology.Order.{In, AllIn, IsOrdered, InTasks}
use deki_smpc_server.Domain.Topology.Derive.{derive_tree_plan}
use deki_smpc_server.Domain.Topology.Derive.Plans.{derive_tree_plan-IsPlan}

abbrev pub AllDone : (TaskId → Bool) → List TaskId → Type 0
AllDone done [] = Unit
AllDone done (d ∷ ds) = (done d ≡ true) × AllDone done ds

done_at :
    (done : TaskId → Bool) (d : TaskId) (seen : List TaskId)
    → AllDone done seen
    → In d seen
    → done d ≡ true
done_at done d [] h m = absurd m
done_at done d (x ∷ xs) h (inl e) = rw e h.0
done_at done d (x ∷ xs) h (inr m) = done_at done d xs h.1 m

all_done :
    (done : TaskId → Bool) (ds seen : List TaskId)
    → AllDone done seen
    → AllIn ds seen
    → AllDone done ds
all_done done [] seen h k = tt
all_done done (d ∷ ds) seen h k = (done_at done d seen h k.0, all_done done ds seen h k.1)

-- Some task is not done, and may be done next.
abbrev pub HasNext : (TaskId → Bool) → List Task → Type 0
HasNext done ts = (t : Task) × InTasks t ts × (done t.task_id ≡ false) × AllDone done t.dependencies

ordered_next :
    (done : TaskId → Bool) (seen : List TaskId) (ts : List Task)
    → AllDone done seen
    → IsOrdered seen ts
    → AllDone done (map (λ t. t.task_id) ts) ⊎ HasNext done ts
ordered_next done seen [] h k = inl tt
ordered_next done seen (t ∷ ts) h k = elim (Bool-cases (done t.task_id)) [
  | inl now ↦ elim (ordered_next done (t.task_id ∷ seen) ts (now, h) k.1) [
    | inl rest ↦ inl (now, rest)
    | inr (u, m, left, ds) ↦ inr (u, inr m, left, ds)
  ]
  | inr not_yet ↦ inr (t, inl refl, not_yet, all_done done t.dependencies seen h k.0)
]

-- Whichever tasks of a derived plan are done, all of them are, or one is left whose dependencies are
-- all done.
pub derive_tree_plan_next :
    (draw : ℕ → ℕ) (fuel : ℕ) (manifest : List ManifestEntry) (plan : Plan)
    → derive_tree_plan draw fuel manifest ≡ some plan
    → (done : TaskId → Bool)
    → AllDone done (map (λ t. t.task_id) plan.tasks) ⊎ HasNext done plan.tasks
derive_tree_plan_next draw fuel manifest plan h done =
    ordered_next done [] plan.tasks tt (derive_tree_plan-IsPlan draw fuel manifest plan h).1.ordered

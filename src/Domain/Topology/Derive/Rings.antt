-- ===== src/Domain/Topology/Derive/Rings.antt =====
-- The tasks of the groups in topology.py: the chain of each group, in the order of the plan.
use deki_smpc_server.Prelude.{ℕ, ◌+◌, ◌≡◌, refl, inl, Text, some, List, [], ◌∷◌, ◌++◌}
use deki_smpc_server.Domain.Topology.{TaskId, start, add, unblind, Task, Group, Node, operator}
use deki_smpc_server.Domain.Topology.Tree.{leaves, Among, leaf_target_total}
use deki_smpc_server.Domain.Topology.Order.{
  In, IsOrdered, seen_after, In-seen, IsOrdered-append, seen_after-append,
}
use deki_smpc_server.Domain.Topology.Derive.{add_tasks, last_task, ring_tasks, group_tasks}

add_tasks-IsOrdered :
    (group : ℕ) (first : Text) (position : ℕ) (previous : TaskId) (rest : List Text)
    (seen : List TaskId)
    → In previous seen
    → IsOrdered seen (add_tasks group first position previous rest)
unfolding add_tasks
add_tasks-IsOrdered group first position previous [] seen h = tt
add_tasks-IsOrdered group first position previous (m ∷ rest) seen h =
    ((h, tt), add_tasks-IsOrdered group first (position + 1) (add group position) rest _ (inl refl))

last_task-seen :
    (group : ℕ) (first : Text) (position : ℕ) (previous : TaskId) (rest : List Text)
    (seen : List TaskId)
    → In previous seen
    → In
        (last_task group position previous rest)
        (seen_after seen (add_tasks group first position previous rest))
unfolding add_tasks last_task
last_task-seen group first position previous [] seen h = h
last_task-seen group first position previous (m ∷ rest) seen h =
    last_task-seen group first (position + 1) (add group position) rest (add group position ∷ seen)
      (inl refl)

ring_tasks-IsOrdered :
    (group : ℕ) (members : List Text) (target : Text) (seen : List TaskId)
    → IsOrdered seen (ring_tasks group members target)
unfolding ring_tasks
ring_tasks-IsOrdered group [] target seen = tt
ring_tasks-IsOrdered group (first ∷ rest) target seen = (
  tt,
  IsOrdered-append _ (add_tasks group first 1 (start group) rest) _
      (add_tasks-IsOrdered group first 1 (start group) rest _ (inl refl))
      ((last_task-seen group first 1 (start group) rest _ (inl refl), tt), tt),
)

unblind_seen :
    (group : ℕ) (first : Text) (rest : List Text) (target : Text) (seen : List TaskId)
    → In (unblind group) (seen_after seen (ring_tasks group (first ∷ rest) target))
unfolding ring_tasks
unblind_seen group first rest target seen =
    rw (seen_after-append (start group ∷ seen) (add_tasks group first 1 (start group) rest) _)
      (inl refl)

-- Each group has members, and its leaf stands in the tree.
abbrev pub AllPlaced : Node → List Group → Type 0
AllPlaced root [] = Unit
AllPlaced root (g ∷ gs) =
    ((first : Text) × (rest : List Text) × (g.members ≡ first ∷ rest))
    × Among g.group_id (leaves root)
    × AllPlaced root gs

abbrev pub AllUnblinded : List Group → List TaskId → Type 0
AllUnblinded [] seen = Unit
AllUnblinded (g ∷ gs) seen = In (unblind g.group_id) seen × AllUnblinded gs seen

-- The tasks of the groups are there and in order, and each group's last one is among them.
pub group_tasks_total :
    (root : Node) (groups : List Group) (seen : List TaskId)
    → AllPlaced root groups
    → (tasks : List Task) × (group_tasks root groups ≡ some tasks)
      × IsOrdered seen tasks
      × AllUnblinded groups (seen_after seen tasks)
unfolding group_tasks
group_tasks_total root [] seen h = ([], refl, tt, tt)
group_tasks_total root (g ∷ gs) seen ((first, rest, e), m, h) =
    let (target, f) = leaf_target_total g.group_id (operator root) root m in
    let ring = ring_tasks g.group_id g.members target in
    let (tasks, k, ordered, unblinded) = group_tasks_total root gs (seen_after seen ring) h in
    (
      ring ++ tasks,
      rw (f, k, group_tasks) refl,
      IsOrdered-append seen ring tasks (ring_tasks-IsOrdered g.group_id g.members target seen)
          ordered,
      rw (seen_after-append seen ring tasks) (
        In-seen (unblind g.group_id) (seen_after seen ring) tasks
            (rw e (unblind_seen g.group_id first rest target seen)),
        unblinded,
      ),
    )

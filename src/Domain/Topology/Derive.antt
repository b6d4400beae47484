-- ===== src/Domain/Topology/Derive.antt =====
-- `derive_tree_plan` of topology.py, from the shuffled participants to the list of tasks.
pub mod Groups
pub mod Rings
pub mod Sorting
pub mod Plans
pub mod Participants
pub mod Progress
use deki_smpc_server.Prelude.{
  ℕ, zero, suc, ◌+◌, Text, Bool, true, false, ◌&&◌, ◌||◌, Option, none, some, List, [], ◌∷◌, ◌++◌,
  map, ltb, ◌==◌, if◌then◌else◌, length, get_or,
}
use deki_smpc_server.Domain.Topology.{
  TaskId, start, add, unblind, group_start, group_add, group_unblind, group_stage, Task,
  ManifestEntry, Group, Plan, shuffle, ceil_div, group_sizes, groups_from, Node, leaf, operator,
  build_tree, node_task, leaf_target, tree_tasks,
}

-- `len(set(participants)) != len(participants)`.
unfoldable pub mem : Text → List Text → Bool
mem x [] = false
mem x (y ∷ ys) = x == y || mem x ys

unfoldable pub has_duplicate : List Text → Bool
unfolding mem
has_duplicate [] = false
has_duplicate (x ∷ xs) = mem x xs || has_duplicate xs

-- The `GROUP_ADD` tasks: each member after the first sends to the next, the last to the first.
-- `rest` holds the members from `position` on, and `previous` is the task before.
add_tasks : ℕ → Text → ℕ → TaskId → List Text → List Task
add_tasks group first position previous [] = []
add_tasks group first position previous (member ∷ rest) =
    record {
      task_id = add group position;
      action = group_add;
      stage = group_stage;
      level = 0;
      sender = member;
      receiver = get_or rest 0 first;
      dependencies = previous ∷ [];
    }
    ∷ add_tasks group first (position + 1) (add group position) rest

-- `previous` after the loop.
last_task : ℕ → ℕ → TaskId → List Text → TaskId
last_task group position previous [] = previous
last_task group position previous (member ∷ rest) =
    last_task group (position + 1) (add group position) rest

-- The tasks of one group; `target` is that of its leaf. A group has two members at least.
ring_tasks : ℕ → List Text → Text → List Task
unfolding add_tasks last_task
ring_tasks group [] target = []
ring_tasks group (first ∷ rest) target =
    record {
      task_id = start group;
      action = group_start;
      stage = group_stage;
      level = 0;
      sender = first;
      receiver = get_or rest 0 first;
      dependencies = [];
    }
    ∷ (add_tasks group first 1 (start group) rest
        ++ record {
          task_id = unblind group;
          action = group_unblind;
          stage = group_stage;
          level = 0;
          sender = first;
          receiver = target;
          dependencies = last_task group 1 (start group) rest ∷ [];
        }
          ∷ [])

-- The loop over the groups; `none` where `next` finds no leaf.
pub group_tasks : Node → List Group → Option (List Task)
unfolding ring_tasks
group_tasks root [] = some []
group_tasks root (g ∷ groups) =
    let rest = group_tasks root groups in
    elim (leaf_target g.group_id (operator root) root) [
      | none ↦ none
      | some target ↦ elim rest [
        | none ↦ none
        | some tasks ↦ some (ring_tasks g.group_id g.members target ++ tasks)
      ]
    ]

-- The second component of the sort key of an inner node.
abbrev node_index : TaskId → ℕ
node_index (TaskId.node l i) = i
node_index _ = 0

-- `(a.level, a.index) <= (b.level, b.index)`.
abbrev key_le : Task → Task → Bool
key_le a b =
    ltb a.level b.level
    || (a.level == b.level
        && (if ltb (node_index b.task_id) (node_index a.task_id) then false else true))

insert_task : Task → List Task → List Task
insert_task t [] = t ∷ []
insert_task t (u ∷ us) = let rest = insert_task t us in if key_le t u then t ∷ u ∷ us else u ∷ rest

-- `sorted(tree_nodes, key=…)`, on the tasks of the nodes.
pub sort_tasks : List Task → List Task
unfolding insert_task
sort_tasks [] = []
sort_tasks (t ∷ ts) = insert_task t (sort_tasks ts)

abbrev pub group_leaf : Group → Node
group_leaf g = leaf g.coordinator g.group_id

-- `math.ceil(math.log2(n))` for n > 1, and 0 else: the least k with n ≤ 2 ^ k, on fuel n.
ceil_log2 : ℕ → ℕ → ℕ
ceil_log2 zero n = 0
ceil_log2 (suc fuel) n =
    let rest = suc (ceil_log2 fuel (ceil_div n 2)) in if ltb 1 n then rest else 0

-- The plan over shuffled participants. `none` is an error of `_group_sizes`.
pub plan_of : List Text → Option Plan
unfolding group_sizes groups_from build_tree group_tasks tree_tasks sort_tasks ceil_log2 leaf_target
plan_of shuffled = elim (group_sizes (length shuffled)) [
  | none ↦ none
  | some sizes ↦
      (let groups = groups_from 0 0 shuffled sizes in
        elim (build_tree (length groups) 0 (map group_leaf groups)) [
          | none ↦ none
          | some root ↦ elim (group_tasks root groups) [
            | none ↦ none
            | some ring ↦ some (record {
              participants = shuffled;
              groups = groups;
              tasks = ring ++ sort_tasks (tree_tasks (operator root) root);
              root_client_id = operator root;
              root_task_id = node_task root;
              tree_levels = ceil_log2 (length groups) (length groups);
            })
          ]
        ])
]

abbrev pub client_ids : List ManifestEntry → List Text
client_ids = map (λ e. e.client_id)

-- `derive_tree_plan`. `draw` stands for the SHA-256 stream of the seed, and `fuel` bounds the
-- rejected draws; `none` is a `ValueError`, or that the fuel ran out.
unfoldable pub derive_tree_plan : (ℕ → ℕ) → ℕ → List ManifestEntry → Option Plan
unfolding plan_of shuffle has_duplicate
derive_tree_plan draw fuel manifest =
    if has_duplicate (client_ids manifest)
    then none
    else elim (shuffle draw fuel (client_ids manifest)) [
      | none ↦ none
      | some shuffled ↦ plan_of shuffled
    ]

-- ===== src/Domain/Topology.antt =====
-- key-aggregation-server/app/domain/topology.py: the plan of protocol 1.1, from the manifest of a
-- round. SHA-256 and the canonical JSON text are parameters, since they are library code.
pub mod Derive
pub mod Sizes
pub mod Shuffle
pub mod Tree
pub mod Order
use deki_smpc_server.Prelude.{
  ℕ, zero, suc, ◌+◌, ◌-◌, ◌/◌, ◌%◌, ◌^◌, Text, Bool, true, false, ◌||◌, Option, none, some, List,
  [], ◌∷◌, ◌++◌, ltb, leb, ◌==◌, if◌then◌else◌, length, take, drop, set, get_or,
}

-- The task identifiers `g{group}-start`, `g{group}-add-{position}`, `g{group}-unblind` and
-- `t{level}-{index}`.
pub data TaskId : Type 0 where
  start : ℕ → TaskId
  add : ℕ → ℕ → TaskId
  unblind : ℕ → TaskId
  node : ℕ → ℕ → TaskId

pub data Action : Type 0 where
  group_start group_add group_unblind tree_combine tree_carry : Action

pub data Stage : Type 0 where
  group_stage tree_stage : Stage

pub record Task : Type 0 where
  pub task_id : TaskId
  pub action : Action
  pub stage : Stage
  pub level : ℕ
  pub sender : Text
  pub receiver : Text
  pub dependencies : List TaskId

pub record ManifestEntry : Type 0 where
  pub client_id : Text
  pub public_key : Text
  pub signature : Text

pub record Group : Type 0 where
  pub group_id : ℕ
  pub members : List Text
  pub coordinator : Text

pub record Plan : Type 0 where
  pub participants : List Text
  pub groups : List Group
  pub tasks : List Task
  pub root_client_id : Text
  pub root_task_id : TaskId
  pub tree_levels : ℕ

-- `sorted` on texts.
insert_sorted : Text → List Text → List Text
insert_sorted x [] = x ∷ []
insert_sorted x (y ∷ ys) = let rest = insert_sorted x ys in if leb x y then x ∷ y ∷ ys else y ∷ rest

sorted : List Text → List Text
unfolding insert_sorted
sorted [] = []
sorted (x ∷ xs) = insert_sorted x (sorted xs)

-- `shuffled[i], shuffled[j] = shuffled[j], shuffled[i]`, both in range.
swap : ℕ → ℕ → List Text → List Text
swap i j xs = set (set xs i (get_or xs j 0)) j (get_or xs i 0)

-- The inner `while True` of `_shuffle`: draws until a value lies below the cutoff, and returns it
-- with the next counter. `draw counter` is the SHA-256 of the seed and the counter, as a number.
-- The fuel bounds the rejected draws; `none` means that it ran out.
draw_below : (ℕ → ℕ) → ℕ → ℕ → ℕ → Option (ℕ × ℕ)
draw_below draw zero cutoff counter = none
draw_below draw (suc fuel) cutoff counter =
    let again = draw_below draw fuel cutoff (counter + 1) in
    if ltb (draw counter) cutoff then some (draw counter, counter + 1) else again

abbrev pub cutoff_of : ℕ → ℕ
cutoff_of modulus = 2 ^ 256 - 2 ^ 256 % modulus

-- `for upper in range(len(shuffled) - 1, 0, -1)`, from `upper` down to 1.
shuffle_from : (ℕ → ℕ) → ℕ → ℕ → ℕ → List Text → Option (List Text)
unfolding draw_below swap
shuffle_from draw fuel zero counter xs = some xs
shuffle_from draw fuel (suc upper) counter xs =
    elim (draw_below draw fuel (cutoff_of (suc upper + 1)) counter) [
      | none ↦ none
      | some (value, next) ↦
          shuffle_from draw fuel upper next (swap (suc upper) (value % (suc upper + 1)) xs)
    ]

-- `_shuffle`.
pub shuffle : (ℕ → ℕ) → ℕ → List Text → Option (List Text)
unfolding shuffle_from sorted
shuffle draw fuel participants =
    shuffle_from draw fuel (length participants - 1) 0 (sorted participants)

-- `math.ceil(a / b)`.
abbrev pub ceil_div : ℕ → ℕ → ℕ
ceil_div a b = (a + b - 1) / b

-- `[base + (index < remainder) for index in range(group_count)]`, from `index` on for `count` more.
unfoldable pub sizes_from : ℕ → ℕ → ℕ → ℕ → List ℕ
sizes_from base remainder index zero = []
sizes_from base remainder index (suc count) =
    (if ltb index remainder then base + 1 else base) ∷ sizes_from base remainder (index + 1) count

-- `any(size not in {3, 4} for size in sizes)`.
unfoldable pub any_unbalanced : List ℕ → Bool
any_unbalanced [] = false
any_unbalanced (s ∷ sizes) =
    (if s == 3 then false else if s == 4 then false else true) || any_unbalanced sizes

-- `_group_sizes`; `none` is either of its two errors.
unfoldable pub group_sizes : ℕ → Option (List ℕ)
unfolding sizes_from any_unbalanced
group_sizes n =
    if ltb n 3
    then none
    else if n == 5
    then some (5 ∷ [])
    else (let group_count = ceil_div n 4 in
        let sizes = sizes_from (n / group_count) (n % group_count) 0 group_count in
        if any_unbalanced sizes then none else some sizes)

-- The slices `shuffled[offset : offset + size]`, with their group numbers.
pub groups_from : ℕ → ℕ → List Text → List ℕ → List Group
groups_from index offset shuffled [] = []
groups_from index offset shuffled (size ∷ sizes) =
    let members = take size (drop offset shuffled) in
    record { group_id = index; members = members; coordinator = get_or members 0 0 }
    ∷ groups_from (index + 1) (offset + size) shuffled sizes

-- A node of the tree: a group, or an inner node with its operator, level, index and children.
pub data Node : Type 0 where
  leaf : Text → ℕ → Node
  carry : Text → ℕ → ℕ → Node → Node
  combine : Text → ℕ → ℕ → Node → Node → Node

abbrev operator : Node → Text
operator (leaf o g) = o
operator (carry o l i c) = o
operator (combine o l i c d) = o

-- One round of the `while len(active) > 1` loop: the nodes of the next level.
pair_up : ℕ → ℕ → List Node → List Node
pair_up level index [] = []
pair_up level index (c ∷ []) = carry (operator c) level index c ∷ []
pair_up level index (c ∷ d ∷ rest) =
    combine (operator c) level index c d ∷ pair_up level (index + 1) rest

-- The loop on fuel; each round halves the number of active nodes, rounding up.
pub build_tree : ℕ → ℕ → List Node → Option Node
unfolding pair_up
build_tree fuel level [] = none
build_tree fuel level (c ∷ []) = some c
build_tree zero level (c ∷ d ∷ rest) = none
build_tree (suc fuel) level (c ∷ d ∷ rest) =
    build_tree fuel (level + 1) (pair_up level 0 (c ∷ d ∷ rest))

-- `node["task_id"]`, set when the node's task is made.
abbrev node_task : Node → TaskId
node_task (leaf o g) = unblind g
node_task (carry o l i c) = TaskId.node l i
node_task (combine o l i c d) = TaskId.node l i

-- `assign_targets`, followed by the search of `_walk_nodes` for the leaf of a group: the target of
-- the first such leaf in preorder.
pub leaf_target : ℕ → Text → Node → Option Text
leaf_target group target (leaf o g) = if g == group then some target else none
leaf_target group target (carry o l i c) = leaf_target group o c
leaf_target group target (combine o l i c d) =
    let left = leaf_target group o c in
    let right = leaf_target group o d in elim left [ some t ↦ some t | none ↦ right ]

-- The `TREE_COMBINE` and `TREE_CARRY` tasks of the inner nodes, with their targets, in preorder.
pub tree_tasks : Text → Node → List Task
tree_tasks target (leaf o g) = []
tree_tasks target (carry o l i c) =
    record {
      task_id = TaskId.node l i;
      action = tree_carry;
      stage = tree_stage;
      level = l;
      sender = o;
      receiver = target;
      dependencies = node_task c ∷ [];
    }
    ∷ tree_tasks o c
tree_tasks target (combine o l i c d) =
    record {
      task_id = TaskId.node l i;
      action = tree_combine;
      stage = tree_stage;
      level = l;
      sender = o;
      receiver = target;
      dependencies = node_task c ∷ node_task d ∷ [];
    }
    ∷ (tree_tasks o c ++ tree_tasks o d)

-- ===== src/Domain/Topology/Derive/Sorting.antt =====
-- `sorted(tree_nodes, key=…)` in topology.py, on the tasks of the inner nodes.
use deki_smpc_server.Prelude.{
  ℕ, ◌≡◌, refl, ◌⊎◌, inl, inr, true, false, Text, List, [], ◌∷◌, ◌++◌, ◌≤◌, arith, Bool-cases,
}
use deki_smpc_server.Domain.Topology.{
  TaskId, unblind, Task, Node, leaf, carry, combine, node_task, tree_tasks,
}
use deki_smpc_server.Domain.Topology.Tree.{
  leaves, Among, height, IsLevelled, Among-left, Among-right,
}
use deki_smpc_server.Domain.Topology.Order.{In, InTasks, AboveAll, IsSorted, IsMet, AllMet}
use deki_smpc_server.Domain.Topology.Derive.{key_le, insert_task, sort_tasks}

key_le-level : (t u : Task) → key_le t u ≡ true → t.level ≤ u.level
key_le-level t u h = ground arith

key_gt-level : (t u : Task) → key_le t u ≡ false → u.level ≤ t.level
key_gt-level t u h = ground arith

above_trans : (t u : Task) (ts : List Task) → t.level ≤ u.level → AboveAll u ts → AboveAll t ts
above_trans t u [] h k = tt
above_trans t u (x ∷ xs) h k = (omega arith, above_trans t u xs h k.1)

insert_task-above :
    (s t : Task) (ts : List Task)
    → s.level ≤ t.level
    → AboveAll s ts
    → AboveAll s (insert_task t ts)
unfolding insert_task
insert_task-above s t [] h k = (h, tt)
insert_task-above s t (u ∷ us) h k = elim (Bool-cases (key_le t u)) [
  | inl le ↦ rw le (h, k)
  | inr gt ↦ rw gt (k.0, insert_task-above s t us h k.1)
]

insert_task-IsSorted : (t : Task) (ts : List Task) → IsSorted ts → IsSorted (insert_task t ts)
unfolding insert_task
insert_task-IsSorted t [] h = (tt, tt)
insert_task-IsSorted t (u ∷ us) h = elim (Bool-cases (key_le t u)) [
  | inl le ↦ rw le ((key_le-level t u le, above_trans t u us (key_le-level t u le) h.0), h)
  | inr gt ↦
      rw gt (insert_task-above u t us (key_gt-level t u gt) h.0, insert_task-IsSorted t us h.1)
]

pub sort_tasks-IsSorted : (ts : List Task) → IsSorted (sort_tasks ts)
unfolding sort_tasks
sort_tasks-IsSorted [] = tt
sort_tasks-IsSorted (t ∷ ts) = insert_task-IsSorted t (sort_tasks ts) (sort_tasks-IsSorted ts)

insert_task-in :
    (s t : Task) (ts : List Task) → InTasks s (insert_task t ts) → (s ≡ t) ⊎ InTasks s ts
unfolding insert_task
insert_task-in s t [] m = m
insert_task-in s t (u ∷ us) m = elim (Bool-cases (key_le t u)) [
  | inl le ↦ rw le at m
  | inr gt ↦ elim (rw gt at m) [
    | inl e ↦ inr (inl e)
    | inr k ↦ elim (insert_task-in s t us k) [ inl e ↦ inl e | inr j ↦ inr (inr j) ]
  ]
]

in_insert : (s t : Task) (ts : List Task) → (s ≡ t) ⊎ InTasks s ts → InTasks s (insert_task t ts)
unfolding insert_task
in_insert s t [] m = m
in_insert s t (u ∷ us) (inl e) = elim (Bool-cases (key_le t u)) [
  | inl le ↦ rw le (inl e)
  | inr gt ↦ rw gt (inr (in_insert s t us (inl e)))
]
in_insert s t (u ∷ us) (inr (inl e)) = elim (Bool-cases (key_le t u)) [
  | inl le ↦ rw le (inr (inl e))
  | inr gt ↦ rw gt (inl e)
]
in_insert s t (u ∷ us) (inr (inr k)) = elim (Bool-cases (key_le t u)) [
  | inl le ↦ rw le (inr (inr k))
  | inr gt ↦ rw gt (inr (in_insert s t us (inr k)))
]

pub sort_tasks-in : (s : Task) (ts : List Task) → InTasks s (sort_tasks ts) → InTasks s ts
unfolding sort_tasks
sort_tasks-in s [] m = m
sort_tasks-in s (t ∷ ts) m = elim (insert_task-in s t (sort_tasks ts) m) [
  | inl e ↦ inl e
  | inr k ↦ inr (sort_tasks-in s ts k)
]

pub in_sorted : (s : Task) (ts : List Task) → InTasks s ts → InTasks s (sort_tasks ts)
unfolding sort_tasks
in_sorted s [] m = m
in_sorted s (t ∷ ts) (inl e) = in_insert s t (sort_tasks ts) (inl e)
in_sorted s (t ∷ ts) (inr m) = in_insert s t (sort_tasks ts) (inr (in_sorted s ts m))

tasks_left : (s : Task) (xs ys : List Task) → InTasks s xs → InTasks s (xs ++ ys)
tasks_left s [] ys h = absurd h
tasks_left s (x ∷ xs) ys (inl e) = inl e
tasks_left s (x ∷ xs) ys (inr h) = inr (tasks_left s xs ys h)

tasks_right : (s : Task) (xs ys : List Task) → InTasks s ys → InTasks s (xs ++ ys)
tasks_right s [] ys h = h
tasks_right s (x ∷ xs) ys h = inr (tasks_right s xs ys h)

tasks_either : (s : Task) (xs ys : List Task) → InTasks s (xs ++ ys) → InTasks s xs ⊎ InTasks s ys
tasks_either s [] ys h = inr h
tasks_either s (x ∷ xs) ys (inl e) = inl (inl e)
tasks_either s (x ∷ xs) ys (inr h) = elim (tasks_either s xs ys h) [
  | inl a ↦ inl (inr a)
  | inr b ↦ inr b
]

module _ (seen : List TaskId) (ts : List Task) where
  -- The task of a child of a node at level `l`.
  child-IsMet :
      (c : Node) (target : Text) (l : ℕ)
      → height c ≤ l
      → ((g : ℕ) → Among g (leaves c) → In (unblind g) seen)
      → ((u : Task) → InTasks u (tree_tasks target c) → InTasks u ts)
      → IsMet seen ts l (node_task c)
  unfolding tree_tasks
  child-IsMet (leaf o g) target r h m k = inl (m g (inl refl))
  child-IsMet (carry o l i c) target r h m k = inr (_, k _ (inl refl), refl, h)
  child-IsMet (combine o l i c d) target r h m k = inr (_, k _ (inl refl), refl, h)

  -- In a tree each dependency of an inner node's task is the last task of a group, or a task at a
  -- lower level.
  pub tree_tasks-AllMet :
      (n : Node) (target : Text)
      → IsLevelled n
      → ((g : ℕ) → Among g (leaves n) → In (unblind g) seen)
      → ((u : Task) → InTasks u (tree_tasks target n) → InTasks u ts)
      → (t : Task) → InTasks t (tree_tasks target n)
      → AllMet seen ts t.level t.dependencies
  unfolding tree_tasks
  tree_tasks-AllMet (leaf o g) target v m k t h = absurd h
  tree_tasks-AllMet (carry o l i c) target v m k t (inl e) =
      rw e (child-IsMet c o l v.0 m (λ u j. k u (inr j)), tt)
  tree_tasks-AllMet (carry o l i c) target v m k t (inr h) =
      tree_tasks-AllMet c o v.1 m (λ u j. k u (inr j)) t h
  tree_tasks-AllMet (combine o l i c d) target v m k t (inl e) = rw e (
    child-IsMet c o l v.0 (λ g a. m g (Among-left g (leaves c) (leaves d) a))
        (λ u j. k u (inr (tasks_left u (tree_tasks o c) (tree_tasks o d) j))),
    (
      child-IsMet d o l v.1 (λ g a. m g (Among-right g (leaves c) (leaves d) a))
          (λ u j. k u (inr (tasks_right u (tree_tasks o c) (tree_tasks o d) j))),
      tt,
    ),
  )
  tree_tasks-AllMet (combine o l i c d) target v m k t (inr h) =
      elim (tasks_either t (tree_tasks o c) (tree_tasks o d) h) [
        | inl a ↦
            tree_tasks-AllMet c o v.2 (λ g b. m g (Among-left g (leaves c) (leaves d) b))
              (λ u j. k u (inr (tasks_left u (tree_tasks o c) (tree_tasks o d) j))) t a
        | inr b ↦
            tree_tasks-AllMet d o v.3 (λ g b. m g (Among-right g (leaves c) (leaves d) b))
              (λ u j. k u (inr (tasks_right u (tree_tasks o c) (tree_tasks o d) j))) t b
      ]

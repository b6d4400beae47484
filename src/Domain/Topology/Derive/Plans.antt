-- ===== src/Domain/Topology/Derive/Plans.antt =====
-- `derive_tree_plan` of topology.py as a whole: its groups, its tasks and its root.
use deki_smpc_server.Prelude.{
  ℕ, ◌+◌, ◌≤◌, ◌<◌, ◌≡◌, refl, sym, ap, ◌∙◌, inl, inr, ◌⊎◌, true, false, Text, none, some, List, [],
  ◌∷◌, ◌++◌, map, length, arith, ltb, Bool-cases, Option-cases,
}
use deki_smpc_server.Domain.Topology.{
  TaskId, unblind, Task, ManifestEntry, Group, Plan, Node, leaf, carry, combine, operator,
  node_task, tree_tasks, groups_from, shuffle, group_sizes,
}
use deki_smpc_server.Domain.Topology.Sizes.{group_sizes-total}
use deki_smpc_server.Domain.Topology.Shuffle.{
  occurrences, Settles, shuffle-occurrences, shuffle-length, shuffle_total,
}
use deki_smpc_server.Domain.Topology.Tree.{leaves, Among, IsLevelled, build_tree_total}
use deki_smpc_server.Domain.Topology.Order.{
  In, IsOrdered, seen_after, In-seen, IsOrdered-append, seen_after-append, InTasks,
  IsSorted-IsOrdered,
}
use deki_smpc_server.Domain.Topology.Derive.{
  has_duplicate, ceil_log2, sort_tasks, group_leaf, plan_of, client_ids, derive_tree_plan,
}
use deki_smpc_server.Domain.Topology.Derive.Groups.{
  all_members, group_ids, AreGroups, all_members-groups_from, groups_from-AreGroups,
  all_leaves-group_leaf, AllLevelled-group_leaf, length-group_leaf,
}
use deki_smpc_server.Domain.Topology.Derive.Rings.{AllPlaced, AllUnblinded, group_tasks_total}
use deki_smpc_server.Domain.Topology.Derive.Sorting.{
  sort_tasks-IsSorted, sort_tasks-in, in_sorted, tree_tasks-AllMet,
}

-- What a plan over shuffled participants is to be: the groups divide the participants among them,
-- and each of the tasks stands after the tasks that it depends on, and the root's is one of them.
pub record IsPlan (plan : Plan) : Type 0 where
  pub divided : all_members plan.groups ≡ plan.participants
  pub grouped : AreGroups 0 plan.groups
  pub ordered : IsOrdered [] plan.tasks
  pub rooted : In plan.root_task_id (seen_after [] plan.tasks)

task_seen :
    (t : Task) (seen : List TaskId) (ts : List Task)
    → InTasks t ts
    → In t.task_id (seen_after seen ts)
task_seen t seen [] m = absurd m
task_seen t seen (u ∷ us) (inl e) = In-seen t.task_id (u.task_id ∷ seen) us (inl (cc))
task_seen t seen (u ∷ us) (inr m) = task_seen t (u.task_id ∷ seen) us m

placed :
    (root : Node) (index : ℕ) (gs : List Group)
    → AreGroups index gs
    → ((i : ℕ) → Among i (group_ids gs) → Among i (leaves root))
    → AllPlaced root gs
placed root index [] h k = tt
placed root index (g ∷ gs) h k = (
  (g.coordinator, h.1.rest, h.1.members_are),
  k g.group_id (inl refl),
  placed root (index + 1) gs h.2 (λ i m. k i (inr m)),
)

unblinded_at :
    (gs : List Group) (seen : List TaskId) (i : ℕ)
    → AllUnblinded gs seen
    → Among i (group_ids gs)
    → In (unblind i) seen
unblinded_at [] seen i h m = absurd m
unblinded_at (g ∷ gs) seen i h (inl e) = rw e h.0
unblinded_at (g ∷ gs) seen i h (inr m) = unblinded_at gs seen i h.1 m

-- The sorted tasks of a tree are in order where those of its groups have been seen.
sorted_tree-IsOrdered :
    (root : Node) (seen : List TaskId)
    → IsLevelled root
    → ((i : ℕ) → Among i (leaves root) → In (unblind i) seen)
    → IsOrdered seen (sort_tasks (tree_tasks (operator root) root))
sorted_tree-IsOrdered root seen v m =
    let ts = tree_tasks (operator root) root in
    IsSorted-IsOrdered seen (sort_tasks ts) (sort_tasks-IsSorted ts) (λ t k.
      tree_tasks-AllMet seen (sort_tasks ts) root (operator root) v m (λ u j. in_sorted u ts j) t
        (sort_tasks-in t ts k))

root_seen :
    (root : Node) (target : Text) (seen : List TaskId)
    → ((i : ℕ) → Among i (leaves root) → In (unblind i) seen)
    → In (node_task root) (seen_after seen (sort_tasks (tree_tasks target root)))
unfolding tree_tasks
root_seen (leaf o g) target seen m =
    In-seen (unblind g) seen (sort_tasks (tree_tasks target (leaf o g))) (m g (inl refl))
root_seen (carry o l i c) target seen m =
    let ts = tree_tasks target (carry o l i c) in
    task_seen _ seen (sort_tasks ts) (in_sorted _ ts (inl refl))
root_seen (combine o l i c d) target seen m =
    let ts = tree_tasks target (combine o l i c d) in
    task_seen _ seen (sort_tasks ts) (in_sorted _ ts (inl refl))

some_group : (gs : List Group) → 0 < length (all_members gs) → 0 < length gs
some_group [] h = absurd (omega arith)
some_group (g ∷ gs) h = omega arith

-- From three participants on, the plan is there.
plan_of_total :
    (xs : List Text)
    → 3 ≤ length xs
    → (plan : Plan) × (plan_of xs ≡ some plan) × (plan.participants ≡ xs) × IsPlan plan
unfolding plan_of
plan_of_total xs h =
    let (sizes, sized, sum, balanced) = group_sizes-total (length xs) h in
    let gs = groups_from 0 0 xs sizes in
    let groups = groups_from-AreGroups 0 0 xs sizes (omega (arith, sum)) balanced in
    let members = all_members-groups_from 0 0 xs sizes (omega (arith, sum)) in
    let pos = some_group gs (omega (arith, ap (λ ys. length ys) members)) in
    let (root, built, tree) =
      build_tree_total (length gs) 0 (map group_leaf gs) (omega (arith, length-group_leaf gs))
        (omega (arith, length-group_leaf gs)) (AllLevelled-group_leaf gs) in
    let ids = tree.same_leaves ∙ all_leaves-group_leaf gs in
    let (ring, found, ordered, unblinded) =
      group_tasks_total root gs [] (placed root 0 gs groups (λ i m. rw ids m)) in
    let seen : (i : ℕ) → Among i (leaves root) → In (unblind i) (seen_after [] ring) =
      λ i m. unblinded_at gs (seen_after [] ring) i unblinded (rw ids at m) in
    let sorted = sort_tasks (tree_tasks (operator root) root) in
    (
      record {
        participants = xs;
        groups = gs;
        tasks = ring ++ sorted;
        root_client_id = operator root;
        root_task_id = node_task root;
        tree_levels = ceil_log2 (length gs) (length gs);
      },
      rw (sized, built, found, plan_of) refl,
      refl,
      record {
        divided = members;
        grouped = groups;
        ordered =
            IsOrdered-append [] ring sorted ordered
              (sorted_tree-IsOrdered root (seen_after [] ring) tree.levelled seen);
        rooted =
            rw (seen_after-append [] ring sorted)
              (root_seen root (operator root) (seen_after [] ring) seen);
      },
    )

plan_of-none : (xs : List Text) → length xs < 3 → plan_of xs ≡ none
unfolding plan_of group_sizes
plan_of-none xs h = ground arith

-- For three or more distinct participants, and draws that settle, a plan is derived: its
-- participants are those of the manifest, rearranged; its groups, numbered from 0, have three to
-- five members, are coordinated by their first one and divide the participants among them; its
-- tasks stand in an order in which each comes after those it depends on, and the root's task is
-- one of them.
pub derive_tree_plan_total :
    (draw : ℕ → ℕ) (fuel : ℕ) (manifest : List ManifestEntry)
    → has_duplicate (client_ids manifest) ≡ false
    → 3 ≤ length (client_ids manifest)
    → ((modulus : ℕ)
        → modulus ≤ length (client_ids manifest)
        → 0 < modulus
        → Settles draw fuel modulus)
    → (plan : Plan) × (derive_tree_plan draw fuel manifest ≡ some plan)
      × ((a : Text) → occurrences a plan.participants ≡ occurrences a (client_ids manifest))
      × IsPlan plan
unfolding derive_tree_plan
derive_tree_plan_total draw fuel manifest distinct enough settles =
    let ids = client_ids manifest in
    let (shuffled, e) = shuffle_total draw fuel ids settles in
    let (plan, planned, same, sound) =
      plan_of_total shuffled (omega (arith, shuffle-length draw fuel ids shuffled e)) in
    (
      plan,
      rw (distinct, e, planned, derive_tree_plan) refl,
      λ a. rw same (shuffle-occurrences draw fuel ids shuffled e a),
      sound,
    )

-- No plan is derived from participants that are not distinct, or that are less than three.
pub derive_tree_plan-none :
    (draw : ℕ → ℕ) (fuel : ℕ) (manifest : List ManifestEntry)
    → (has_duplicate (client_ids manifest) ≡ true) ⊎ (length (client_ids manifest) < 3)
    → derive_tree_plan draw fuel manifest ≡ none
unfolding derive_tree_plan
derive_tree_plan-none draw fuel manifest (inl repeated) = rw (repeated, derive_tree_plan) refl
derive_tree_plan-none draw fuel manifest (inr few) =
    elim (Bool-cases (has_duplicate (client_ids manifest))) [
      | inl repeated ↦ rw (repeated, derive_tree_plan) refl
      | inr distinct ↦ elim (Option-cases (shuffle draw fuel (client_ids manifest))) [
        | inl e ↦ rw (distinct, e, derive_tree_plan) refl
        | inr (shuffled, e) ↦
            rw (distinct, e, derive_tree_plan)
              (plan_of-none shuffled
                (omega (arith, shuffle-length draw fuel (client_ids manifest) shuffled e)))
      ]
    ]

-- A plan that is derived is a plan over the participants of the manifest, rearranged.
pub derive_tree_plan-IsPlan :
    (draw : ℕ → ℕ) (fuel : ℕ) (manifest : List ManifestEntry) (plan : Plan)
    → derive_tree_plan draw fuel manifest ≡ some plan
    → ((a : Text) → occurrences a plan.participants ≡ occurrences a (client_ids manifest))
      × IsPlan plan
unfolding derive_tree_plan
derive_tree_plan-IsPlan draw fuel manifest plan h =
    let ids = client_ids manifest in
    elim (Bool-cases (has_duplicate ids)) [
      | inl repeated ↦
          let none_is = derive_tree_plan-none draw fuel manifest (inl repeated) in absurd (cc)
      | inr distinct ↦ elim (Bool-cases (ltb (length ids) 3)) [
        | inl few ↦
            let none_is = derive_tree_plan-none draw fuel manifest (inr (ground arith)) in
            absurd (cc)
        | inr enough ↦ elim (Option-cases (shuffle draw fuel ids)) [
          | inl e ↦ let none_is = rw (distinct, e, derive_tree_plan) at h in absurd (cc)
          | inr (shuffled, e) ↦
              let (other, planned, same, sound) =
                plan_of_total shuffled (ground (arith, shuffle-length draw fuel ids shuffled e)) in
              let found = rw (distinct, e, planned, derive_tree_plan) at h in
              let is : other ≡ plan = cc in
              rw (sym is) (λ a. rw same (shuffle-occurrences draw fuel ids shuffled e a), sound)
        ]
      ]
    ]

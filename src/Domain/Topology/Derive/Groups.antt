-- ===== src/Domain/Topology/Derive/Groups.antt =====
-- The groups of a plan in topology.py: the slices of the shuffled participants.
use deki_smpc_server.Prelude.{
  ℕ, ◌+◌, ◌≤◌, ◌≡◌, refl, sym, ap, ◌∙◌, Text, List, [], ◌∷◌, ◌++◌, map, length, take, drop, get_or,
  arith, take-drop, drop-drop, drop_all, length-drop, length-take,
}
use deki_smpc_server.Domain.Topology.{Group, groups_from}
use deki_smpc_server.Domain.Topology.Sizes.{total, AreBalanced}
use deki_smpc_server.Domain.Topology.Tree.{all_leaves, AllLevelled}
use deki_smpc_server.Domain.Topology.Derive.{group_leaf}

abbrev pub all_members : List Group → List Text
all_members [] = []
all_members (g ∷ gs) = g.members ++ all_members gs

abbrev pub group_ids : List Group → List ℕ
group_ids [] = []
group_ids (g ∷ gs) = g.group_id ∷ group_ids gs

-- A group has three to five members, and the first of them coordinates it.
pub record IsGroup (g : Group) : Type 0 where
  pub rest : List Text
  pub members_are : g.members ≡ g.coordinator ∷ rest
  pub at_least : 3 ≤ length g.members
  pub at_most : length g.members ≤ 5

-- The groups are numbered from an index on.
abbrev pub AreGroups : ℕ → List Group → Type 0
AreGroups index [] = Unit
AreGroups index (g ∷ gs) = (g.group_id ≡ index) × IsGroup g × AreGroups (index + 1) gs

pub all_members-groups_from :
    (index offset : ℕ) (xs : List Text) (sizes : List ℕ)
    → offset + total sizes ≡ length xs
    → all_members (groups_from index offset xs sizes) ≡ drop offset xs
unfolding groups_from
all_members-groups_from index offset xs [] e = sym (drop_all offset xs (omega arith))
all_members-groups_from index offset xs (s ∷ sizes) e =
    ap (λ ys. take s (drop offset xs) ++ ys)
      (all_members-groups_from (index + 1) (offset + s) xs sizes (omega arith)
        ∙ sym (drop-drop offset s (offset + s) xs refl))
    ∙ take-drop s (drop offset xs)

first_is : (xs : List Text) → 0 + 1 ≤ length xs → (rest : List Text) × (xs ≡ get_or xs 0 0 ∷ rest)
first_is [] h = absurd (omega arith)
first_is (x ∷ xs) h = (xs, refl)

pub groups_from-AreGroups :
    (index offset : ℕ) (xs : List Text) (sizes : List ℕ)
    → offset + total sizes ≡ length xs
    → AreBalanced sizes
    → AreGroups index (groups_from index offset xs sizes)
unfolding groups_from
groups_from-AreGroups index offset xs [] e b = tt
groups_from-AreGroups index offset xs (s ∷ sizes) e b =
    let left = length-drop offset xs (omega arith) in
    let n = length-take s (drop offset xs) (omega (arith, left)) in
    let (rest, f) = first_is (take s (drop offset xs)) (omega (arith, n)) in
    (
      refl,
      record {
        rest = rest;
        members_are = f;
        at_least = omega (arith, n);
        at_most = omega (arith, n);
      },
      groups_from-AreGroups (index + 1) (offset + s) xs sizes (omega arith) b.2,
    )

pub all_leaves-group_leaf : (gs : List Group) → all_leaves (map group_leaf gs) ≡ group_ids gs
all_leaves-group_leaf [] = refl
all_leaves-group_leaf (g ∷ gs) = ap (λ ids. g.group_id ∷ ids) (all_leaves-group_leaf gs)

pub AllLevelled-group_leaf : (gs : List Group) → AllLevelled 0 (map group_leaf gs)
AllLevelled-group_leaf [] = tt
AllLevelled-group_leaf (g ∷ gs) = (omega arith, tt, AllLevelled-group_leaf gs)

pub length-group_leaf : (gs : List Group) → length (map group_leaf gs) ≡ length gs
length-group_leaf [] = refl
length-group_leaf (g ∷ gs) = omega (arith, length-group_leaf gs)

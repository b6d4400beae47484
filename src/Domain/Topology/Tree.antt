-- ===== src/Domain/Topology/Tree.antt =====
-- The binary tree over the groups in topology.py: the `while len(active) > 1` loop.
use deki_smpc_server.Prelude.{
  ℕ, zero, suc, ◌+◌, ◌≤◌, ◌<◌, ◌≡◌, refl, ◌∙◌, sym, ◌⊎◌, inl, inr, Text, some, List, [], ◌∷◌, ◌++◌,
  arith, length, Option-cases,
}
use mathlib.Core.List.{append-nil, append_assoc}
use deki_smpc_server.Domain.Topology.{Node, leaf, carry, combine, pair_up, build_tree, leaf_target}

-- The groups at the leaves, from left to right.
abbrev pub leaves : Node → List ℕ
leaves (leaf o g) = g ∷ []
leaves (carry o l i c) = leaves c
leaves (combine o l i c d) = leaves c ++ leaves d

abbrev pub all_leaves : List Node → List ℕ
all_leaves [] = []
all_leaves (n ∷ ns) = leaves n ++ all_leaves ns

abbrev pub Among : ℕ → List ℕ → Type 0
Among g [] = ⊥
Among g (h ∷ hs) = (g ≡ h) ⊎ Among g hs

-- One more than the level of an inner node, and 0 at a leaf.
abbrev pub height : Node → ℕ
height (leaf o g) = 0
height (carry o l i c) = suc l
height (combine o l i c d) = suc l

-- Each inner node stands above its children.
abbrev pub IsLevelled : Node → Type 0
IsLevelled (leaf o g) = Unit
IsLevelled (carry o l i c) = (height c ≤ l) × IsLevelled c
IsLevelled (combine o l i c d) = (height c ≤ l) × (height d ≤ l) × IsLevelled c × IsLevelled d

abbrev pub AllLevelled : ℕ → List Node → Type 0
AllLevelled l [] = Unit
AllLevelled l (n ∷ ns) = (height n ≤ l) × IsLevelled n × AllLevelled l ns

leaves-pair_up :
    (level index : ℕ) (ns : List Node) → all_leaves (pair_up level index ns) ≡ all_leaves ns
unfolding pair_up
leaves-pair_up level index [] = refl
leaves-pair_up level index (c ∷ []) = refl
leaves-pair_up level index (c ∷ d ∷ rest) =
    rw (leaves-pair_up level (index + 1) rest, append_assoc) refl

pair_up-AllLevelled :
    (level index : ℕ) (ns : List Node)
    → AllLevelled level ns
    → AllLevelled (level + 1) (pair_up level index ns)
unfolding pair_up
pair_up-AllLevelled level index [] h = tt
pair_up-AllLevelled level index (c ∷ []) h = (omega arith, (h.0, h.1), tt)
pair_up-AllLevelled level index (c ∷ d ∷ rest) h =
    (omega arith, (h.0, h.2.0, h.1, h.2.1), pair_up-AllLevelled level (index + 1) rest h.2.2)

length-pair_up :
    (level index : ℕ) (ns : List Node)
    → (length (pair_up level index ns) ≤ length ns)
      × (length ns ≤ length (pair_up level index ns) + length (pair_up level index ns))
unfolding pair_up
length-pair_up level index [] = (omega arith, omega arith)
length-pair_up level index (c ∷ []) = (omega arith, omega arith)
length-pair_up level index (c ∷ d ∷ rest) =
    let h = length-pair_up level (index + 1) rest in (omega (arith, h.0), omega (arith, h.1))

-- A tree over some groups.
pub record IsTreeOf (groups : List ℕ) (root : Node) : Type 0 where
  pub same_leaves : leaves root ≡ groups
  pub levelled : IsLevelled root

-- With fuel for the active nodes the loop ends, at a tree over their groups.
pub build_tree_total :
    (fuel level : ℕ) (ns : List Node)
    → 0 < length ns
    → length ns ≤ fuel + 1
    → AllLevelled level ns
    → (root : Node) × (build_tree fuel level ns ≡ some root) × IsTreeOf (all_leaves ns) root
unfolding build_tree
build_tree_total fuel level [] pos h k = absurd (omega arith)
build_tree_total zero level (c ∷ []) pos h k =
    (c, refl, record { same_leaves = sym (append-nil (leaves c)); levelled = k.1 })
build_tree_total (suc fuel) level (c ∷ []) pos h k =
    (c, refl, record { same_leaves = sym (append-nil (leaves c)); levelled = k.1 })
build_tree_total zero level (c ∷ d ∷ rest) pos h k = absurd (omega arith)
build_tree_total (suc fuel) level (c ∷ d ∷ rest) pos h k =
    let next = pair_up level 0 (c ∷ d ∷ rest) in
    let n = length-pair_up level 1 rest in
    let (root, e, tree) =
      build_tree_total fuel (level + 1) next (omega arith) (omega (arith, n.0))
        (pair_up-AllLevelled level 0 (c ∷ d ∷ rest) k) in
    (
      root,
      e,
      record {
        same_leaves = tree.same_leaves ∙ leaves-pair_up level 0 (c ∷ d ∷ rest);
        levelled = tree.levelled;
      },
    )

pub Among-left : (g : ℕ) (xs ys : List ℕ) → Among g xs → Among g (xs ++ ys)
Among-left g [] ys h = absurd h
Among-left g (x ∷ xs) ys (inl e) = inl e
Among-left g (x ∷ xs) ys (inr h) = inr (Among-left g xs ys h)

pub Among-right : (g : ℕ) (xs ys : List ℕ) → Among g ys → Among g (xs ++ ys)
Among-right g [] ys h = h
Among-right g (x ∷ xs) ys h = inr (Among-right g xs ys h)

Among-either : (g : ℕ) (xs ys : List ℕ) → Among g (xs ++ ys) → Among g xs ⊎ Among g ys
Among-either g [] ys h = inr h
Among-either g (x ∷ xs) ys (inl e) = inl (inl e)
Among-either g (x ∷ xs) ys (inr h) = elim (Among-either g xs ys h) [
  | inl a ↦ inl (inr a)
  | inr b ↦ inr b
]

-- The search for a leaf finds each group of the tree.
pub leaf_target_total :
    (g : ℕ) (target : Text) (n : Node)
    → Among g (leaves n)
    → (t : Text) × (leaf_target g target n ≡ some t)
unfolding leaf_target
leaf_target_total g target (leaf o h) m = (target, ground arith)
leaf_target_total g target (carry o l i c) m = leaf_target_total g o c m
leaf_target_total g target (combine o l i c d) m = elim (Among-either g (leaves c) (leaves d) m) [
  | inl left ↦ let (t, e) = leaf_target_total g o c left in (t, rw e refl)
  | inr right ↦ elim (Option-cases (leaf_target g o c)) [
    | inl missing ↦ let (t, e) = leaf_target_total g o d right in (t, rw (missing, e) refl)
    | inr (t, e) ↦ (t, rw e refl)
  ]
]

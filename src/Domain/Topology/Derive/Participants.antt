-- ===== src/Domain/Topology/Derive/Participants.antt =====
-- From which participants `derive_tree_plan` of topology.py derives a plan.
use deki_smpc_server.Prelude.{
  ℕ, ◌≤◌, ◌<◌, ◌≡◌, ◌↔◌, refl, inl, inr, true, false, Text, some, List, [], ◌∷◌, length, ltb, ◌==◌,
  arith, Bool-cases,
}
use deki_smpc_server.Prelude.Rows.Listed.{Listed}
use deki_smpc_server.Domain.Topology.{ManifestEntry, Plan}
use deki_smpc_server.Domain.Topology.Shuffle.{Settles}
use deki_smpc_server.Domain.Topology.Derive.{mem, has_duplicate, client_ids, derive_tree_plan}
use deki_smpc_server.Domain.Topology.Derive.Plans.{derive_tree_plan_total, derive_tree_plan-none}

-- None of them stands twice.
abbrev pub AreDistinct : List Text → Type 0
AreDistinct [] = Unit
AreDistinct (x ∷ xs) = (Listed x xs → ⊥) × AreDistinct xs

mem-Listed : (x : Text) (xs : List Text) → mem x xs ≡ true → Listed x xs
unfolding mem
mem-Listed x [] h = absurd (cc)
mem-Listed x (y ∷ ys) h = elim (Bool-cases (x == y)) [
  | inl here ↦ inl (ground arith)
  | inr other ↦ inr (mem-Listed x ys (ground arith))
]

Listed-mem : (x : Text) (xs : List Text) → Listed x xs → mem x xs ≡ true
unfolding mem
Listed-mem x [] m = absurd m
Listed-mem x (y ∷ ys) (inl e) = ground arith
Listed-mem x (y ∷ ys) (inr m) = ground (arith, Listed-mem x ys m)

distinct-AreDistinct : (xs : List Text) → has_duplicate xs ≡ false → AreDistinct xs
unfolding has_duplicate
distinct-AreDistinct [] h = tt
distinct-AreDistinct (x ∷ xs) h = (
  λ m. let found = Listed-mem x xs m in absurd (ground arith),
  distinct-AreDistinct xs (ground arith),
)

AreDistinct-distinct : (xs : List Text) → AreDistinct xs → has_duplicate xs ≡ false
unfolding has_duplicate
AreDistinct-distinct [] h = refl
AreDistinct-distinct (x ∷ xs) h = elim (Bool-cases (mem x xs)) [
  | inl found ↦ absurd (h.0 (mem-Listed x xs found))
  | inr absent ↦ rw absent (AreDistinct-distinct xs h.1)
]

-- Where the draws settle, a plan is derived exactly from three or more participants of which none
-- stands twice.
pub derive_tree_plan_iff :
    (draw : ℕ → ℕ) (fuel : ℕ) (manifest : List ManifestEntry)
    → ((modulus : ℕ)
        → modulus ≤ length (client_ids manifest)
        → 0 < modulus
        → Settles draw fuel modulus)
    → ((plan : Plan) × (derive_tree_plan draw fuel manifest ≡ some plan))
      ↔ (AreDistinct (client_ids manifest) × (3 ≤ length (client_ids manifest)))
derive_tree_plan_iff draw fuel manifest settles = (needed, enough)
  where
    needed :
        (plan : Plan) × (derive_tree_plan draw fuel manifest ≡ some plan)
        → AreDistinct (client_ids manifest) × (3 ≤ length (client_ids manifest))
    needed (plan, h) = elim (Bool-cases (has_duplicate (client_ids manifest))) [
      | inl repeated ↦
          let none_is = derive_tree_plan-none draw fuel manifest (inl repeated) in absurd (cc)
      | inr distinct ↦ elim (Bool-cases (ltb (length (client_ids manifest)) 3)) [
        | inl few ↦
            let none_is = derive_tree_plan-none draw fuel manifest (inr (ground arith)) in
            absurd (cc)
        | inr many ↦ (distinct-AreDistinct (client_ids manifest) distinct, ground arith)
      ]
    ]

    enough :
        AreDistinct (client_ids manifest) × (3 ≤ length (client_ids manifest))
        → (plan : Plan) × (derive_tree_plan draw fuel manifest ≡ some plan)
    enough (distinct, many) =
        let (plan, h, same, sound) =
          derive_tree_plan_total draw fuel manifest
            (AreDistinct-distinct (client_ids manifest) distinct) many settles in
        (plan, h)

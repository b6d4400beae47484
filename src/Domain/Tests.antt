-- ===== src/Domain/Tests.antt =====
-- The domain's theorems on small inputs.
use deki_smpc_server.Prelude.{
  ℕ, zero, suc, ◌+◌, ◌%◌, ◌≤◌, ◌<◌, ◌≡◌, refl, ◌⊎◌, ◌↔◌, false, Text, some, List, [], ◌∷◌, map,
  arith,
}
use deki_smpc_server.Domain.Topology.{ManifestEntry, Plan, cutoff_of, group_sizes}
use deki_smpc_server.Domain.Topology.Sizes.{total, AreBalanced, group_sizes-total}
use deki_smpc_server.Domain.Topology.Shuffle.{occurrences, Settles}
use deki_smpc_server.Domain.Topology.Derive.{has_duplicate, mem, client_ids, derive_tree_plan}
use deki_smpc_server.Domain.Topology.Derive.Plans.{IsPlan, derive_tree_plan_total}
use deki_smpc_server.Domain.Topology.Derive.Participants.{AreDistinct, derive_tree_plan_iff}
use deki_smpc_server.Domain.Topology.Derive.Progress.{AllDone, HasNext, derive_tree_plan_next}

group_sizes-total_example :
    (sizes : List ℕ) × (group_sizes 7 ≡ some sizes) × (total sizes ≡ 7) × AreBalanced sizes
group_sizes-total_example = group_sizes-total 7 (omega arith)

abbrev entry : Text → ManifestEntry
entry c = record { client_id = c; public_key = 100 + c; signature = 200 + c }

abbrev draw : ℕ → ℕ
draw counter = counter % 7

abbrev eight_clients : List ManifestEntry
eight_clients = map entry (18 ∷ 11 ∷ 12 ∷ 13 ∷ 14 ∷ 15 ∷ 16 ∷ 17 ∷ [])

cutoff_large : (modulus : ℕ) → modulus ≤ 8 → 0 < modulus → 7 ≤ cutoff_of modulus
cutoff_large zero h pos = absurd (omega arith)
cutoff_large (suc zero) h pos = omega arith
cutoff_large (suc (suc zero)) h pos = omega arith
cutoff_large (suc (suc (suc zero))) h pos = omega arith
cutoff_large (suc (suc (suc (suc zero)))) h pos = omega arith
cutoff_large (suc (suc (suc (suc (suc zero))))) h pos = omega arith
cutoff_large (suc (suc (suc (suc (suc (suc zero)))))) h pos = omega arith
cutoff_large (suc (suc (suc (suc (suc (suc (suc zero))))))) h pos = omega arith
cutoff_large (suc (suc (suc (suc (suc (suc (suc (suc zero)))))))) h pos = omega arith
cutoff_large (suc (suc (suc (suc (suc (suc (suc (suc (suc n))))))))) h pos = absurd (omega arith)

draws_settle : (modulus : ℕ) → modulus ≤ 8 → 0 < modulus → Settles draw 1 modulus
draws_settle modulus h pos counter = (0, omega arith, omega (arith, cutoff_large modulus h pos))

eight_clients_distinct : has_duplicate (client_ids eight_clients) ≡ false
unfolding has_duplicate mem
eight_clients_distinct = refl

abbrev eight_plan : Plan
eight_plan =
    (derive_tree_plan_total draw 1 eight_clients eight_clients_distinct (omega arith)
      draws_settle).0

eight_plan_derived : derive_tree_plan draw 1 eight_clients ≡ some eight_plan
eight_plan_derived =
    (derive_tree_plan_total draw 1 eight_clients eight_clients_distinct (omega arith)
      draws_settle).1

derive_tree_plan_total_example :
    (plan : Plan) × (derive_tree_plan draw 1 eight_clients ≡ some plan)
    × ((a : Text) → occurrences a plan.participants ≡ occurrences a (client_ids eight_clients))
    × IsPlan plan
derive_tree_plan_total_example =
    derive_tree_plan_total draw 1 eight_clients eight_clients_distinct (omega arith) draws_settle

derive_tree_plan_iff_example :
    ((plan : Plan) × (derive_tree_plan draw 1 eight_clients ≡ some plan))
    ↔ (AreDistinct (client_ids eight_clients) × (3 ≤ 8))
derive_tree_plan_iff_example = derive_tree_plan_iff draw 1 eight_clients draws_settle

derive_tree_plan_next_example :
    AllDone (λ t. false) (map (λ t. t.task_id) eight_plan.tasks)
    ⊎ HasNext (λ t. false) eight_plan.tasks
derive_tree_plan_next_example =
    derive_tree_plan_next draw 1 eight_clients eight_plan eight_plan_derived (λ t. false)

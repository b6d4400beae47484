-- ===== src/Worker/Sums.antt =====
-- What the loop of `run_once` adds up: the tensors of each name, and the integrity tags.
use deki_smpc_server.Prelude.{
  ℕ, ◌+◌, ◌%◌, ◌<◌, inl, inr, Bool-cases, ◌≡◌, refl, sym, ap, ◌∙◌, Text, ◌==◌, Option, none, some,
  List, [], ◌∷◌, arith,
}
use deki_smpc_server.Domain.Models.{TensorSchema}
use deki_smpc_server.Persistence.Updates.{JobInput}
use deki_smpc_server.Worker.Runs.{World, got, bind_got, return_got}
use deki_smpc_server.Worker.Inputs.{
  Libraries, Sums, field_prime, lookup, nothing_added, add_all, add_to, add_inputs,
}
use deki_smpc_server.Worker.Accepted.{Part, AreAccepted, add_input-IsAccepted}

module _ (k : Libraries) where
  -- What is to stand at a name: the tensors that the inputs have there, added up in their order.
  abbrev pub plus_at : Option k.Tensor → Option k.Tensor → Option k.Tensor
  plus_at none u = none
  plus_at (some t) none = some t
  plus_at (some t) (some u) = some (k.add_tensors t u)

  abbrev pub sum_from : Text → Option k.Tensor → List (Part k) → Option k.Tensor
  sum_from n t [] = t
  sum_from n t (p ∷ ps) = sum_from n (plus_at t (lookup n p.tensors)) ps

  abbrev pub sum_at : Text → List (Part k) → Option k.Tensor
  sum_at n [] = none
  sum_at n (p ∷ ps) = sum_from n (lookup n p.tensors) ps

  abbrev pub total_tags : List (Part k) → ℕ
  total_tags [] = 0
  total_tags (p ∷ ps) = p.tag + total_tags ps

  abbrev pub aggregate_at : Text → Option (List (Text × k.Tensor)) → Option k.Tensor
  aggregate_at n none = none
  aggregate_at n (some items) = lookup n items

  hit :
      (t : k.Tensor) (u v : Option k.Tensor)
      → u ≡ v
      → some (elim v [ none ↦ t | some x ↦ k.add_tensors t x ]) ≡ plus_at (some t) u
  hit t none v e = rw (← e) refl
  hit t (some x) v e = rw (← e) refl

  lookup-add_all :
      (n : Text) (xs ys : List (Text × k.Tensor))
      → lookup n (add_all k xs ys) ≡ plus_at (lookup n xs) (lookup n ys)
  unfolding lookup add_all
  lookup-add_all n [] ys = refl
  lookup-add_all n ((m, t) ∷ xs) ys = elim (Bool-cases (m == n)) [
    | inl same ↦
        let e : m ≡ n = ground arith in
        rw same (hit t (lookup n ys) (lookup m ys) (ap (λ x. lookup x ys) (sym e)))
    | inr other ↦ rw other (lookup-add_all n xs ys)
  ]

  lookup-add_to :
      (n : Text) (acc : Option (List (Text × k.Tensor))) (items tensors : List (Text × k.Tensor))
      → acc ≡ some items
      → lookup n (add_to k acc tensors) ≡ plus_at (lookup n items) (lookup n tensors)
  lookup-add_to n acc items tensors e = rw e (lookup-add_all n items tensors)

  module _ (job_id token : Text) (lease_seconds : ℕ) (schema : List TensorSchema) where
    -- The loop from given sums.
    add_inputs_from :
        (inputs : List JobInput) (sums last : Sums k) (w v : World)
        → sums.tag < field_prime
        → add_inputs k job_id token lease_seconds schema inputs sums w ≡ (got last, v)
        → (ps : List (Part k)) × AreAccepted k job_id token lease_seconds schema inputs ps w v
          × (last.tag ≡ (sums.tag + total_tags ps) % field_prime)
          × ((items : List (Text × k.Tensor))
              → sums.aggregate ≡ some items
              → (n : Text) → aggregate_at n last.aggregate ≡ sum_from n (lookup n items) ps)
    unfolding add_inputs
    add_inputs_from [] sums last w v small h =
        let (e, still) = return_got sums last w v h in
        let t = ap (λ s. s.tag) e in ([], still, omega (arith, t), λ items f n. rw (← e, f) refl)
    add_inputs_from (i ∷ rest) sums last w v small h =
        let (next, w1, e1, h1) = bind_got _ _ last w v h in
        let (p, accepted, next_is) =
          add_input-IsAccepted k job_id token lease_seconds schema i sums next w w1 e1 in
        let t = ap (λ s. s.tag) next_is in
        let (ps, all, tag, sum) = add_inputs_from rest next last w1 v (omega (arith, t)) h1 in
        (
          p ∷ ps,
          (w1, accepted, all),
          omega (arith, tag, t),
          λ items f n.
              sum (add_to k sums.aggregate p.tensors) (ap (λ s. s.aggregate) next_is) n
              ∙ ap (λ x. sum_from n x ps) (lookup-add_to n sums.aggregate items p.tensors f),
        )

    -- A loop of the worker over the inputs of a job that returns has accepted every input in its
    -- turn, from the world where it began to the one where it ended, with what the other processes
    -- did before each read: the file at the path of the input had the recorded digest at the first
    -- read, and the tensors were loaded from what the second read found at the same path; they meet
    -- the schema, and the tag is a number of the field. The aggregate holds at each name the sum of
    -- these tensors of that name, in the order of the inputs, and the tag is the sum of these tags
    -- in the field.
    pub add_inputs_sum :
        (inputs : List JobInput) (last : Sums k) (w v : World)
        → add_inputs k job_id token lease_seconds schema inputs (nothing_added k) w ≡ (got last, v)
        → (ps : List (Part k)) × AreAccepted k job_id token lease_seconds schema inputs ps w v
          × (last.tag ≡ total_tags ps % field_prime)
          × ((n : Text) → aggregate_at n last.aggregate ≡ sum_at n ps)
    unfolding add_inputs
    add_inputs_sum [] last w v h =
        let (e, still) = return_got (nothing_added k) last w v h in
        let t = ap (λ s. s.tag) e in ([], still, omega (arith, t), λ n. rw (← e) refl)
    add_inputs_sum (i ∷ rest) last w v h =
        let (next, w1, e1, h1) = bind_got _ _ last w v h in
        let (p, accepted, next_is) =
          add_input-IsAccepted k job_id token lease_seconds schema i (nothing_added k) next w w1
            e1 in
        let t = ap (λ s. s.tag) next_is in
        let (ps, all, tag, sum) = add_inputs_from rest next last w1 v (omega (arith, t)) h1 in
        (
          p ∷ ps,
          (w1, accepted, all),
          omega (arith, tag, t),
          λ n. sum p.tensors (ap (λ s. s.aggregate) next_is) n,
        )

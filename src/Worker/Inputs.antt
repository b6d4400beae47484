-- ===== src/Worker/Inputs.antt =====
-- The loop of `run_once` over the inputs of a job. The tensors, their addition and the safetensors
-- format are torch's and safetensors', and the parsing of a hexadecimal number is Python's: parameters.
use deki_smpc_server.Prelude.{
  ℕ, ◌+◌, ◌-◌, ◌%◌, ◌^◌, Text, Bool, true, false, not, ◌&&◌, Option, none, some, List, [], ◌∷◌, ltb,
  ◌==◌, if◌then◌else◌,
}
use deki_smpc_server.Domain.Models.{TensorSchema, TensorPolicy, mean, sum}
use deki_smpc_server.Persistence.Jobs.{renew_job}
use deki_smpc_server.Persistence.Updates.{JobInput}
use deki_smpc_server.Storage.{Bytes}
use deki_smpc_server.Storage.Reading.{file_digest}
use deki_smpc_server.Worker.Runs.{
  Run, os_error, content_digest_changed, names_do_not_match, shape_does_not_match, tag_malformed,
  tag_outside_field, unreadable_tensors, return, from_option, transact, read_clock, fail_if,
  read_file, ◌>>=◌, ◌>>◌,
}

-- `FIELD_PRIME`.
abbrev pub field_prime : ℕ
field_prime = 2 ^ 127 - 1

-- What the worker's libraries provide.
pub record Libraries : Type 1 where
  pub Tensor : Type 0
  pub add_tensors : Tensor → Tensor → Tensor
  pub is_int64 : Tensor → Bool
  pub shape_of : Tensor → List ℕ
  pub load : Bytes → Option (List (Text × Tensor))
  pub save : List (Text × Tensor) → Bytes
  pub sha256 : Bytes → Text
  pub parse_hex : Text → Option ℕ
  pub to_hex : ℕ → Text

abbrev pub is_aggregated : TensorPolicy → Bool
is_aggregated mean = true
is_aggregated sum = true
is_aggregated _ = false

-- A dict as its items, by distinct names.
unfoldable pub lookup : {A : Type 0} → Text → List (Text × A) → Option A
lookup n [] = none
lookup n ((m, a) ∷ items) = let rest = lookup n items in if m == n then some a else rest

-- `expected`, with the shape of each entry; the last entry of a name counts.
unfoldable pub expected_of : List TensorSchema → List (Text × List ℕ)
expected_of [] = []
expected_of (e ∷ es) =
    let rest = expected_of es in
    if is_aggregated e.policy
    then elim (lookup e.name rest) [ none ↦ (e.name, e.shape) ∷ rest | some _ ↦ rest ]
    else rest

-- Does each name of one dict stand in another?
unfoldable pub names_within : {A B : Type 0} → List (Text × A) → List (Text × B) → Bool
unfolding lookup
names_within [] ys = true
names_within ((n, a) ∷ xs) ys =
    let rest = names_within xs ys in elim (lookup n ys) [ none ↦ false | some _ ↦ rest ]

abbrev pub same_names : {A B : Type 0} → List (Text × A) → List (Text × B) → Bool
same_names xs ys = names_within xs ys && names_within ys xs

unfoldable pub same_shape : List ℕ → List ℕ → Bool
same_shape [] [] = true
same_shape (a ∷ ms) (b ∷ ns) = a == b && same_shape ms ns
same_shape _ _ = false

module _ (k : Libraries) where
  -- The loop over the tensors of an artifact.
  unfoldable pub shapes_match : List (Text × k.Tensor) → List (Text × List ℕ) → Bool
  unfolding lookup same_shape
  shapes_match [] expected = true
  shapes_match ((n, t) ∷ items) expected =
      let rest = shapes_match items expected in
      elim (lookup n expected) [
        | none ↦ false
        | some shape ↦ k.is_int64 t && same_shape (k.shape_of t) shape && rest
      ]

  -- `aggregate[name] = aggregate[name] + tensors[name]` for every name; a missing one is a
  -- `KeyError`, which the comparison of the names rules out.
  unfoldable pub add_all : List (Text × k.Tensor) → List (Text × k.Tensor) → List (Text × k.Tensor)
  unfolding lookup
  add_all [] tensors = []
  add_all ((n, t) ∷ items) tensors =
      (n, elim (lookup n tensors) [ none ↦ t | some u ↦ k.add_tensors t u ]) ∷ add_all items tensors

  abbrev pub add_to :
      Option (List (Text × k.Tensor)) → List (Text × k.Tensor) → List (Text × k.Tensor)
  add_to none tensors = tensors
  add_to (some aggregate) tensors = add_all aggregate tensors

  -- `aggregate` and `aggregate_tag`.
  pub record Sums : Type 0 where
    pub aggregate : Option (List (Text × k.Tensor))
    pub tag : ℕ

  abbrev pub nothing_added : Sums
  nothing_added = record { aggregate = none; tag = 0 }

  -- `int(str(integrity_tag), 16)`; there is no number in "None", and a negative one counts as none.
  abbrev pub tag_of : Option Text → Option ℕ
  tag_of none = none
  tag_of (some t) = k.parse_hex t

  -- The comparison of the loaded tensors with the schema.
  unfoldable pub check_tensors : List TensorSchema → List (Text × k.Tensor) → Run Unit
  check_tensors schema tensors = do
    fail_if (not (same_names tensors (expected_of schema))) names_do_not_match
    fail_if (not (shapes_match tensors (expected_of schema))) shape_does_not_match

  unfoldable pub field_tag : JobInput → Run ℕ
  field_tag i = do
    tag ← from_option (tag_of i.integrity_tag) tag_malformed
    fail_if (not (ltb tag field_prime)) tag_outside_field
    return tag

  module _ (job_id token : Text) (lease_seconds : ℕ) (schema : List TensorSchema) where
    -- The lease is renewed, and the file is hashed and then loaded.
    unfoldable pub load_verified : JobInput → Run (List (Text × k.Tensor))
    load_verified i = do
      now ← read_clock
      transact (renew_job job_id token lease_seconds now)
      hashed ← read_file i.artifact.path
      digest ← from_option (file_digest k.sha256 hashed) os_error
      fail_if (not (digest == i.artifact.digest)) content_digest_changed
      content ← read_file i.artifact.path
      from_option (k.load content) unreadable_tensors

    -- The body of the loop.
    unfoldable pub add_input : JobInput → Sums → Run Sums
    unfolding load_verified check_tensors field_tag
    add_input i sums = do
      tensors ← load_verified i
      check_tensors schema tensors
      tag ← field_tag i
      return (record {
        aggregate = some (add_to sums.aggregate tensors);
        tag = (sums.tag + tag) % field_prime;
      })

    -- `for artifact in artifacts`.
    unfoldable pub add_inputs : List JobInput → Sums → Run Sums
    unfolding add_input
    add_inputs [] sums = return sums
    add_inputs (i ∷ rest) sums = do next ← add_input i sums; add_inputs rest next

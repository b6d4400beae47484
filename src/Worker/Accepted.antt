-- ===== src/Worker/Accepted.antt =====
-- When the loop of `run_once` accepts an input: its file, its tensors and its tag.
use deki_smpc_server.Prelude.{
  ℕ, ◌+◌, ◌%◌, ◌<◌, ◌≡◌, refl, sym, ap, ◌∙◌, Text, Bool, true, false, not, ltb, ◌==◌, some, List,
  [], ◌∷◌, arith,
}
use deki_smpc_server.Domain.Models.{TensorSchema}
use deki_smpc_server.Persistence.Updates.{JobInput}
use deki_smpc_server.Persistence.Jobs.{renew_job}
use deki_smpc_server.Storage.{Bytes, final}
use deki_smpc_server.Storage.Digests.{ciphertext_digest_lem}
use deki_smpc_server.Storage.Reading.{file_digest}
use deki_smpc_server.Worker.Runs.{
  World, got, interfere, return, transact, read_clock, bind_got, return_got, from_option_got,
  fail_if_got, read_file_got,
}
use deki_smpc_server.Worker.Inputs.{
  Libraries, Sums, field_prime, expected_of, same_names, shapes_match, add_to, tag_of,
  check_tensors, field_tag, load_verified, add_input,
}

holds : (b : Bool) → not b ≡ false → b ≡ true
holds true h = refl
holds false h = sym h

below : (m n : ℕ) → not (ltb m n) ≡ false → m < n
below m n h = ground arith

module _ (k : Libraries) where
  -- What an input contributes.
  pub record Part : Type 0 where
    pub tensors : List (Text × k.Tensor)
    pub tag : ℕ

  check_tensors_got :
      (schema : List TensorSchema) (ts : List (Text × k.Tensor)) (u : Unit) (w v : World)
      → check_tensors k schema ts w ≡ (got u, v)
      → (same_names ts (expected_of schema) ≡ true)
        × (shapes_match k ts (expected_of schema) ≡ true)
        × (v ≡ w)
  unfolding check_tensors
  check_tensors_got schema ts u w v h =
      let (a, w1, e1, e2) = bind_got _ _ u w v h in
      let (names, f) = fail_if_got _ _ a w w1 e1 in
      let (shapes, g) = fail_if_got _ _ u w1 v e2 in (holds _ names, holds _ shapes, g ∙ f)

  field_tag_is :
      (i : JobInput) (tag n : ℕ) (w v : World)
      → tag_of k i.integrity_tag ≡ some tag
      → tag < field_prime
      → return tag w ≡ (got n, v)
      → (tag_of k i.integrity_tag ≡ some n) × (n < field_prime) × (v ≡ w)
  field_tag_is i tag n w v parsed inside h =
      let (same, still) = return_got tag n w v h in (rw (← same) parsed, rw (← same) inside, still)

  field_tag_got :
      (i : JobInput) (n : ℕ) (w v : World)
      → field_tag k i w ≡ (got n, v)
      → (tag_of k i.integrity_tag ≡ some n) × (n < field_prime) × (v ≡ w)
  unfolding field_tag
  field_tag_got i n w v h =
      let (tag, w1, e1, h1) = bind_got _ _ n w v h in
      let (a, w2, e2, h2) = bind_got _ _ n w1 v h1 in
      let (parsed, f) = from_option_got _ _ tag w w1 e1 in
      let (inside, g) = fail_if_got _ _ a w1 w2 e2 in
      let (is, in_field, still) =
        field_tag_is i tag n w2 v parsed (below tag field_prime inside) h2 in
      (is, in_field, still ∙ g ∙ f)

  module _ (job_id token : Text) (lease_seconds : ℕ) (schema : List TensorSchema) where
    -- The reads of an input from one world to another: the lease is renewed, and then the file is
    -- read twice. What the others do before each read is done to the disk; the first time the file
    -- has the digest that is recorded, and the second time the tensors are loaded from it.
    pub record IsRead (i : JobInput) (ts : List (Text × k.Tensor)) (w v : World) : Type 0 where
      pub now : ℕ
      pub clock : World
      pub reads_clock : read_clock w ≡ (got now, clock)
      pub renewed : World
      pub renews : transact (renew_job job_id token lease_seconds now) clock ≡ (got tt, renewed)
      pub hashed : Bytes
      pub hashed_is : (interfere renewed).disk (final i.artifact.path) ≡ some hashed
      pub digest_is : k.sha256 hashed ≡ i.artifact.digest
      pub content : Bytes
      pub content_is : v.disk (final i.artifact.path) ≡ some content
      pub after : v ≡ interfere (interfere renewed)
      pub loaded : k.load content ≡ some ts

    -- What was loaded meets the schema, and the tag is a number of the field.
    pub record IsAccepted (i : JobInput) (p : Part) (w v : World) : Type 0 where
      pub read : IsRead i p.tensors w v
      pub names : same_names p.tensors (expected_of schema) ≡ true
      pub shapes : shapes_match k p.tensors (expected_of schema) ≡ true
      pub parsed : tag_of k i.integrity_tag ≡ some p.tag
      pub in_field : p.tag < field_prime

    -- Each input in its turn, from the world that the one before left.
    abbrev pub AreAccepted : List JobInput → List Part → World → World → Type 0
    AreAccepted [] [] w v = v ≡ w
    AreAccepted (i ∷ is) (p ∷ ps) w v = (u : World) × IsAccepted i p w u × AreAccepted is ps u v
    AreAccepted _ _ w v = ⊥

    verified_is :
        (hashed : Bytes) (digest recorded : Text)
        → file_digest k.sha256 hashed ≡ some digest
        → not (digest == recorded) ≡ false
        → k.sha256 hashed ≡ recorded
    verified_is hashed digest recorded found same =
        let whole = (ciphertext_digest_lem k.sha256 hashed []).0 in
        let is : k.sha256 hashed ≡ digest = cc in
        let equal : digest ≡ recorded = ground arith in is ∙ equal

    load_verified-IsRead :
        (i : JobInput) (ts : List (Text × k.Tensor)) (w v : World)
        → load_verified k job_id token lease_seconds schema i w ≡ (got ts, v)
        → IsRead i ts w v
    unfolding load_verified
    load_verified-IsRead i ts w v h =
        let (now, w1, e1, h1) = bind_got _ _ ts w v h in
        let (u2, w2, e2, h2) = bind_got _ _ ts w1 v h1 in
        let (hashed, w3, e3, h3) = bind_got _ _ ts w2 v h2 in
        let (digest, w4, e4, h4) = bind_got _ _ ts w3 v h3 in
        let (u5, w5, e5, h5) = bind_got _ _ ts w4 v h4 in
        let (content, w6, e6, h6) = bind_got _ _ ts w5 v h5 in
        let (first, f3) = read_file_got _ hashed w2 w3 e3 in
        let (found, f4) = from_option_got _ _ digest w3 w4 e4 in
        let (same, f5) = fail_if_got _ _ u5 w4 w5 e5 in
        let (second, f6) = read_file_got _ content w5 w6 e6 in
        let (loaded, f7) = from_option_got _ _ ts w6 v h6 in
        let still : w5 ≡ interfere w2 = f5 ∙ f4 ∙ f3 in
        record {
          now = now;
          clock = w1;
          reads_clock = e1;
          renewed = w2;
          renews = e2;
          hashed = hashed;
          hashed_is = first;
          digest_is = verified_is hashed digest i.artifact.digest found same;
          content = content;
          content_is = ap (λ x. x.disk (final i.artifact.path)) (f7 ∙ f6) ∙ second;
          after = f7 ∙ f6 ∙ ap (λ x. interfere x) still;
          loaded = loaded;
        }

    IsAccepted-later :
        (i : JobInput) (p : Part) (w u v : World) → v ≡ u → IsAccepted i p w u → IsAccepted i p w v
    IsAccepted-later i p w u v e h = rw e h

    pub add_input-IsAccepted :
        (i : JobInput) (sums next : Sums k) (w v : World)
        → add_input k job_id token lease_seconds schema i sums w ≡ (got next, v)
        → (p : Part) × IsAccepted i p w v
          × (next ≡ record {
            aggregate = some (add_to k sums.aggregate p.tensors);
            tag = (sums.tag + p.tag) % field_prime;
          })
    unfolding add_input
    add_input-IsAccepted i sums next w v h =
        let (ts, w1, e1, h1) = bind_got _ _ next w v h in
        let (u, w2, e2, h2) = bind_got _ _ next w1 v h1 in
        let (n, w3, e3, h3) = bind_got _ _ next w2 v h2 in
        let read = load_verified-IsRead i ts w w1 e1 in
        let (names, shapes, f2) = check_tensors_got schema ts u w1 w2 e2 in
        let (parsed, in_field, f3) = field_tag_got i n w2 w3 e3 in
        let (is, f4) = return_got _ next w3 v h3 in
        let p : Part = record { tensors = ts; tag = n } in
        (
          p,
          IsAccepted-later i p w w1 v (f4 ∙ f3 ∙ f2) (record {
            read = read;
            names = names;
            shapes = shapes;
            parsed = parsed;
            in_field = in_field;
          }),
          sym is,
        )

-- ===== src/Worker/Published.antt =====
-- A run of `attempt` of the worker that returns: it has published the job.
use deki_smpc_server.Prelude.{
  ℕ, ◌%◌, ◌≡◌, refl, sym, ap, ◌∙◌, inl, inr, Text, false, not, some, List, length, ltb, ◌==◌,
  ==_self, arith, Bool-cases, Option-cases,
}
use deki_smpc_server.Persistence.Schema.{RoundRow, JobRow, StoredObject}
use deki_smpc_server.Persistence.Jobs.{renew_job, complete_job}
use deki_smpc_server.Persistence.Updates.{JobInput, job_inputs}
use deki_smpc_server.Storage.{temporary, final, replace, put_bytes}
use deki_smpc_server.Worker.Runs.{
  World, Run, interfere, transact, read_clock, got, bind_got, from_option_got, fail_if_got,
}
use deki_smpc_server.Worker.Inputs.{Libraries, field_prime}
use deki_smpc_server.Worker.Jobs.{Settings, Drawn, by_name, keep, or_delete, attempt}
use deki_smpc_server.Worker.Accepted.{Part, AreAccepted}
use deki_smpc_server.Worker.Sums.{sum_at, total_tags, aggregate_at, add_inputs_sum}

module _ (k : Libraries) (settings : Settings) (drawn : Drawn) where
  abbrev pub object_for : List ℕ → StoredObject
  object_for content = record {
    object_id = drawn.object_id;
    path = drawn.object_id;
    digest = k.sha256 content;
    size = length content;
  }

  -- A run of the job, from a world to the one where it returns. The store listed as many inputs for
  -- the round as it expects, and each was accepted in its turn; the lease was renewed, and the file of
  -- the sums of their tensors kept, under the new identifier, which changed no other artifact; then
  -- the store completed the job with this file and with the sum of their tags in the field.
  pub record IsPublished (job : JobRow) (w v : World) : Type 0 where
    pub round_row : RoundRow
    pub inputs : List JobInput
    pub listed : World
    pub lists : transact (job_inputs job.round_id) w ≡ (got (round_row, inputs), listed)
    pub complete : length inputs ≡ round_row.expected_count
    pub parts : List (Part k)
    pub added : World
    pub accepted :
        AreAccepted k job.job_id drawn.claim_token settings.lease_seconds
          round_row.model_schema.entries inputs parts listed added
    pub items : List (Text × k.Tensor)
    pub summed : (n : Text) → aggregate_at k n (some items) ≡ sum_at k n parts
    pub now : ℕ
    pub clock : World
    pub reads_clock : read_clock added ≡ (got now, clock)
    pub renewed : World
    pub renews :
        transact (renew_job job.job_id drawn.claim_token settings.lease_seconds now) clock
        ≡ (got tt, renewed)
    pub kept : World
    pub there : kept.disk (final drawn.object_id) ≡ some (k.save (by_name k items))
    pub others :
        (id : Text)
        → id == drawn.object_id ≡ false
        → kept.disk (final id) ≡ (interfere renewed).disk (final id)
    pub same_db : kept.db ≡ (interfere renewed).db
    pub published : ℕ
    pub first : World
    pub reads_first : read_clock kept ≡ (got published, first)
    pub moved : ℕ
    pub second : World
    pub reads_second : read_clock first ≡ (got moved, second)
    pub completed :
        transact
          (complete_job job.job_id job.round_id drawn.claim_token
            (object_for (k.save (by_name k items)))
            (k.to_hex (total_tags k parts % field_prime))
            published
            moved)
          second
        ≡ (got tt, v)

  -- What `keep` returns, and the world after it.
  abbrev IsKept : List ℕ → StoredObject → World → World → Type 0
  IsKept content o w v =
      (o ≡ object_for content)
      × (v.disk (final drawn.object_id) ≡ some content)
      × ((id : Text)
          → id == drawn.object_id ≡ false
          → v.disk (final id) ≡ (interfere w).disk (final id))
      × (v.db ≡ (interfere w).db)

  keep-IsKept :
      (content : List ℕ) (o : StoredObject) (w v : World)
      → keep k settings.max_bytes drawn.object_id content w ≡ (got o, v)
      → IsKept content o w v
  unfolding keep put_bytes
  keep-IsKept content o w v h = elim (Bool-cases (ltb settings.max_bytes (length content))) [
    | inl large ↦ let h = rw (large, keep, put_bytes) at h in absurd (cc)
    | inr fits ↦ elim (Option-cases ((interfere w).disk (temporary drawn.object_id))) [
      | inr (old, there) ↦ let h = rw (fits, there, keep, put_bytes) at h in absurd (cc)
      | inl free ↦
          let h = rw (fits, free, keep, put_bytes) at h in
          let written =
            replace (temporary drawn.object_id) (final drawn.object_id) content
              (interfere w).disk in
          let is : record (interfere w) { disk = written } ≡ v = cc in
          rw (← is) (cc, rw (==_self drawn.object_id) refl, λ id other. rw other refl, refl)
    ]
  ]

  or_delete_got :
      (o : StoredObject) (m : Run Unit) (u : Unit) (w v : World)
      → or_delete k o m w ≡ (got u, v)
      → m w ≡ (got u, v)
  unfolding or_delete
  or_delete_got o m u w v h = ground arith

  as_many : (m n : ℕ) → not (m == n) ≡ false → m ≡ n
  as_many m n h = ground arith

  completed_as :
      (job : JobRow) (o : StoredObject) (content : List ℕ) (tag total published moved : ℕ)
      (w v : World)
      → o ≡ object_for content
      → tag ≡ total
      → transact
          (complete_job job.job_id job.round_id drawn.claim_token o (k.to_hex tag) published moved)
          w
        ≡ (got tt, v)
      → transact
          (complete_job job.job_id job.round_id drawn.claim_token
            (object_for content)
            (k.to_hex total)
            published
            moved)
          w
        ≡ (got tt, v)
  completed_as job o content tag total published moved w v e f h = rw (← e, ← f) h

  -- A run of `attempt` that does not fail has published the job.
  pub attempt-IsPublished :
      (job : JobRow) (w v : World)
      → attempt k settings drawn job w ≡ (got tt, v)
      → IsPublished job w v
  unfolding attempt
  attempt-IsPublished job w v h =
      let ((row, inputs), w1, e1, h1) = bind_got _ _ tt w v h in
      let (u2, w2, e2, h2) = bind_got _ _ tt w1 v h1 in
      let (sums, w3, e3, h3) = bind_got _ _ tt w2 v h2 in
      let (items, w4, e4, h4) = bind_got _ _ tt w3 v h3 in
      let (now, w5, e5, h5) = bind_got _ _ tt w4 v h4 in
      let (u6, w6, e6, h6) = bind_got _ _ tt w5 v h5 in
      let (o, w7, e7, h7) = bind_got _ _ tt w6 v h6 in
      let (published, w8, e8, h8) = bind_got _ _ tt w7 v h7 in
      let (moved, w9, e9, h9) = bind_got _ _ tt w8 v h8 in
      let (whole, f2) = fail_if_got _ _ u2 w1 w2 e2 in
      let (parts, accepted, tag, sum) =
        add_inputs_sum k job.job_id drawn.claim_token settings.lease_seconds
          row.model_schema.entries inputs sums w1 w3 (rw f2 at e3) in
      let (agg, f4) = from_option_got _ _ items w3 w4 e4 in
      let (object, there, others, same_db) = keep-IsKept _ o w6 w7 e7 in
      record {
        round_row = row;
        inputs = inputs;
        listed = w1;
        lists = e1;
        complete = as_many _ _ whole;
        parts = parts;
        added = w3;
        accepted = accepted;
        items = items;
        summed = λ n. ap (λ a. aggregate_at k n a) (sym agg) ∙ sum n;
        now = now;
        clock = w5;
        reads_clock = rw f4 at e5;
        renewed = w6;
        renews = e6;
        kept = w7;
        there = there;
        others = others;
        same_db = same_db;
        published = published;
        first = w8;
        reads_first = e8;
        moved = moved;
        second = w9;
        reads_second = e9;
        completed =
            completed_as job o _ _ _ published moved w9 v object tag (or_delete_got o _ tt w9 v h9);
      }

-- ===== src/Api/Ciphertexts.antt =====
-- What the examination of a stored ciphertext in `put_key_task_artifact` finds.
use deki_smpc_server.Prelude.{
  ◌-◌, ◌≡◌, sym, ap, ◌∙◌, ◌||◌, inl, inr, Text, true, not, some, ◌++◌, ◌==◌, take, ltb, length,
  arith, Bool-cases, Option-cases,
}
use deki_smpc_server.Persistence.Schema.{RoundRow, TreePlanRow, StoredObject}
use deki_smpc_server.Domain.Topology.{Task}
use deki_smpc_server.Storage.{Bytes, final, Disk}
use deki_smpc_server.Storage.Reading.{ciphertext_digest}
use deki_smpc_server.Storage.Digests.{ciphertext_digest_lem}
use deki_smpc_server.Api.Rounds.{Member}
use deki_smpc_server.Api.KeyTasks.{
  ArtifactValue, Metadata, TaskUpload, TaskMoments, TaskService, good, judge, expected_value,
  examine,
}

pub digest_of :
    (sha256 : Bytes → Text) (content nonce : Bytes) (d : Text)
    → ciphertext_digest sha256 content nonce ≡ some d
    → d ≡ sha256 (nonce ++ take (length content - 16) content)
digest_of sha256 content nonce d h =
    let whole = (ciphertext_digest_lem sha256 content nonce).1 in
    elim (Bool-cases (ltb (length content) 16)) [
      | inl short ↦ let none_is = rw short at whole in absurd (cc)
      | inr long ↦ let some_is = rw long at whole in cc
    ]

module _ (v : TaskService) (round_id : Text) (member : Member) (u : TaskUpload)
    (m : TaskMoments) where
  -- What the examination of a ciphertext that it accepts has found.
  pub record IsGood (row : RoundRow) (task : Task) (md : Metadata) (signature : Text)
      (content : Bytes) (value : ArtifactValue) : Type 0 where
    pub task_is : value.task ≡ task
    pub signed : v.verifies row member value signature ≡ true
    pub nonce : Bytes
    pub nonce_is : md.nonce ≡ some nonce
    pub nonce_length : length nonce ≡ 12
    pub nonce_text_is : value.nonce ≡ md.nonce_text
    pub digest_is : value.ciphertext_digest ≡ v.sha256 (nonce ++ take (length content - 16) content)

  judge_good :
      (row : RoundRow) (md : Metadata) (signature : Text) (nonce : Bytes) (x value : ArtifactValue)
      → judge v round_id member u m row md signature nonce x ≡ good value
      → (x ≡ value) × (length nonce ≡ 12) × (v.verifies row member value signature ≡ true)
  unfolding judge
  judge_good row md signature nonce x value h =
      elim (Bool-cases (not (length nonce == 12) || not (md.equals x))) [
        | inl differs ↦ let h = rw differs at h in absurd (cc)
        | inr same ↦ elim (Bool-cases (v.verifies row member x signature)) [
          | inl signed ↦
              let h = rw (same, signed) at h in
              let is : x ≡ value = cc in (is, ground arith, rw (← is) signed)
          | inr unsigned ↦ let h = rw (same, unsigned) at h in absurd (cc)
        ]
      ]

  pub examine-IsGood :
      (row : RoundRow) (plan : TreePlanRow) (task : Task) (md : Metadata) (signature : Text)
      (o : StoredObject) (disk : Disk) (content : Bytes) (value : ArtifactValue)
      → disk (final o.path) ≡ some content
      → examine v round_id member u m row plan task md signature o disk ≡ good value
      → IsGood row task md signature content value
  unfolding examine
  examine-IsGood row plan task md signature o disk content value there h =
      elim (Option-cases md.nonce) [
        | inl missing ↦ let h = rw (missing, examine) at h in absurd (cc)
        | inr (nonce, n) ↦ elim (Option-cases (ciphertext_digest v.sha256 content nonce)) [
          | inl short ↦ let h = rw (n, there, short, examine) at h in absurd (cc)
          | inr (d, e) ↦
              let h = rw (n, there, e, examine) at h in
              let (same, twelve, signed) =
                judge_good row md signature nonce
                  (expected_value v round_id member u m row plan task md o d) value h in
              record {
                task_is = ap (λ x. x.task) (sym same);
                signed = signed;
                nonce = nonce;
                nonce_is = n;
                nonce_length = twelve;
                nonce_text_is = ap (λ x. x.nonce) (sym same);
                digest_is =
                    ap (λ x. x.ciphertext_digest) (sym same) ∙ digest_of v.sha256 content nonce d e;
              }
        ]
      ]

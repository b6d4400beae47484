-- ===== src/Api/Artifacts.antt =====
-- What `put_key_task_artifact` leaves behind: the files, and the state of the round.
use deki_smpc_server.Prelude.{
  ◌-◌, ◌≡◌, refl, ap, ◌∙◌, ◌⊎◌, inl, inr, Text, Bool, true, false, Option, none, some, ◌++◌, ◌==◌,
  take, length, arith, Bool-cases,
}
use deki_smpc_server.Persistence.Schema.{
  Db, RoundRow, TreePlanRow, Response, StoredObject, key_artifact_rejected, is_v1_1,
}
use deki_smpc_server.Domain.Topology.{Task}
use deki_smpc_server.Persistence.Tx.{Error, Result, Tx, ok, err}
use deki_smpc_server.Persistence.Statements.{plan_row}
use deki_smpc_server.Persistence.Rounds.{fail_round}
use deki_smpc_server.Persistence.KeyTasks.{record_task_artifact}
use deki_smpc_server.Storage.{
  Bytes, FileName, temporary, final, file_eq, Disk, Stored, stored, rejected, delete,
}
use deki_smpc_server.Storage.Atomic.{Fits, IsAtomic, put_stream-IsAtomic}
use deki_smpc_server.Api.{
  Answer, answered, refused, ApiError, api_error, round_failed, internal_error,
}
use deki_smpc_server.Api.Rounds.{Member, transaction, round_for_member}
use deki_smpc_server.Api.Files.{
  SameFiles, object_is, deleted_SameFiles, transaction_ok, transaction_err,
}
use deki_smpc_server.Api.Updates.{Site}
use deki_smpc_server.Api.Ciphertexts.{IsGood, examine-IsGood}
use deki_smpc_server.Api.KeyTasks.{
  ArtifactValue, Metadata, TaskUpload, TaskMoments, TaskService, Rejection, metadata_malformed,
  task_unavailable, actor_invalid, store_failed, record_failed, find_task, Examined, bad, good,
  end_failure, fail_tree, examine, conclude_task, submit, store_task, upload_for, authorize,
  task_with_round, put_key_task_artifact,
}

module _ (v : TaskService) (round_id : Text) (member : Member) (u : TaskUpload)
    (m : TaskMoments) where
  abbrev pub failing : Rejection → Tx Unit
  failing r = fail_round round_id member.client_id key_artifact_rejected (v.text_of r) m.rejected_at

  -- The handler called `fail_round`, and answers that the round has failed where that committed.
  abbrev pub WasFailed : Answer (Response × Bool) → Site → Type 0
  WasFailed a after =
      (r : Rejection) × (s : Db) × (((failing r s ≡ ok (tt, after.db))
          × (a ≡ refused (api_error 422 round_failed)))
        ⊎ ((e : Error) × (failing r s ≡ err e) × (a ≡ refused (api_error 500 internal_error))))

  abbrev pub recording : (signature : Text) → StoredObject → ArtifactValue → Tx (Response × Bool)
  recording signature o value =
      record_task_artifact round_id member.client_id u.task_id o value.ciphertext_digest value.nonce
        signature u.idem_key (v.request_digest value signature o.digest) m.recorded

  -- The artifact was taken: its file is the one new file. The caller is the sender of the task, and
  -- signed a value with the digest of the nonce and the ciphertext without its tag, which the store
  -- committed.
  pub record IsTaken (before : Disk) (a : Answer (Response × Bool)) (after : Site) : Type 0 where
    pub response : Response
    pub answer_is : a ≡ answered (response, false)
    pub content : Bytes
    pub whole : Fits v.max_bytes 0 u.body content
    pub there : after.disk (final u.object_id) ≡ some content
    pub others : (f : FileName) → file_eq f (final u.object_id) ≡ false → after.disk f ≡ before f
    pub row : RoundRow
    pub value : ArtifactValue
    pub sender : value.task.sender ≡ member.client_id
    pub signature : Text
    pub signed : v.verifies row member value signature ≡ true
    pub signature_is : u.signature ≡ some signature
    pub metadata : Metadata
    pub metadata_is : u.metadata ≡ some metadata
    pub nonce : Bytes
    pub nonce_is : metadata.nonce ≡ some nonce
    pub nonce_length : length nonce ≡ 12
    pub nonce_text_is : value.nonce ≡ metadata.nonce_text
    pub digest_is : value.ciphertext_digest ≡ v.sha256 (nonce ++ take (length content - 16) content)
    pub o : StoredObject
    pub path_is : o.path ≡ u.object_id
    pub committed : (s : Db) × (recording signature o value s ≡ ok ((response, false), after.db))

  -- Nothing is left or lost, where the answer is a replay or the round was made to fail.
  abbrev pub IsUndone : Disk → Answer (Response × Bool) → Site → Type 0
  IsUndone before a after =
      SameFiles before after.disk
      × (((response : Response) × (a ≡ answered (response, true))) ⊎ WasFailed a after)

  abbrev pub IsSafe : Disk → Answer (Response × Bool) × Site → Type 0
  IsSafe before (a, after) = IsUndone before a after ⊎ IsTaken before a after

  end_failure-IsSafe :
      (before disk : Disk) (r : Rejection) (s : Db) (x : Result (Unit {0}) × Db)
      → SameFiles before disk
      → transaction (failing r) s ≡ x
      → IsSafe before (end_failure v round_id member u m x disk)
  unfolding end_failure
  end_failure-IsSafe before disk r s (ok a, t) same h =
      inl (same, inr (r, s, inl (transaction_ok (failing r) a s t h, refl)))
  end_failure-IsSafe before disk r s (err d, t) same h =
      inl (same, inr (r, s, inr (d, transaction_err (failing r) d s t h, refl)))

  fail_tree-IsSafe :
      (before disk : Disk) (r : Rejection) (s : Db)
      → SameFiles before disk
      → IsSafe before (fail_tree v round_id member u m r s disk)
  unfolding fail_tree
  fail_tree-IsSafe before disk r s same =
      end_failure-IsSafe before disk r (m.before_failure s)
        (transaction (failing r) (m.before_failure s)) same refl

  -- From a stored body on.
  module _ (before disk : Disk) (row : RoundRow) (plan : TreePlanRow) (task : Task) (md : Metadata)
      (signature : Text) (o : StoredObject) (content : Bytes)
      (whole : Fits v.max_bytes 0 u.body content) (md_is : u.metadata ≡ some md)
      (sign_is : u.signature ≡ some signature) (free : before (final u.object_id) ≡ none)
      (path : o.path ≡ u.object_id) (there : disk (final u.object_id) ≡ some content)
      (kept : (f : FileName) → file_eq f (final u.object_id) ≡ false → disk f ≡ before f)
      (sender : task.sender ≡ member.client_id) where
    deleted : SameFiles before (delete o.path disk)
    deleted = deleted_SameFiles u.object_id before disk o.path path free kept

    conclude-IsSafe :
        (value : ArtifactValue) (s : Db) (r : Result (Response × Bool) × Db)
        → IsGood v round_id member u m row task md signature content value
        → transaction (recording signature o value) s ≡ r
        → IsSafe before (conclude_task v round_id member u m o r disk)
    unfolding conclude_task
    conclude-IsSafe value s (err e, t) g h =
        fail_tree-IsSafe before (delete o.path disk) (record_failed e) t deleted
    conclude-IsSafe value s (ok (response, true), t) g h = inl (deleted, inl (response, refl))
    conclude-IsSafe value s (ok (response, false), t) g h = inr (record {
      response = response;
      answer_is = refl;
      content = content;
      whole = whole;
      there = there;
      others = kept;
      row = row;
      value = value;
      sender = ap (λ x. x.sender) g.task_is ∙ sender;
      signature = signature;
      signed = g.signed;
      signature_is = sign_is;
      metadata = md;
      metadata_is = md_is;
      nonce = g.nonce;
      nonce_is = g.nonce_is;
      nonce_length = g.nonce_length;
      nonce_text_is = g.nonce_text_is;
      digest_is = g.digest_is;
      o = o;
      path_is = path;
      committed = (s, transaction_ok (recording signature o value) (response, false) s t h);
    })

    submit-IsSafe :
        (x : Examined) (s : Db)
        → examine v round_id member u m row plan task md signature o disk ≡ x
        → IsSafe before (submit v round_id member u m signature o x disk s)
    unfolding submit
    submit-IsSafe (bad r) s h = fail_tree-IsSafe before (delete o.path disk) r s deleted
    submit-IsSafe (good value) s h =
        conclude-IsSafe value (m.before_record s)
          (transaction (recording signature o value) (m.before_record s))
          (examine-IsGood v round_id member u m row plan task md signature o disk content value
            (ap (λ p. disk (final p)) path ∙ there) h)
          refl

  store-IsSafe :
      (before disk : Disk) (row : RoundRow) (plan : TreePlanRow) (task : Task) (md : Metadata)
      (signature : Text) (r : Stored) (s : Db)
      → before (final u.object_id) ≡ none
      → u.metadata ≡ some md
      → u.signature ≡ some signature
      → task.sender ≡ member.client_id
      → IsAtomic v.sha256 v.max_bytes u.object_id u.body before (r, disk)
      → IsSafe before (store_task v round_id member u m row plan task md signature (r, disk) s)
  unfolding store_task
  store-IsSafe before disk row plan task md signature (rejected e) s free md_is sign_is sender
        (inl (content, fits, is, there, kept)) =
      absurd (cc)
  store-IsSafe before disk row plan task md signature (rejected e) s free md_is sign_is sender
        (inr (d, is, same, never)) =
      fail_tree-IsSafe before disk (store_failed e) s same
  store-IsSafe before disk row plan task md signature (stored o) s free md_is sign_is sender
        (inr (d, is, same, never)) =
      absurd (cc)
  store-IsSafe before disk row plan task md signature (stored o) s free md_is sign_is sender
        (inl (content, fits, is, there, kept)) =
      submit-IsSafe before disk row plan task md signature o content fits md_is sign_is free
        (ap (λ x. x.path) (object_is o _ is)) there kept sender
        (examine v round_id member u m row plan task md signature o disk) s refl

  upload_for-IsSafe :
      (before : Disk) (row : RoundRow) (plan : TreePlanRow) (md : Metadata) (task : Option Task)
      (signature : Option Text) (s : Db)
      → u.metadata ≡ some md
      → u.signature ≡ signature
      → before (temporary u.object_id) ≡ none
      → before (final u.object_id) ≡ none
      → IsSafe before (upload_for v round_id member u m row plan md task signature before s)
  unfolding upload_for
  upload_for-IsSafe before row plan md none signature s md_is sign_is clear free =
      fail_tree-IsSafe before before actor_invalid s (λ f. refl)
  upload_for-IsSafe before row plan md (some task) none s md_is sign_is clear free =
      fail_tree-IsSafe before before actor_invalid s (λ f. refl)
  upload_for-IsSafe before row plan md (some task) (some signature) s md_is sign_is clear free =
      elim (Bool-cases (task.sender == member.client_id)) [
        | inr other ↦
            rw (other, upload_for) (fail_tree-IsSafe before before actor_invalid s (λ f. refl))
        | inl own ↦
            rw (own, upload_for)
              (store-IsSafe before _ row plan task md signature _ s free md_is sign_is
                (ground arith)
                (put_stream-IsAtomic v.sha256 v.max_bytes u.object_id u.body before clear))
      ]

  authorize-IsSafe :
      (before : Disk) (row : RoundRow) (md : Option Metadata) (plan : Option TreePlanRow) (s : Db)
      → u.metadata ≡ md
      → before (temporary u.object_id) ≡ none
      → before (final u.object_id) ≡ none
      → IsSafe before (authorize v round_id member u m row md plan before s)
  unfolding authorize
  authorize-IsSafe before row none plan s md_is clear free =
      fail_tree-IsSafe before before metadata_malformed s (λ f. refl)
  authorize-IsSafe before row (some md) none s md_is clear free =
      fail_tree-IsSafe before before task_unavailable s (λ f. refl)
  authorize-IsSafe before row (some md) (some plan) s md_is clear free =
      elim (Bool-cases (is_v1_1 row.protocol_version)) [
        | inr old ↦
            rw (old, authorize) (fail_tree-IsSafe before before task_unavailable s (λ f. refl))
        | inl new ↦
            rw (new, authorize)
              (upload_for-IsSafe before row plan md (find_task u.task_id plan.plan.tasks)
                u.signature s md_is refl clear free)
      ]

  -- The handler did not call more than `_round_for_member`, and answers with its refusal.
  abbrev pub WasNotAdmitted : Site → Answer (Response × Bool) × Site → Type 0
  WasNotAdmitted site (a, after) =
      (e : ApiError) × (a ≡ refused e)
      × ((round_for_member round_id member m.now m.later m.last m.before_participant site.db).0
          ≡ refused e)
      × SameFiles site.disk after.disk

  round-IsSafe :
      (before : Disk) (x : Answer RoundRow × Db)
      → before (temporary u.object_id) ≡ none
      → before (final u.object_id) ≡ none
      → ((e : ApiError) × ((task_with_round v round_id member u m x before).0 ≡ refused e)
          × (x.0 ≡ refused e)
          × SameFiles before (task_with_round v round_id member u m x before).1.disk)
        ⊎ IsSafe before (task_with_round v round_id member u m x before)
  unfolding task_with_round
  round-IsSafe before (refused e, s) clear free = inl (e, refl, refl, λ f. refl)
  round-IsSafe before (answered row, s) clear free = inr (
      authorize-IsSafe before row u.metadata (plan_row round_id (m.before_plan s)) (m.before_plan s)
        refl clear free)

  -- Where the new identifier is fresh, an upload of a tree artifact ends in one of three ways. The
  -- caller is not admitted to the round, and the files are as before. Or the files are as before,
  -- and the answer is a replay, or the handler called fail_round and answers that the round has
  -- failed where that committed. Or the artifact was taken: the whole body is the one new file, the
  -- caller is the sender of the task and signed the value, and the digest in it is that of the nonce
  -- in the metadata, of 12 bytes, and of the body without its last 16 bytes, the tag.
  pub put_key_task_artifact-IsSafe :
      (site : Site)
      → site.disk (temporary u.object_id) ≡ none
      → site.disk (final u.object_id) ≡ none
      → WasNotAdmitted site (put_key_task_artifact v round_id member u m site)
        ⊎ IsSafe site.disk (put_key_task_artifact v round_id member u m site)
  unfolding put_key_task_artifact
  put_key_task_artifact-IsSafe site clear free =
      round-IsSafe site.disk
        (round_for_member round_id member m.now m.later m.last m.before_participant site.db) clear
        free

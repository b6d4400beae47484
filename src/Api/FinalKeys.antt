-- ===== src/Api/FinalKeys.antt =====
-- `put_final_key` of api/v1.py: the root of the tree publishes the encrypted final key.
pub mod Inspected
pub mod Effects
pub mod Published
mod Tests
use deki_smpc_server.Prelude.{
  ℕ, Text, Message, Bool, true, false, not, ◌||◌, Option, none, some, ◌==◌, if◌then◌else◌, length,
}
use deki_smpc_server.Persistence.Schema.{Db, RoundRow, TreePlanRow, Response, StoredObject}
use deki_smpc_server.Persistence.Tx.{Error, Tx, Result, ok, err}
use deki_smpc_server.Persistence.Statements.{plan_row}
use deki_smpc_server.Persistence.FinalKeys.{record_final_key}
use deki_smpc_server.Storage.{
  Bytes, Disk, Stream, Stored, StoreError, stored, rejected, final, put_stream, delete,
}
use deki_smpc_server.Storage.Reading.{ciphertext_digest}
use deki_smpc_server.Api.{Answer, answered, refused}
use deki_smpc_server.Api.Rounds.{Member, transaction}
use deki_smpc_server.Api.Updates.{Site}
use deki_smpc_server.Api.Visits.{Visit, admitted, reject}
use deki_smpc_server.Api.Signing.{
  Codec, FinalKeyValue, final_key_value, is_signed, signed_final, final_key_purpose,
}

-- The decoded metadata: the text of the nonce, what that decodes to, and the comparison of the whole
-- with an expected value.
pub record KeyMetadata : Type 0 where
  pub nonce_text : Text
  pub nonce : Option Bytes
  pub equals : FinalKeyValue → Bool

-- What the handler has of a request and draws for it; no metadata where they are malformed.
pub record FinalUpload : Type 0 where
  pub metadata : Option KeyMetadata
  pub signature : Option Text
  pub idem_key : Text
  pub body : Stream
  pub object_id : Text

-- Why a final key is rejected.
pub data FinalRejection : Type 0 where
  key_metadata_malformed key_metadata_unavailable not_the_root key_nonce_malformed : FinalRejection
  key_file_unreadable key_too_short key_metadata_differs key_signature_invalid : FinalRejection
  key_store_failed : StoreError → FinalRejection
  key_record_failed : Error → FinalRejection

-- SHA-256, the digest of the request, the texts of the rejections, and the limit of the store.
pub record FinalService : Type 0 where
  pub codec : Codec
  pub sha256 : Bytes → Text
  pub request_digest : FinalKeyValue → (signature content : Text) → Text
  pub text_of : FinalRejection → Message
  pub max_bytes : ℕ

-- What the checks before the upload find.
pub data Permit : Type 0 where
  barred : FinalRejection → Permit
  permitted : KeyMetadata → TreePlanRow → (signature : Text) → Permit

-- What the checks of the stored ciphertext find.
pub data Verdict : Type 0 where
  unfit : FinalRejection → Verdict
  fit : FinalKeyValue → Verdict

-- The metadata, the plan, the signature, and whether the caller is the root.
unfoldable pub permit : Member → Option KeyMetadata → Option TreePlanRow → Option Text → Permit
permit member none plan signature = barred key_metadata_malformed
permit member (some md) none signature = barred key_metadata_unavailable
permit member (some md) (some plan) none = barred key_metadata_unavailable
permit member (some md) (some plan) (some signature) =
    if member.client_id == plan.plan.root_client_id
    then permitted md plan signature
    else barred not_the_root

module _ (v : FinalService) (round_id : Text) (member : Member) (u : FinalUpload) (t : Visit) where
  -- `_fail_tree`, with the files as they are.
  abbrev pub fail_final : FinalRejection → Db → Disk → Answer (Response × Bool) × Site
  fail_final r s disk =
      let x = reject round_id member t (v.text_of r) s in (x.0, record { db = x.1; disk = disk })

  -- The nonce, the metadata and the signature against the expected value.
  unfoldable pub weigh :
      RoundRow → KeyMetadata → (signature : Text) → (nonce : Bytes) → FinalKeyValue → Verdict
  weigh row md signature nonce expected =
      if not (length nonce == 12) || not (md.equals expected)
      then unfit key_metadata_differs
      else if is_signed v.codec row member final_key_purpose (signed_final expected) signature
      then fit expected
      else unfit key_signature_invalid

  unfoldable pub inspect :
      RoundRow → TreePlanRow → KeyMetadata → (signature : Text) → StoredObject → Disk → Verdict
  unfolding weigh
  inspect row plan md signature o disk = elim md.nonce [
    | none ↦ unfit key_nonce_malformed
    | some nonce ↦ elim (disk (final o.path)) [
      | none ↦ unfit key_file_unreadable
      | some content ↦ elim (ciphertext_digest v.sha256 content nonce) [
        | none ↦ unfit key_too_short
        | some digest ↦ weigh row md signature nonce (
            final_key_value row plan.plan_hash plan.plan.root_client_id md.nonce_text digest o.size)
      ]
    ]
  ]

  -- The call of the store for an accepted value.
  abbrev pub publishing : (signature : Text) → StoredObject → FinalKeyValue → Tx (Response × Bool)
  publishing signature o value =
      record_final_key round_id member.client_id o value.ciphertext_digest value.nonce signature
        u.idem_key (v.request_digest value signature o.digest) t.recorded

  -- After `record_final_key`.
  unfoldable pub conclude_final :
      StoredObject → Result (Response × Bool) × Db → Disk → Answer (Response × Bool) × Site
  conclude_final o (err e, s) disk = fail_final (key_record_failed e) s (delete o.path disk)
  conclude_final o (ok (response, true), s) disk =
      (answered (response, true), record { db = s; disk = delete o.path disk })
  conclude_final o (ok (response, false), s) disk =
      (answered (response, false), record { db = s; disk = disk })

  unfoldable pub publish :
      (signature : Text) → StoredObject → Verdict → Disk → Db → Answer (Response × Bool) × Site
  unfolding conclude_final
  publish signature o (unfit r) disk s = fail_final r s (delete o.path disk)
  publish signature o (fit value) disk s =
      conclude_final o (transaction (publishing signature o value) (t.before_method s)) disk

  unfoldable pub store_final :
      RoundRow
      → TreePlanRow
      → KeyMetadata
      → (signature : Text) → Stored × Disk
      → Db
      → Answer (Response × Bool) × Site
  unfolding publish inspect
  store_final row plan md signature (rejected e, disk) s = fail_final (key_store_failed e) s disk
  store_final row plan md signature (stored o, disk) s =
      publish signature o (inspect row plan md signature o disk) disk s

  unfoldable pub upload_final : RoundRow → Permit → Disk → Db → Answer (Response × Bool) × Site
  unfolding store_final
  upload_final row (barred r) disk s = fail_final r s disk
  upload_final row (permitted md plan signature) disk s =
      store_final row plan md signature (put_stream v.sha256 v.max_bytes u.object_id u.body disk) s

  unfoldable pub final_with_round :
      (before_plan : Db → Db) → Answer RoundRow × Db → Disk → Answer (Response × Bool) × Site
  unfolding upload_final permit
  final_with_round before_plan (refused e, s) disk = (refused e, record { db = s; disk = disk })
  final_with_round before_plan (answered row, s) disk =
      let s' = before_plan s in
      upload_final row (permit member u.metadata (plan_row round_id s') u.signature) disk s'

  -- `put_final_key`. `before_plan` is what other processes do before the plan is read.
  unfoldable pub put_final_key : (before_plan : Db → Db) → Site → Answer (Response × Bool) × Site
  unfolding final_with_round
  put_final_key before_plan site =
      final_with_round before_plan (admitted round_id member t site.db) site.disk

-- ===== src/Api/FinalKeys/Published.antt =====
-- What `put_final_key` leaves behind.
use deki_smpc_server.Prelude.{◌-◌, ◌≡◌, ◌⊎◌, Text, Bool, true, false, some, ◌++◌, take, length}
use deki_smpc_server.Persistence.Schema.{Db, RoundRow, TreePlanRow, Response, StoredObject}
use deki_smpc_server.Persistence.Tx.{ok}
use deki_smpc_server.Storage.{Bytes, FileName, final, file_eq, Disk}
use deki_smpc_server.Api.{Answer, answered, refused, ApiError}
use deki_smpc_server.Api.Rounds.{Member}
use deki_smpc_server.Api.Files.{SameFiles}
use deki_smpc_server.Api.Updates.{Site}
use deki_smpc_server.Api.Visits.{Visit, admitted, reject}
use deki_smpc_server.Api.Signing.{
  FinalKeyValue, final_key_value, is_signed, signed_final, final_key_purpose,
}
use deki_smpc_server.Api.FinalKeys.{FinalUpload, FinalService, FinalRejection, publishing}

module _ (v : FinalService) (round_id : Text) (member : Member) (u : FinalUpload) (t : Visit) where
  -- The answer and the database of a call of `_fail_tree`.
  abbrev pub WasRejected : Answer (Response × Bool) → Site → Type 0
  WasRejected a after =
      (r : FinalRejection) × (s : Db) × (reject round_id member t (v.text_of r) s ≡ (a, after.db))

  -- The final key was published: its file is the one new file. The caller is the root of the plan,
  -- and signed a value of the round and the plan, with the digest of the nonce and the ciphertext
  -- without its tag, which the store committed.
  pub record IsPublished (before : Disk) (a : Answer (Response × Bool)) (after : Site)
      : Type 0 where
    pub response : Response
    pub answer_is : a ≡ answered (response, false)
    pub content : Bytes
    pub there : after.disk (final u.object_id) ≡ some content
    pub others : (f : FileName) → file_eq f (final u.object_id) ≡ false → after.disk f ≡ before f
    pub row : RoundRow
    pub plan : TreePlanRow
    pub root : member.client_id ≡ plan.plan.root_client_id
    pub signature : Text
    pub nonce : Bytes
    pub nonce_length : length nonce ≡ 12
    pub nonce_text : Text
    pub o : StoredObject
    pub path_is : o.path ≡ u.object_id
    pub value : FinalKeyValue
    pub value_is :
        value
        ≡ final_key_value row plan.plan_hash plan.plan.root_client_id nonce_text
            (v.sha256 (nonce ++ take (length content - 16) content))
            o.size
    pub signed :
        is_signed v.codec row member final_key_purpose (signed_final value) signature ≡ true
    pub committed :
        (s : Db) × (publishing v round_id member u t signature o value s
          ≡ ok ((response, false), after.db))

  -- Nothing is left or lost, where the answer is a replay or the key was rejected.
  abbrev pub IsWithdrawn : Disk → Answer (Response × Bool) → Site → Type 0
  IsWithdrawn before a after =
      SameFiles before after.disk
      × (((response : Response) × (a ≡ answered (response, true))) ⊎ WasRejected a after)

  abbrev pub IsSettled : Disk → Answer (Response × Bool) × Site → Type 0
  IsSettled before (a, after) = IsWithdrawn before a after ⊎ IsPublished before a after

  -- The caller was refused by `_round_for_member`.
  abbrev pub WasTurnedAway : Site → Answer (Response × Bool) × Site → Type 0
  WasTurnedAway site (a, after) =
      (e : ApiError) × (a ≡ refused e)
      × ((admitted round_id member t site.db).0 ≡ refused e)
      × SameFiles site.disk after.disk

-- ===== src/Api/Updates.antt =====
-- `put_update` of api/v1.py: the upload of a masked update.
use deki_smpc_server.Prelude.{
  ℕ, Text, Bool, true, false, not, ◌&&◌, Option, none, some, List, ltb, ◌==◌, if◌then◌else◌,
}
use deki_smpc_server.Domain.Models.{TensorSchema}
use deki_smpc_server.Persistence.Schema.{Db, RoundRow, Response, StoredObject}
use deki_smpc_server.Persistence.Tx.{Result, ok, err}
use deki_smpc_server.Persistence.Updates.{record_update}
use deki_smpc_server.Storage.{
  Bytes, Disk, Stream, Stored, stored, rejected, too_large, final, put_stream, delete,
}
use deki_smpc_server.Worker.Inputs.{Libraries, field_prime, expected_of, same_names, shapes_match}
use deki_smpc_server.Api.{
  Answer, answered, refused, api_error, refusal_of, schema_mismatch, artifact_invalid,
  internal_error,
}
use deki_smpc_server.Api.Rounds.{Member, transaction, round_for_member}

-- What the handler has of a request and draws for it. `tag_length` is the number of bytes of the
-- tag, none where `bytes.fromhex` raises.
pub record Upload : Type 0 where
  pub schema_hash : Option Text
  pub integrity_tag : Option Text
  pub tag_length : Option ℕ
  pub idem_key : Text
  pub body : Stream
  pub object_id : Text
  pub job_id : Text

-- The clock readings, and what other processes do to the database between the steps.
pub record Moments : Type 0 where
  pub now : ℕ
  pub later : ℕ
  pub last : ℕ
  pub recorded : ℕ
  pub moved : ℕ
  pub before_participant : Db → Db
  pub before_record : Db → Db

-- The process-wide state that a handler changes.
pub record Site : Type 0 where
  pub db : Db
  pub disk : Disk

abbrev pub is_hash : Option Text → Text → Bool
is_hash none h = false
is_hash (some g) h = g == h

module _ (k : Libraries) (update_digest : Text → Text → Text) (max_bytes : ℕ) where
  -- The check of `X-Integrity-Tag`, with the tag where it passes.
  abbrev pub checked_tag : Upload → Option Text
  checked_tag u = elim u.integrity_tag [
    | none ↦ none
    | some t ↦ elim u.tag_length [
      | none ↦ none
      | some n ↦ elim (k.parse_hex t) [
        | none ↦ none
        | some v ↦ if n == 16 && ltb v field_prime then some t else none
      ]
    ]
  ]

  -- `_validate_safetensors`, on the file as it was stored.
  unfoldable pub validates : List TensorSchema → Option Bytes → Bool
  validates entries none = false
  validates entries (some content) = elim (k.load content) [
    | none ↦ false
    | some tensors ↦
        same_names tensors (expected_of entries) && shapes_match k tensors (expected_of entries)
  ]

  -- After `record_update`: a replay and an error delete the new file.
  unfoldable pub conclude_update :
      StoredObject → Result (Response × Bool) × Db → Disk → Answer (Response × Bool) × Site
  conclude_update o (err e, s) disk =
      (refused (refusal_of e), record { db = s; disk = delete o.path disk })
  conclude_update o (ok (response, true), s) disk =
      (answered (response, true), record { db = s; disk = delete o.path disk })
  conclude_update o (ok (response, false), s) disk =
      (answered (response, false), record { db = s; disk = disk })

  module _ (round_id : Text) (member : Member) (u : Upload) (m : Moments) where
    -- From the stored body on.
    unfoldable pub store_update :
        RoundRow → (tag : Text) → Stored × Disk → Db → Answer (Response × Bool) × Site
    unfolding validates conclude_update
    store_update row tag (rejected too_large, disk) s =
        (refused (api_error 422 artifact_invalid), record { db = s; disk = disk })
    store_update row tag (rejected e, disk) s =
        (refused (api_error 500 internal_error), record { db = s; disk = disk })
    store_update row tag (stored o, disk) s =
        if not (validates row.model_schema.entries (disk (final o.path)))
        then (
          refused (api_error 422 artifact_invalid),
          record { db = s; disk = delete o.path disk },
        )
        else conclude_update o
            (transaction
              (record_update round_id member.client_id o tag u.idem_key (update_digest o.digest tag)
                u.job_id m.recorded m.moved)
              (m.before_record s))
            disk

    -- The checks of the headers.
    unfoldable pub check_headers : RoundRow → Disk → Db → Answer (Response × Bool) × Site
    unfolding store_update
    check_headers row disk s =
        if not (is_hash u.schema_hash row.model_schema_hash)
        then (refused (api_error 422 schema_mismatch), record { db = s; disk = disk })
        else elim (checked_tag u) [
          | none ↦ (refused (api_error 422 artifact_invalid), record { db = s; disk = disk })
          | some tag ↦
              store_update row tag (put_stream k.sha256 max_bytes u.object_id u.body disk) s
        ]

    unfoldable pub with_round : Answer RoundRow × Db → Disk → Answer (Response × Bool) × Site
    unfolding check_headers
    with_round (refused e, s) disk = (refused e, record { db = s; disk = disk })
    with_round (answered row, s) disk = check_headers row disk s

    -- `put_update`.
    unfoldable pub put_update : Site → Answer (Response × Bool) × Site
    unfolding with_round
    put_update site =
        with_round
          (round_for_member round_id member m.now m.later m.last m.before_participant site.db)
          site.disk

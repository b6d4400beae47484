-- ===== src/Api/UploadEffects.antt =====
-- What the upload of an update may do to the database: a relation that the store's methods
-- ensure, and that what other processes do keeps to, holds between both ends of a handler.
use deki_smpc_server.Prelude.{ℕ, Text, Bool, true, false, Bool-cases, Option-cases, inl, inr}
use deki_smpc_server.Persistence.Schema.{Db, RoundRow, StoredObject, Response}
use deki_smpc_server.Persistence.Tx.{Result, ok, err}
use deki_smpc_server.Persistence.Ensures.{IsPreorder, Ensures}
use deki_smpc_server.Persistence.Rounds.{get_round}
use deki_smpc_server.Persistence.Updates.{record_update}
use deki_smpc_server.Storage.{
  Disk, Stored, stored, rejected, too_large, file_exists, stream_failed, final, put_stream,
}
use deki_smpc_server.Worker.Inputs.{Libraries}
use deki_smpc_server.Api.{Answer, answered, refused}
use deki_smpc_server.Api.Rounds.{Member, transaction, round_for_member}
use deki_smpc_server.Api.Effects.{transaction-holds, round_for_member-holds}
use deki_smpc_server.Api.Updates.{
  Upload, Moments, Site, is_hash, checked_tag, validates, conclude_update, store_update,
  check_headers, with_round, put_update,
}

module _ (R : Db → Db → Type 0) ⦃p : IsPreorder R⦄ where
  module _ (k : Libraries) (update_digest : Text → Text → Text) (max_bytes : ℕ) (round_id : Text)
      (member : Member) (u : Upload) (m : Moments) (calm : (s : Db) → R s (m.before_record s))
      (records : (o : StoredObject) (tag : Text)
        → Ensures R (
            record_update round_id member.client_id o tag u.idem_key
              (update_digest o.digest tag)
              u.job_id
              m.recorded
              m.moved)) where
    conclude_update-holds :
        (o : StoredObject) (s : Db) (x : Result (Response × Bool) × Db) (disk : Disk)
        → R s x.1
        → R s (conclude_update k update_digest max_bytes o x disk).1.db
    unfolding conclude_update
    conclude_update-holds o s (err e, t) disk h = h
    conclude_update-holds o s (ok (response, true), t) disk h = h
    conclude_update-holds o s (ok (response, false), t) disk h = h

    store_update-holds :
        (row : RoundRow) (tag : Text) (x : Stored × Disk) (s : Db)
        → R s (store_update k update_digest max_bytes round_id member u m row tag x s).1.db
    unfolding store_update
    store_update-holds row tag (rejected too_large, disk) s = p.same s
    store_update-holds row tag (rejected file_exists, disk) s = p.same s
    store_update-holds row tag (rejected stream_failed, disk) s = p.same s
    store_update-holds row tag (stored o, disk) s =
        elim (Bool-cases
          (validates k update_digest max_bytes row.model_schema.entries (disk (final o.path)))) [
            | inr invalid ↦ rw invalid (p.same s)
            | inl valid ↦
                let tx =
                  record_update round_id member.client_id o tag u.idem_key
                    (update_digest o.digest tag) u.job_id m.recorded m.moved in
                rw valid (
                  conclude_update-holds o s (transaction tx (m.before_record s)) disk (
                    p.chain s (m.before_record s) _ (calm s)
                      (transaction-holds R tx (m.before_record s) (records o tag))))
          ]

    check_headers-holds :
        (row : RoundRow) (disk : Disk) (s : Db)
        → R s (check_headers k update_digest max_bytes round_id member u m row disk s).1.db
    unfolding check_headers
    check_headers-holds row disk s =
        elim (Bool-cases (is_hash u.schema_hash row.model_schema_hash)) [
          | inr other ↦ rw other (p.same s)
          | inl is ↦ elim (Option-cases (checked_tag k update_digest max_bytes u)) [
            | inl bad_tag ↦ rw (is, bad_tag, check_headers) (p.same s)
            | inr (tag, good_tag) ↦
                rw (is, good_tag, check_headers)
                  (store_update-holds row tag
                    (put_stream k.sha256 max_bytes u.object_id u.body disk) s)
          ]
        ]

    with_round-holds :
        (s : Db) (x : Answer RoundRow × Db) (disk : Disk)
        → R s x.1
        → R s (with_round k update_digest max_bytes round_id member u m x disk).1.db
    unfolding with_round
    with_round-holds s (refused e, t) disk h = h
    with_round-holds s (answered row, t) disk h = p.chain s t _ h (check_headers-holds row disk t)

    pub put_update-holds :
        (site : Site)
        → ((s : Db) → R s (m.before_participant s))
        → Ensures R (get_round round_id true m.now m.later m.last)
        → R site.db (put_update k update_digest max_bytes round_id member u m site).1.db
    unfolding put_update
    put_update-holds site before admits =
        with_round-holds site.db
          (round_for_member round_id member m.now m.later m.last m.before_participant site.db)
          site.disk
          (round_for_member-holds R round_id member m.now m.later m.last m.before_participant
            site.db before admits)

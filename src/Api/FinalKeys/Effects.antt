-- ===== src/Api/FinalKeys/Effects.antt =====
-- What the upload of the final key may do to the database: a relation that the store's methods
-- ensure, and that what other processes do keeps to, holds between both ends of the handler.
use deki_smpc_server.Prelude.{Text, Message, Bool, true, false}
use deki_smpc_server.Persistence.Schema.{
  Db, RoundRow, TreePlanRow, Response, StoredObject, key_artifact_rejected,
}
use deki_smpc_server.Persistence.Tx.{Result, ok, err}
use deki_smpc_server.Persistence.Ensures.{IsPreorder, Ensures}
use deki_smpc_server.Persistence.Statements.{plan_row}
use deki_smpc_server.Persistence.Rounds.{get_round, fail_round}
use deki_smpc_server.Persistence.FinalKeys.{record_final_key}
use deki_smpc_server.Storage.{Disk, Stored, stored, rejected, delete, put_stream}
use deki_smpc_server.Api.{Answer, answered, refused}
use deki_smpc_server.Api.Rounds.{Member, transaction}
use deki_smpc_server.Api.Visits.{Visit, admitted}
use deki_smpc_server.Api.Effects.{IsCalm, transaction-holds, reject-holds, round_for_member-holds}
use deki_smpc_server.Api.Updates.{Site}
use deki_smpc_server.Api.FinalKeys.{
  KeyMetadata, FinalUpload, FinalService, FinalRejection, Permit, barred, permitted, Verdict, unfit,
  fit, permit, fail_final, inspect, publishing, conclude_final, publish, store_final, upload_final,
  final_with_round, put_final_key, key_store_failed, key_record_failed,
}

module _ (R : Db → Db → Type 0) ⦃p : IsPreorder R⦄ where
  module _ (v : FinalService) (round_id : Text) (member : Member) (u : FinalUpload) (t : Visit)
      (calm : IsCalm R t)
      (fails : (reason : Message)
        → Ensures R (fail_round round_id member.client_id key_artifact_rejected reason t.failed_at))
      (records : (o : StoredObject) (digest nonce signature request : Text)
        → Ensures R (
            record_final_key round_id member.client_id o digest nonce signature u.idem_key request
              t.recorded)) where
    fail_final-holds :
        (r : FinalRejection) (s : Db) (disk : Disk)
        → R s (fail_final v round_id member u t r s disk).1.db
    fail_final-holds r s disk =
        reject-holds R (Response × Bool) round_id member t calm (v.text_of r) s
          (fails (v.text_of r))

    conclude_final-holds :
        (o : StoredObject) (s : Db) (x : Result (Response × Bool) × Db) (disk : Disk)
        → R s x.1
        → R s (conclude_final v round_id member u t o x disk).1.db
    unfolding conclude_final
    conclude_final-holds o s (err e, s') disk h =
        p.chain s s' _ h (fail_final-holds (key_record_failed e) s' (delete o.path disk))
    conclude_final-holds o s (ok (response, true), s') disk h = h
    conclude_final-holds o s (ok (response, false), s') disk h = h

    publish-holds :
        (signature : Text) (o : StoredObject) (x : Verdict) (disk : Disk) (s : Db)
        → R s (publish v round_id member u t signature o x disk s).1.db
    unfolding publish
    publish-holds signature o (unfit r) disk s = fail_final-holds r s (delete o.path disk)
    publish-holds signature o (fit value) disk s =
        let tx = publishing v round_id member u t signature o value in
        conclude_final-holds o s (transaction tx (t.before_method s)) disk (
          p.chain s (t.before_method s) _ (calm.method s)
            (transaction-holds R tx (t.before_method s) (records o _ _ signature _)))

    store_final-holds :
        (row : RoundRow) (plan : TreePlanRow) (md : KeyMetadata) (signature : Text)
        (x : Stored × Disk) (s : Db)
        → R s (store_final v round_id member u t row plan md signature x s).1.db
    unfolding store_final
    store_final-holds row plan md signature (rejected e, disk) s =
        fail_final-holds (key_store_failed e) s disk
    store_final-holds row plan md signature (stored o, disk) s =
        publish-holds signature o (inspect v round_id member u t row plan md signature o disk) disk
          s

    upload_final-holds :
        (row : RoundRow) (x : Permit) (disk : Disk) (s : Db)
        → R s (upload_final v round_id member u t row x disk s).1.db
    unfolding upload_final
    upload_final-holds row (barred r) disk s = fail_final-holds r s disk
    upload_final-holds row (permitted md plan signature) disk s =
        store_final-holds row plan md signature
          (put_stream v.sha256 v.max_bytes u.object_id u.body disk) s

    final_with_round-holds :
        (before_plan : Db → Db) (s : Db) (x : Answer RoundRow × Db) (disk : Disk)
        → ((s' : Db) → R s' (before_plan s'))
        → R s x.1
        → R s (final_with_round v round_id member u t before_plan x disk).1.db
    unfolding final_with_round
    final_with_round-holds before_plan s (refused e, s') disk plan h = h
    final_with_round-holds before_plan s (answered row, s') disk plan h =
        let last = before_plan s' in
        p.chain s s' _ h (
          p.chain s' last _ (plan s') (
            upload_final-holds row (permit member u.metadata (plan_row round_id last) u.signature)
              disk last))

    pub put_final_key-holds :
        (before_plan : Db → Db) (site : Site)
        → ((s : Db) → R s (before_plan s))
        → Ensures R (get_round round_id true t.now t.later t.last)
        → R site.db (put_final_key v round_id member u t before_plan site).1.db
    unfolding put_final_key
    put_final_key-holds before_plan site plan admits =
        final_with_round-holds before_plan site.db (admitted round_id member t site.db) site.disk
          plan
          (round_for_member-holds R round_id member t.now t.later t.last t.before_participant
            site.db calm.participant admits)

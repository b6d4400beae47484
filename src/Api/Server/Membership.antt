-- ===== src/Api/Server/Membership.antt =====
-- Every route of a round refuses a caller that `_round_for_member` refuses.
use deki_smpc_server.Prelude.{◌≡◌, refl, Text}
use deki_smpc_server.Persistence.Schema.{Db, RoundRow}
use deki_smpc_server.Persistence.Requests.{run}
use deki_smpc_server.Storage.{Disk}
use deki_smpc_server.Api.{Answer, answered, refused, ApiError}
use deki_smpc_server.Api.Rounds.{Member}
use deki_smpc_server.Api.Updates.{Upload, Site, with_round, put_update}
use deki_smpc_server.Api.FinalKeys.{FinalUpload, final_with_round, put_final_key}
use deki_smpc_server.Api.KeyTasks.{TaskUpload, task_with_round, put_key_task_artifact}
use deki_smpc_server.Api.Visits.{admitted, with_row, visit}
use deki_smpc_server.Api.KeySetup.{
  read_round, get_me, put_public_key, get_public_keys, put_key_bundle, get_key_bundles,
  key_setup_complete,
}
use deki_smpc_server.Api.Tree.{
  get_tree_plan, get_next_key_action, get_key_task_artifact, acknowledge_key_task, get_final_key,
  acknowledge_final,
}
use deki_smpc_server.Api.Results.{get_result, complete_round}
use deki_smpc_server.Api.Server.{
  App, Reply, Arrival, Call, reads_round, reads_me, reads_public_keys, reads_bundles, reads_plan,
  reads_action, reads_final_key, reads_result, completes, puts_public_key, puts_bundle,
  completes_setup, puts_artifact, puts_final_key, reads_artifact, acknowledges, acknowledges_final,
  puts_update, on_db, visit_of, moments_of, task_moments_of, task_service_of, final_service_of,
  update_of, artifact_of, final_of, handled,
}

with_row-refused :
    {A : Type 0} (f : RoundRow → Db → Answer A × Db) (x : Answer RoundRow × Db) (e : ApiError)
    → x.0 ≡ refused e
    → with_row f x ≡ (refused e, x.1)
unfolding with_row
with_row-refused f (refused d, s) e h = (let same : d ≡ e = cc in λ i. (refused (same i), s))
with_row-refused f (answered row, s) e h = absurd (cc)

module _ (app : App) (a : Arrival) (r : Text) (m : Member) (e : ApiError) where
  -- The answer, with the database as `_round_for_member` leaves it and the files as they were.
  abbrev pub turned_away : Site → Answer Reply × Site
  turned_away site =
      (refused e, record { db = (admitted r m (visit_of app a) site.db).1; disk = site.disk })

  visit-refused :
      {A : Type 0} (reply : A → Reply) (f : RoundRow → Db → Answer A × Db) (site : Site)
      → (admitted r m (visit_of app a) site.db).0 ≡ refused e
      → on_db reply (visit r m (visit_of app a) f) site ≡ turned_away site
  unfolding visit
  visit-refused reply f site h =
      let is = with_row-refused f (admitted r m (visit_of app a) site.db) e h in rw is refl

  with_round-refused :
      (key : Text) (u : Upload) (x : Answer RoundRow × Db) (disk : Disk)
      → x.0 ≡ refused e
      → with_round app.libraries app.update_digest app.limits.max_artifact_bytes r m u
          (moments_of app a)
          x
          disk
        ≡ (refused e, record { db = x.1; disk = disk })
  unfolding with_round
  with_round-refused key u (refused d, s) disk h =
      let same : d ≡ e = cc in λ i. (refused (same i), record { db = s; disk = disk })
  with_round-refused key u (answered row, s) disk h = absurd (cc)

  task_with_round-refused :
      (u : TaskUpload) (x : Answer RoundRow × Db) (disk : Disk)
      → x.0 ≡ refused e
      → task_with_round (task_service_of app a) r m u (task_moments_of app a) x disk
        ≡ (refused e, record { db = x.1; disk = disk })
  unfolding task_with_round
  task_with_round-refused u (refused d, s) disk h =
      let same : d ≡ e = cc in λ i. (refused (same i), record { db = s; disk = disk })
  task_with_round-refused u (answered row, s) disk h = absurd (cc)

  final_with_round-refused :
      (u : FinalUpload) (before_plan : Db → Db) (x : Answer RoundRow × Db) (disk : Disk)
      → x.0 ≡ refused e
      → final_with_round (final_service_of app a) r m u (visit_of app a) before_plan x disk
        ≡ (refused e, record { db = x.1; disk = disk })
  unfolding final_with_round
  final_with_round-refused u before_plan (refused d, s) disk h =
      let same : d ≡ e = cc in λ i. (refused (same i), record { db = s; disk = disk })
  final_with_round-refused u before_plan (answered row, s) disk h = absurd (cc)

  -- On every route of a round, a member whom `_round_for_member` refuses is answered with its
  -- refusal; the files are as before, and the database is as it leaves it.
  pub handled-refused :
      (key : Text) (c : Call) (site : Site)
      → (admitted r m (visit_of app a) site.db).0 ≡ refused e
      → handled app a r m key c site ≡ turned_away site
  unfolding handled read_round get_me put_public_key get_public_keys put_key_bundle get_key_bundles
      key_setup_complete get_tree_plan get_next_key_action get_key_task_artifact
      acknowledge_key_task get_final_key acknowledge_final get_result complete_round put_update
      put_key_task_artifact put_final_key
  handled-refused key reads_round site h = visit-refused _ _ site h
  handled-refused key reads_me site h = visit-refused _ _ site h
  handled-refused key reads_public_keys site h = visit-refused _ _ site h
  handled-refused key reads_bundles site h = visit-refused _ _ site h
  handled-refused key reads_plan site h = visit-refused _ _ site h
  handled-refused key reads_action site h = visit-refused _ _ site h
  handled-refused key reads_final_key site h = visit-refused _ _ site h
  handled-refused key reads_result site h = visit-refused _ _ site h
  handled-refused key completes site h = visit-refused _ _ site h
  handled-refused key (puts_public_key k signature) site h = visit-refused _ _ site h
  handled-refused key (puts_bundle messages signature) site h = visit-refused _ _ site h
  handled-refused key (completes_setup commitment) site h = visit-refused _ _ site h
  handled-refused key (puts_artifact task_id metadata signature body) site h =
      rw
        (task_with_round-refused (artifact_of app a key task_id metadata signature body)
          (admitted r m (visit_of app a) site.db) site.disk h)
        refl
  handled-refused key (puts_final_key metadata signature body) site h =
      rw
        (final_with_round-refused (final_of app a key metadata signature body)
          (run app.service a.before_plan) (admitted r m (visit_of app a) site.db) site.disk h)
        refl
  handled-refused key (reads_artifact task_id) site h = visit-refused _ _ site h
  handled-refused key (acknowledges task_id digest) site h = visit-refused _ _ site h
  handled-refused key (acknowledges_final digest) site h = visit-refused _ _ site h
  handled-refused key (puts_update schema_hash tag tag_length body) site h =
      rw
        (with_round-refused key (update_of app a key schema_hash tag tag_length body)
          (admitted r m (visit_of app a) site.db) site.disk h)
        refl

-- ===== src/Api/Server/Routes.antt =====
-- Each handler of a round changes the database as by requests to the store.
use deki_smpc_server.Prelude.{
  refl, Text, Message, Bool, true, false, Option, List, none, some, if◌then◌else◌,
}
use deki_smpc_server.Domain.Topology.{TaskId}
use deki_smpc_server.Persistence.Schema.{
  Db, RoundRow, ArtifactRow, Body, key_artifact_rejected, public_key_body, key_bundle_body,
}
use deki_smpc_server.Persistence.Tx.{Tx, Result, ok, err}
use deki_smpc_server.Persistence.Ensures.{Ensures}
use deki_smpc_server.Persistence.Requests.{
  Service, handle, run, reads, fails, records_slot, completes_key_setup, records_task,
  acknowledges_task, acknowledges_final_key, records_update,
}
use deki_smpc_server.Persistence.Requests
use deki_smpc_server.Persistence.Rounds.{get_round, fail_round}
use deki_smpc_server.Persistence.Setup.{Slot, public_key, key_bundle, record_json_slot}
use deki_smpc_server.Persistence.KeyTasks.{ArtifactMetadata, task_artifact, acknowledge_task}
use deki_smpc_server.Persistence.FinalKeys.{FinalMetadata, final_key, acknowledge_final_key}
use deki_smpc_server.Persistence.Updates.{result}
use deki_smpc_server.Storage.{Disk}
use deki_smpc_server.Api.{Answer}
use deki_smpc_server.Api.Rounds.{Member, transaction}
use deki_smpc_server.Api.Visits.{Visit, visit, call}
use deki_smpc_server.Api.Effects.{
  IsCalm, transaction-holds, answer_of-holds, call-holds, visit-holds, reject-holds,
  answer_or_reject-holds,
}
use deki_smpc_server.Api.Queries.{task_artifact-Ensures, final_key-Ensures, result-Ensures}
use deki_smpc_server.Api.Signing.{text_payload}
use deki_smpc_server.Api.KeySetup.{
  Envelope, json_messages, put_public_key, put_key_bundle, key_setup_complete,
}
use deki_smpc_server.Api.Tree.{
  FileReply, Check, unreadable, changed, unchanged, send_checked, send_task, send_final,
  get_tree_plan, get_key_task_artifact, acknowledge_key_task, get_final_key, acknowledge_final,
}
use deki_smpc_server.Api.Results.{send_result, get_result, complete_round}
use deki_smpc_server.Api.Server.{App, Arrival, visit_of}
use deki_smpc_server.Api.Server.Refinement.{
  Reaches, Reaches-IsPreorder, run-Reaches, handle-Reaches, request-Ensures,
}

-- Both branches of a handler.
pub branch :
    {A : Type 0} (v : Service) (s : Db) (b : Bool) (x y : Answer A × Db)
    → Reaches v s x.1
    → Reaches v s y.1
    → Reaches v s (if b then x else y).1
branch v s true x y hx hy = hx
branch v s false x y hx hy = hy

module _ (app : App) (a : Arrival) where
  pub calm : IsCalm (Reaches app.service) (visit_of app a)
  calm = record {
    participant = run-Reaches app.service a.before_participant;
    method = run-Reaches app.service a.before_method;
    failure = run-Reaches app.service a.before_failure;
  }

  pub called :
      (A : Type 0) (tx : Tx A) (s : Db)
      → Ensures (Reaches app.service) tx
      → Reaches app.service s (call tx (visit_of app a) s).1
  called A tx s h = call-holds (Reaches app.service) A (visit_of app a) calm tx s h

module _ (app : App) (a : Arrival) (r : Text) (m : Member) where
  pub admits : Ensures (Reaches app.service) (get_round r true a.now a.later a.last)
  unfolding handle
  admits =
      request-Ensures app.service (get_round r true a.now a.later a.last)
        (reads r true a.now a.later a.last) (λ s. refl)

  pub fails_with :
      (reason : Message)
      → Ensures
          (Reaches app.service)
          (fail_round r m.client_id key_artifact_rejected reason a.failed_at)
  unfolding handle
  fails_with reason =
      request-Ensures app.service _ (fails r m.client_id key_artifact_rejected reason a.failed_at)
        (λ s. refl)

  abbrev pub V : Visit
  V = visit_of app a

  abbrev pub R : Db → Db → Type 0
  R = Reaches app.service

  pub stay : (s : Db) → R s s
  stay s = Reaches-IsPreorder.same s

  -- A handler of a participant, from what it does with the row of the round.
  pub visited :
      (A : Type 0) (f : RoundRow → Db → Answer A × Db) (s : Db)
      → ((row : RoundRow) (u : Db) → R u (f row u).1)
      → R s (visit r m V f s).1
  visited A f s h = visit-holds R A r m V (calm app a) f s admits h

  -- A transaction after what others did before it.
  transacted :
      (A : Type 0) (tx : Tx A) (s : Db) → Ensures R tx → R s (transaction tx (V.before_method s)).1
  transacted A tx s h =
      Reaches-IsPreorder.chain s (V.before_method s) _ ((calm app a).method s)
        (transaction-holds R tx (V.before_method s) h)

  slot :
      (which : Slot) (body : Body) (key digest : Text)
      → Ensures R (record_json_slot r m.client_id which body key digest a.recorded a.moved)
  unfolding handle
  slot which body key digest =
      request-Ensures app.service _
        (records_slot r m.client_id which body key digest a.recorded a.moved) (λ s. refl)

  pub put_public_key-Reaches :
      (k signature key : Text) (s : Db) → R s (put_public_key app.codec r m V k signature key s).1
  unfolding put_public_key
  put_public_key-Reaches k signature key s = visited _ _ s (λ row u.
      branch app.service u _ _ _ (stay u)
        (called app a _ _ u (slot public_key (public_key_body k signature) key _)))

  pub put_key_bundle-Reaches :
      (messages : List (Text × Envelope)) (signature key : Text) (s : Db)
      → R s (put_key_bundle app.codec r m V messages signature key s).1
  unfolding put_key_bundle
  put_key_bundle-Reaches messages signature key s = visited _ _ s (λ row u.
      branch app.service u _ _ _ (stay u) (
        called app a _ _ u
          (slot key_bundle (key_bundle_body (json_messages messages) signature) key _)))

  pub key_setup_complete-Reaches :
      (commitment key : Text) (s : Db)
      → R s (key_setup_complete app.codec r m V app.service.hashing commitment key s).1
  unfolding key_setup_complete handle
  key_setup_complete-Reaches commitment key s = visited _ _ s (λ row u. answer_of-holds R u _ (
      Reaches-IsPreorder.chain u (V.before_method u) _ ((calm app a).method u) (
        handle-Reaches app.service
          (completes_key_setup r m.client_id commitment key _ a.recorded a.moved)
          (V.before_method u))))

  pub get_tree_plan-Reaches : (s : Db) → R s (get_tree_plan app.codec app.reasons r m V s).1
  unfolding get_tree_plan
  get_tree_plan-Reaches s =
      visited _ _ s (λ row u. branch app.service u _ _ _ (stay u) ((calm app a).method u))

  send_checked-Reaches :
      {A : Type 0} (c : Check) (reply : FileReply A) (s : Db)
      → R s (send_checked app.codec app.reasons r m V c reply s).1
  unfolding send_checked
  send_checked-Reaches {A} unreadable reply s =
      reject-holds R (FileReply A) r m V (calm app a) _ s (fails_with _)
  send_checked-Reaches {A} changed reply s =
      reject-holds R (FileReply A) r m V (calm app a) _ s (fails_with _)
  send_checked-Reaches unchanged reply s = stay s

  send_task-Reaches :
      (disk : Disk) (s : Db) (x : Result (ArtifactRow × ArtifactMetadata) × Db)
      → R s x.1
      → R s (send_task app.codec app.reasons r m V app.libraries.sha256 disk x).1
  unfolding send_task
  send_task-Reaches disk s (err e, t) h = h
  send_task-Reaches disk s (ok (artifact, metadata), t) h =
      Reaches-IsPreorder.chain s t _ h (send_checked-Reaches _ _ t)

  pub get_key_task_artifact-Reaches :
      (task_id : TaskId) (disk : Disk) (s : Db)
      → R s
          (get_key_task_artifact app.codec app.reasons r m V app.libraries.sha256 task_id disk s).1
  unfolding get_key_task_artifact
  get_key_task_artifact-Reaches task_id disk s = visited _ _ s (λ row u.
      send_task-Reaches disk u _
        (transacted _ (task_artifact r task_id m.client_id) u (task_artifact-Ensures r task_id _)))

  send_final-Reaches :
      (row : RoundRow) (disk : Disk) (s : Db)
      (x : Result (Option (ArtifactRow × FinalMetadata)) × Db)
      → R s x.1
      → R s (send_final app.codec app.reasons r m V app.libraries.sha256 row disk x).1
  unfolding send_final
  send_final-Reaches row disk s (err e, t) h = h
  send_final-Reaches row disk s (ok none, t) h = h
  send_final-Reaches row disk s (ok (some (artifact, metadata)), t) h =
      Reaches-IsPreorder.chain s t _ h (send_checked-Reaches _ _ t)

  pub get_final_key-Reaches :
      (disk : Disk) (s : Db)
      → R s (get_final_key app.codec app.reasons r m V app.libraries.sha256 disk s).1
  unfolding get_final_key
  get_final_key-Reaches disk s = visited _ _ s (λ row u.
      send_final-Reaches row disk u _ (transacted _ (final_key r) u (final_key-Ensures r)))

  pub acknowledge_key_task-Reaches :
      (task_id : TaskId) (digest key : Text) (s : Db)
      → R s (acknowledge_key_task app.codec app.reasons r m V task_id digest key s).1
  unfolding acknowledge_key_task handle
  acknowledge_key_task-Reaches task_id digest key s =
      let payload = app.codec.digest (text_payload digest) in
      let tx = acknowledge_task r m.client_id task_id digest key payload a.recorded in
      visited _ _ s (λ row u. answer_or_reject-holds R _ r m V (calm app a) _ u _ fails_with (
        transacted _ tx u (
          request-Ensures app.service tx
            (acknowledges_task r m.client_id task_id digest key payload a.recorded) (λ t. refl))))

  pub acknowledge_final-Reaches :
      (digest key : Text) (s : Db)
      → R s (acknowledge_final app.codec app.reasons r m V digest key s).1
  unfolding acknowledge_final handle
  acknowledge_final-Reaches digest key s =
      let payload = app.codec.digest (text_payload digest) in
      let tx = acknowledge_final_key r m.client_id digest key payload a.recorded a.moved in
      visited _ _ s (λ row u. answer_or_reject-holds R _ r m V (calm app a) _ u _ fails_with (
        transacted _ tx u (
          request-Ensures app.service tx
            (acknowledges_final_key r m.client_id digest key payload a.recorded a.moved)
            (λ t. refl))))

  send_result-Reaches :
      (s : Db) (x : Result (Option (ArtifactRow × Option Text)) × Db)
      → R s x.1
      → R s (send_result x).1
  unfolding send_result
  send_result-Reaches s (err e, t) h = h
  send_result-Reaches s (ok none, t) h = h
  send_result-Reaches s (ok (some (artifact, tag)), t) h = h

  pub get_result-Reaches : (s : Db) → R s (get_result app.codec r m V s).1
  unfolding get_result
  get_result-Reaches s = visited _ _ s (λ row u.
      branch app.service u _ _ _ (stay u)
        (send_result-Reaches u _ (transacted _ (result r) u (result-Ensures r))))

  pub complete_round-Reaches : (key : Text) (s : Db) → R s (complete_round app.codec r m V key s).1
  unfolding complete_round handle
  complete_round-Reaches key s = visited _ _ s (λ row u. called app a _ _ u (
      request-Ensures app.service _ (Requests.completes r m.client_id key _ a.recorded a.moved)
        (λ t. refl)))

-- ===== src/Api/Server/Serving.antt =====
-- Every route changes the database as by requests to the store, and so does any run of requests.
use deki_smpc_server.Prelude.{refl, Text, Message, Bool, true, false, List, [], ◌∷◌}
use deki_smpc_server.Persistence.Requests
use deki_smpc_server.Persistence.Requests.{Service, handle, run}
use deki_smpc_server.Api.{Answer, answered, refused}
use deki_smpc_server.Api.Identity.{caller_of}
use deki_smpc_server.Api.Rounds.{Member}
use deki_smpc_server.Api.Updates.{Site}
use deki_smpc_server.Api.UploadEffects.{put_update-holds}
use deki_smpc_server.Api.TaskEffects.{put_key_task_artifact-holds}
use deki_smpc_server.Api.FinalKeys.Effects.{put_final_key-holds}
use deki_smpc_server.Api.Queries.{
  public_keys-Ensures, incoming_bundles-Ensures, next_key_action-Ensures,
}
use deki_smpc_server.Api.KeySetup.{read_round, get_me, get_public_keys, get_key_bundles}
use deki_smpc_server.Api.Tree.{get_next_key_action}
use deki_smpc_server.Api.Server.{
  App, Headers, Route, opens, aborts, of_round, Reply, Arrival, Call, reads_round, reads_me,
  reads_public_keys, reads_bundles, reads_plan, reads_action, reads_final_key, reads_result,
  completes, puts_public_key, puts_bundle, completes_setup, puts_artifact, puts_final_key,
  reads_artifact, acknowledges, acknowledges_final, puts_update, moments_of, task_moments_of,
  task_service_of, visit_of, final_service_of, update_of, artifact_of, final_of, handled, needs_key,
  then_with, keyed, serve, serve_all,
}
use deki_smpc_server.Api.Server.Refinement.{
  Reaches, Reaches-IsPreorder, run-Reaches, request-Ensures,
}
use deki_smpc_server.Api.Server.Operator.{open_round-Reaches, abort-Reaches}
use deki_smpc_server.Api.Server.Routes
use deki_smpc_server.Api.Server.Routes.{R, V, calm, admits, fails_with, stay, visited, called}

module _ (app : App) (a : Arrival) (r : Text) (m : Member) where
  handled-Reaches :
      (key : Text) (c : Call) (site : Site)
      → Reaches app.service site.db (handled app a r m key c site).1.db
  unfolding handled read_round get_me get_public_keys get_key_bundles get_next_key_action handle
  handled-Reaches key reads_round site = visited app a r m _ _ site.db (λ row u. stay app a r m u)
  handled-Reaches key reads_me site = visited app a r m _ _ site.db (λ row u. (calm app a).method u)
  handled-Reaches key reads_public_keys site =
      visited app a r m _ _ site.db (λ row u. called app a _ _ u (public_keys-Ensures r))
  handled-Reaches key reads_bundles site =
      visited app a r m _ _ site.db
        (λ row u. called app a _ _ u (incoming_bundles-Ensures r m.client_id))
  handled-Reaches key reads_plan site = Routes.get_tree_plan-Reaches app a r m site.db
  handled-Reaches key reads_action site =
      visited app a r m _ _ site.db
        (λ row u. called app a _ _ u (next_key_action-Ensures app.name_le r m.client_id))
  handled-Reaches key reads_final_key site =
      Routes.get_final_key-Reaches app a r m site.disk site.db
  handled-Reaches key reads_result site = Routes.get_result-Reaches app a r m site.db
  handled-Reaches key completes site = Routes.complete_round-Reaches app a r m key site.db
  handled-Reaches key (puts_public_key k signature) site =
      Routes.put_public_key-Reaches app a r m k signature key site.db
  handled-Reaches key (puts_bundle messages signature) site =
      Routes.put_key_bundle-Reaches app a r m messages signature key site.db
  handled-Reaches key (completes_setup commitment) site =
      Routes.key_setup_complete-Reaches app a r m commitment key site.db
  handled-Reaches key (puts_artifact task_id metadata signature body) site =
      put_key_task_artifact-holds (R app a r m) (task_service_of app a) r m
        (artifact_of app a key task_id metadata signature body) (task_moments_of app a)
        (run-Reaches app.service a.before_method) (run-Reaches app.service a.before_failure)
        (λ x. fails_with app a r m (app.rejection_text x))
        (λ o digest nonce sign request.
          request-Ensures app.service _
            (Requests.records_task r m.client_id task_id o digest nonce sign key request a.recorded)
            (λ s. refl))
        site (run-Reaches app.service a.before_participant) (run-Reaches app.service a.before_plan)
        (admits app a r m)
  handled-Reaches key (puts_final_key metadata signature body) site =
      put_final_key-holds (R app a r m) (final_service_of app a) r m
        (final_of app a key metadata signature body) (visit_of app a) (calm app a)
        (fails_with app a r m)
        (λ o digest nonce sign request.
          request-Ensures app.service _
            (Requests.records_final_key r m.client_id o digest nonce sign key request a.recorded)
            (λ s. refl))
        (run app.service a.before_plan) site (run-Reaches app.service a.before_plan)
        (admits app a r m)
  handled-Reaches key (reads_artifact task_id) site =
      Routes.get_key_task_artifact-Reaches app a r m task_id site.disk site.db
  handled-Reaches key (acknowledges task_id digest) site =
      Routes.acknowledge_key_task-Reaches app a r m task_id digest key site.db
  handled-Reaches key (acknowledges_final digest) site =
      Routes.acknowledge_final-Reaches app a r m digest key site.db
  handled-Reaches key (puts_update schema_hash tag tag_length body) site =
      put_update-holds (R app a r m) app.libraries app.update_digest app.limits.max_artifact_bytes r
        m (update_of app a key schema_hash tag tag_length body) (moments_of app a)
        (run-Reaches app.service a.before_method)
        (λ o t.
          request-Ensures app.service _
            (Requests.records_update r m.client_id o t key (app.update_digest o.digest t) a.job_id
              a.recorded a.moved)
            (λ s. refl))
        site (run-Reaches app.service a.before_participant) (admits app a r m)

then_with-Reaches :
    (v : Service) {A : Type 0} (x : Answer A) (f : A → Site → Answer Reply × Site) (site : Site)
    → ((y : A) → Reaches v site.db (f y site).1.db)
    → Reaches v site.db (then_with x f site).1.db
unfolding then_with
then_with-Reaches v (refused e) f site h = Reaches-IsPreorder.same site.db
then_with-Reaches v (answered y) f site h = h y

keyed-Reaches :
    (v : Service) (b : Bool) (key : Answer Message) (f : Message → Site → Answer Reply × Site)
    (site : Site)
    → ((x : Message) → Reaches v site.db (f x site).1.db)
    → Reaches v site.db (keyed b key f site).1.db
unfolding keyed
keyed-Reaches v true key f site h = then_with-Reaches v key f site h
keyed-Reaches v false key f site h = h []

serve-Reaches :
    (app : App) (h : Headers) (route : Route) (a : Arrival) (site : Site)
    → Reaches app.service site.db (serve app h route a site).1.db
unfolding serve
serve-Reaches app h (opens federation_id body) a site = then_with-Reaches app.service _ _ site (λ _.
    then_with-Reaches app.service _ _ site
      (λ key. open_round-Reaches app a (app.key_text key) federation_id body site.db))
serve-Reaches app h (aborts round_id reason) a site = then_with-Reaches app.service _ _ site (λ _.
    then_with-Reaches app.service _ _ site
      (λ key. abort-Reaches app a (app.key_text key) round_id reason site.db))
serve-Reaches app h (of_round round_id call) a site =
    then_with-Reaches app.service _ _ site (λ member.
      keyed-Reaches app.service (needs_key call) _ _ site
        (λ key. handled-Reaches app a round_id (caller_of member) (app.key_text key) call site))

-- Whatever requests the API serves, in whatever order and beside whatever the other processes do,
-- the database ends as after some requests to the store, each one transaction.
pub serve_all-Reaches :
    (app : App) (rs : List (Headers × Route × Arrival)) (site : Site)
    → Reaches app.service site.db (serve_all app rs site).db
unfolding serve_all
serve_all-Reaches app [] site = Reaches-IsPreorder.same site.db
serve_all-Reaches app ((h, route, a) ∷ rest) site =
    let next = (serve app h route a site).1 in
    Reaches-IsPreorder.chain site.db next.db _ (serve-Reaches app h route a site)
      (serve_all-Reaches app rest next)

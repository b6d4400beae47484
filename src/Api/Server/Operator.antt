-- ===== src/Api/Server/Operator.antt =====
-- The handlers of the operator change the database as by requests to the store.
use deki_smpc_server.Prelude.{refl, Text, Message, Bool, Option, none, some, List}
use deki_smpc_server.Persistence.Schema.{Db, Protocol, Response}
use deki_smpc_server.Persistence.Requests
use deki_smpc_server.Persistence.Requests.{Service, handle, run}
use deki_smpc_server.Persistence.Rounds.{create_round, abort_round}
use deki_smpc_server.Api.{Answer, ApiError}
use deki_smpc_server.Api.Signing.{reason_payload}
use deki_smpc_server.Api.Creation.{
  CreateRequest, sorted_names, seconds_or, open_checked, unless, with_manifest, with_version,
  open_round, abort_by_operator,
}
use deki_smpc_server.Api.Server.{App, Arrival, visit_of}
use deki_smpc_server.Api.Server.Refinement.{Reaches, Reaches-IsPreorder, request-Ensures}
use deki_smpc_server.Api.Server.Routes.{called}

module _ (app : App) (a : Arrival) (key : Text) where
  opened :
      (federation_id : Text) (body : CreateRequest) (version : Protocol)
      (entries : List (Text × Text)) (s : Db)
      → Reaches app.service s
          (open_checked app.codec app.limits app.members
            (visit_of app a)
            federation_id
            app.operator
            key
            a.new_round
            body
            version
            entries
            s).1
  unfolding open_checked handle
  opened federation_id body version entries s =
      let tx =
        create_round federation_id version body.model_schema body.model_schema_hash
          (sorted_names body.participants) (app.codec.manifest_digest entries)
          (seconds_or body.deadline_seconds app.limits.round_ttl_seconds)
          app.limits.retention_seconds app.operator key body.request_digest a.new_round
          a.recorded in
      called app a _ tx s (
        request-Ensures app.service tx
          (Requests.creates federation_id version body.model_schema body.model_schema_hash
            (sorted_names body.participants) (app.codec.manifest_digest entries)
            (seconds_or body.deadline_seconds app.limits.round_ttl_seconds)
            app.limits.retention_seconds app.operator key body.request_digest a.new_round
            a.recorded)
          (λ t. refl))

  with_manifest-Reaches :
      (federation_id : Text) (body : CreateRequest) (version : Protocol)
      (entries : Option (List (Text × Text))) (s : Db)
      → Reaches app.service s
          (with_manifest app.codec app.limits app.members
            (visit_of app a)
            federation_id
            app.operator
            key
            a.new_round
            body
            version
            entries
            s).1
  unfolding with_manifest
  with_manifest-Reaches federation_id body version none s = Reaches-IsPreorder.same s
  with_manifest-Reaches federation_id body version (some entries) s =
      opened federation_id body version entries s

  unless-Reaches :
      (e : Option ApiError) (f : Db → Answer (Response × Bool) × Db) (s : Db)
      → Reaches app.service s (f s).1
      → Reaches app.service s (unless e f s).1
  unfolding unless
  unless-Reaches none f s h = h
  unless-Reaches (some e) f s h = Reaches-IsPreorder.same s

  with_version-Reaches :
      (federation_id : Text) (body : CreateRequest) (version : Option Protocol) (s : Db)
      → Reaches app.service s
          (with_version app.codec app.limits app.members
            (visit_of app a)
            federation_id
            app.operator
            key
            a.new_round
            body
            version
            s).1
  unfolding with_version
  with_version-Reaches federation_id body none s = Reaches-IsPreorder.same s
  with_version-Reaches federation_id body (some version) s =
      unless-Reaches _ _ s (with_manifest-Reaches federation_id body version _ s)

  pub open_round-Reaches :
      (federation_id : Text) (body : CreateRequest) (s : Db)
      → Reaches app.service s
          (open_round app.codec app.limits app.members
            (visit_of app a)
            federation_id
            app.operator
            key
            a.new_round
            body
            s).1
  unfolding open_round
  open_round-Reaches federation_id body s =
      with_version-Reaches federation_id body body.protocol_version s

  pub abort-Reaches :
      (round_id : Text) (reason : Message) (s : Db)
      → Reaches app.service s
          (abort_by_operator app.codec app.limits app.members
            (visit_of app a)
            round_id
            app.operator
            key
            reason
            s).1
  unfolding abort_by_operator handle
  abort-Reaches round_id reason s =
      let payload = app.codec.digest (reason_payload reason) in
      let tx = abort_round round_id app.operator reason key payload a.recorded a.moved in
      called app a _ tx s (
        request-Ensures app.service tx
          (Requests.aborts round_id app.operator reason key payload a.recorded a.moved) (λ t. refl))

-- ===== src/Api/Results.antt =====
-- The handlers of api/v1.py at the end of a round: `get_result` and `complete`.
use deki_smpc_server.Prelude.{Text, not, ◌||◌, Option, none, some, if◌then◌else◌}
use deki_smpc_server.Domain.States.{result_ready, completed, state_eq}
use deki_smpc_server.Persistence.Schema.{Db, ArtifactRow, Response}
use deki_smpc_server.Persistence.Tx.{Result, ok, err}
use deki_smpc_server.Persistence.Updates.{result, complete_participant}
use deki_smpc_server.Api.{
  Answer, answered, refused, api_error, round_conflict, result_not_ready, internal_error,
}
use deki_smpc_server.Api.Rounds.{Member, transaction}
use deki_smpc_server.Api.Visits.{Visit, visit, call}
use deki_smpc_server.Api.Signing.{Codec, empty_payload}

-- The file of the result, with the headers `X-Integrity-Tag` and `X-Content-SHA256`.
pub record ResultReply : Type 0 where
  pub path : Text
  pub integrity_tag : Option Text
  pub digest : Text

unfoldable pub send_result :
    Result (Option (ArtifactRow × Option Text)) × Db → Answer ResultReply × Db
send_result (err e, s) = (refused (api_error 500 internal_error), s)
send_result (ok none, s) = (refused (api_error 503 result_not_ready), s)
send_result (ok (some (artifact, tag)), s) =
    (answered (record { path = artifact.path; integrity_tag = tag; digest = artifact.digest }), s)

module _ (k : Codec) (round_id : Text) (member : Member) (t : Visit) where
  unfoldable pub get_result : Db → Answer ResultReply × Db
  unfolding send_result
  get_result = visit round_id member t (λ row s.
      if not (state_eq row.state result_ready || state_eq row.state completed)
      then (refused (api_error 409 round_conflict), s)
      else send_result (transaction (result round_id) (t.before_method s)))

  -- `complete`.
  unfoldable pub complete_round : (idem_key : Text) → Db → Answer Response × Db
  complete_round idem_key = visit round_id member t (λ row.
      call
        (complete_participant round_id member.client_id idem_key (k.digest empty_payload) t.recorded
          t.moved)
        t)

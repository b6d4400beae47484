-- ===== src/Api/Rounds.antt =====
-- `_round_for_member` of api/v1.py.
use deki_smpc_server.Prelude.{ℕ, Text, true, not, ◌||◌, Option, none, some, ◌==◌, if◌then◌else◌}
use deki_smpc_server.Persistence.Schema.{Db, RoundRow}
use deki_smpc_server.Persistence.Tx.{Tx, Result, ok, err}
use deki_smpc_server.Persistence.Statements.{participant_of}
use deki_smpc_server.Persistence.Rounds.{get_round}
use deki_smpc_server.Persistence.Setup.{is_some}
use deki_smpc_server.Api.{
  Answer, answered, refused, api_error, authorization_failed, round_not_found, internal_error,
}

-- The row of an enrolled member, as far as the handlers read it.
pub record Member : Type 0 where
  pub federation_id : Text
  pub client_id : Text
  pub signing_public_key : Text

-- A transaction: what it returned or raised, and the database after it.
abbrev pub finished : {A : Type 0} → Db → Result (A × Db) → Result A × Db
finished s (ok (a, t)) = (ok a, t)
finished s (err e) = (err e, s)

abbrev pub transaction : {A : Type 0} → Tx A → Db → Result A × Db
transaction m s = finished s (m s)

-- After `get_round`, whose own errors no handler catches.
unfoldable pub admit :
    Text → Member → (Db → Db) → Result (Option RoundRow) × Db → Answer RoundRow × Db
admit round_id member meanwhile (err e, s) = (refused (api_error 500 internal_error), s)
admit round_id member meanwhile (ok none, s) = (refused (api_error 404 round_not_found), s)
admit round_id member meanwhile (ok (some r), s) =
    let s' = meanwhile s in
    if not (r.federation_id == member.federation_id)
      || not (is_some (participant_of round_id member.client_id s'))
    then (refused (api_error 403 authorization_failed), s')
    else (answered r, s')

-- `_round_for_member`. `meanwhile` is what other processes do between its two queries.
unfoldable pub round_for_member :
    (round_id : Text)
    → Member
    → (now later last : ℕ) → (meanwhile : Db → Db) → Db
    → Answer RoundRow × Db
unfolding admit
round_for_member round_id member now later last meanwhile s =
    admit round_id member meanwhile (transaction (get_round round_id true now later last) s)

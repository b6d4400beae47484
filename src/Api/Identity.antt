-- ===== src/Api/Identity.antt =====
-- Who calls: `_bearer`, `participant_identity`, `operator_identity` and `_idem` of api/v1.py.
use deki_smpc_server.Prelude.{
  Message, Bool, true, false, not, ◌&&◌, ◌||◌, Option, none, some, [], ◌∷◌, ltb, leb, ◌==◌,
  if◌then◌else◌, length, drop,
}
use deki_smpc_server.Persistence.Members.{MemberRow, Members, Encoding, member_for_token}
use deki_smpc_server.Api.{
  Answer, answered, refused, api_error, authentication_failed, authorization_failed,
  idempotency_key_required, internal_error,
}
use deki_smpc_server.Api.Rounds.{Member}

-- `"Bearer "`.
abbrev pub bearer_prefix : Message
bearer_prefix = 66 ∷ 101 ∷ 97 ∷ 114 ∷ 101 ∷ 114 ∷ 32 ∷ []

-- `value.startswith(prefix)`.
unfoldable pub starts_with : (prefix value : Message) → Bool
starts_with [] value = true
starts_with (c ∷ prefix) [] = false
starts_with (c ∷ prefix) (d ∷ value) = c == d && starts_with prefix value

unfoldable pub message_eq : Message → Message → Bool
message_eq [] [] = true
message_eq (c ∷ cs) (d ∷ ds) = c == d && message_eq cs ds
message_eq _ _ = false

abbrev pub header_text : Option Message → Message
header_text none = []
header_text (some value) = value

-- `_bearer`, from the `Authorization` header.
unfoldable pub bearer : Option Message → Answer Message
unfolding starts_with
bearer header =
    if not (starts_with bearer_prefix (header_text header)) || leb (length (header_text header)) 7
    then refused (api_error 401 authentication_failed)
    else answered (drop 7 (header_text header))

unfoldable pub found_member : Option MemberRow → Answer MemberRow
found_member none = refused (api_error 401 authentication_failed)
found_member (some m) = answered m

unfoldable pub member_of : Encoding → Members → Answer Message → Answer MemberRow
unfolding found_member
member_of k ms (refused e) = refused e
member_of k ms (answered token) = found_member (member_for_token k token ms)

-- `participant_identity`.
unfoldable pub participant_identity : Encoding → Members → Option Message → Answer MemberRow
unfolding member_of bearer
participant_identity k ms header = member_of k ms (bearer header)

-- The columns that the handlers read.
abbrev pub caller_of : MemberRow → Member
caller_of m = record {
  federation_id = m.federation_id;
  client_id = m.client_id;
  signing_public_key = m.signing_public_key;
}

unfoldable pub is_ascii : Message → Bool
is_ascii [] = true
is_ascii (c ∷ cs) = ltb c 128 && is_ascii cs

-- `hmac.compare_digest` on two `str`, which raises a `TypeError` where one is not ASCII.
unfoldable pub compare_digest : Message → Message → Option Bool
unfolding is_ascii message_eq
compare_digest a b = if is_ascii a && is_ascii b then some (message_eq a b) else none

unfoldable pub compared : Option Bool → Answer (Unit {0})
compared none = refused (api_error 500 internal_error)
compared (some false) = refused (api_error 403 authorization_failed)
compared (some true) = answered tt

unfoldable pub operator_of : (admin_token : Message) → Answer Message → Answer (Unit {0})
unfolding compared compare_digest
operator_of admin_token (refused e) = refused e
operator_of admin_token (answered token) = compared (compare_digest token admin_token)

-- `operator_identity`.
unfoldable pub operator_identity : (admin_token : Message) → Option Message → Answer (Unit {0})
unfolding operator_of bearer
operator_identity admin_token header = operator_of admin_token (bearer header)

-- `_idem`: an absent, empty or long key is refused.
unfoldable pub idempotency_key : Option Message → Answer Message
idempotency_key none = refused (api_error 400 idempotency_key_required)
idempotency_key (some []) = refused (api_error 400 idempotency_key_required)
idempotency_key (some (c ∷ cs)) =
    if ltb 128 (length (c ∷ cs))
    then refused (api_error 400 idempotency_key_required)
    else answered (c ∷ cs)

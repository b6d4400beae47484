-- ===== src/Persistence/Setup.antt =====
-- The JSON slots of key setup in database.py: `record_json_slot`, `public_keys` and
-- `incoming_bundles`.
use deki_smpc_server.Prelude.{
  ℕ, Text, Bool, true, false, not, ◌&&◌, ◌||◌, Option, none, some, List, [], ◌∷◌, ◌==◌,
  if◌then◌else◌, same,
}
use deki_smpc_server.Prelude.Rows.{select, count_where, any}
use deki_smpc_server.Domain.States.{RoundState, registration_open, key_setup, state_eq}
use deki_smpc_server.Persistence.Schema.{
  Db, ParticipantRow, public_key_submitted, key_bundle_submitted, caller, Body, key_bundle_body,
  Body-discrete, Response, accepted_digest, Operation, Event, public_key_barrier,
  public_key_accepted, key_bundle_accepted,
}
use deki_smpc_server.Persistence.Tx.{
  Tx, round_conflict, round_not_found, not_ready, key_bundle_invalid, type_error, pure, gets,
  or_raise, raise_if, when, ◌>>=◌, ◌>>◌,
}
use deki_smpc_server.Persistence.Statements.{
  round_of, participant_of, update_participant, note, remember, replay_or, need,
}
use deki_smpc_server.Persistence.Transition.{transition}

-- `slot`, and what it selects: the column, the operation, the events.
pub data Slot : Type 0 where
  public_key key_bundle : Slot

abbrev pub column : Slot → ParticipantRow → Option Body
column public_key p = p.public_key
column key_bundle p = p.key_bundle

abbrev pub set_column : Slot → Body → ℕ → ParticipantRow → ParticipantRow
set_column public_key body now p = record p {
  public_key = some body;
  state = public_key_submitted;
  last_seen = now;
}
set_column key_bundle body now p = record p {
  key_bundle = some body;
  state = key_bundle_submitted;
  last_seen = now;
}

abbrev pub slot_operation : Slot → Operation
slot_operation public_key = Operation.public_key
slot_operation key_bundle = Operation.key_bundle

abbrev pub accepted_event : Slot → Event
accepted_event public_key = public_key_accepted
accepted_event key_bundle = key_bundle_accepted

abbrev pub is_public_key : Slot → Bool
is_public_key public_key = true
is_public_key key_bundle = false

-- The states in which a slot takes a body: public keys also after the barrier, for a retry.
abbrev pub slot_open : Slot → RoundState → Bool
slot_open public_key s = state_eq s registration_open || state_eq s key_setup
slot_open key_bundle s = state_eq s key_setup

abbrev pub is_some : {A : Type 0} → Option A → Bool
is_some none = false
is_some (some _) = true

-- `old and old != new`.
abbrev pub differs : Option Body → Body → Bool
differs none new = false
differs (some old) new = not (same Body-discrete old new)

abbrev pub in_round : Text → ParticipantRow → Bool
in_round round p = p.round_id == round

-- `SELECT count(*) FROM participants WHERE round_id=? AND {column} IS NOT NULL`.
unfoldable pub filled : Text → (ParticipantRow → Bool) → Db → ℕ
filled round has s = count_where (λ p. in_round round p && has p) s.participants

unfoldable pub record_json_slot :
    (round_id client_id : Text)
    → Slot
    → Body
    → (idem_key content_digest : Text) → (now later : ℕ) → Tx (Response × Bool)
record_json_slot round_id client_id slot body idem_key content_digest now later =
    replay_or client_id round_id (slot_operation slot) idem_key content_digest do
      round_row ← need (round_of round_id) round_not_found
      raise_if (not (slot_open slot round_row.state)) round_conflict
      participant ← need (participant_of round_id client_id) type_error
      raise_if (differs (column slot participant) body) round_conflict
      update_participant round_id client_id (set_column slot body now)
      remember client_id round_id (slot_operation slot) idem_key content_digest
          (accepted_digest content_digest) now
      count ← gets (filled round_id (λ p. is_some (column slot p)))
      when
          (is_public_key slot
            && count == round_row.expected_count
            && state_eq round_row.state registration_open)
          (transition round_id registration_open key_setup (caller client_id) public_key_barrier
            none later)
      note round_id (caller client_id) (accepted_event slot) now none
      pure (accepted_digest content_digest, false)

-- `SELECT … FROM participants WHERE round_id=?`.
unfoldable pub participants_of : Text → Db → List ParticipantRow
participants_of round s = select (in_round round) s.participants

abbrev pub is_empty {ℓ} : {A : Type ℓ} → List A → Bool
is_empty [] = true
is_empty (_ ∷ _) = false

-- `{row["client_id"]: json.loads(row["public_key_json"]) …}`, on rows that have one.
keys_of : List ParticipantRow → List (Text × Body)
keys_of [] = []
keys_of (p ∷ ps) =
    let rest = keys_of ps in elim p.public_key [ none ↦ rest | some b ↦ (p.client_id, b) ∷ rest ]

unfoldable pub public_keys : (round_id : Text) → Tx (List (Text × Body))
unfolding keys_of
public_keys round_id = do
  rows ← gets (participants_of round_id)
  raise_if (is_empty rows || any (λ p. not (is_some p.public_key)) rows) not_ready
  pure (keys_of rows)

abbrev pub has_recipient : Text → List (Text × Text) → Bool
has_recipient recipient [] = false
has_recipient recipient ((client, _) ∷ rest) = client == recipient || has_recipient recipient rest

-- The loop of `incoming_bundles`: none where a bundle does not name the recipient.
bundles_for : Text → List ParticipantRow → Option (List (Text × Body))
bundles_for recipient [] = some []
bundles_for recipient (p ∷ ps) =
    let rest = bundles_for recipient ps in
    if p.client_id == recipient then rest else elim p.key_bundle [
      | some (key_bundle_body messages signature) ↦
          if has_recipient recipient messages
          then elim rest [
            | none ↦ none
            | some found ↦ some ((p.client_id, key_bundle_body messages signature) ∷ found)
          ]
          else none
      | other ↦ none
    ]

unfoldable pub incoming_bundles : (round_id recipient : Text) → Tx (Option (List (Text × Body)))
unfolding bundles_for
incoming_bundles round_id recipient = do
  rows ← gets (participants_of round_id)
  if is_empty rows || any (λ p. not (is_some p.key_bundle)) rows
      then pure none
      else do found ← or_raise (bundles_for recipient rows) key_bundle_invalid; pure (some found)

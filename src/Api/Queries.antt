-- ===== src/Api/Queries.antt =====
-- The methods of the store that the handlers only read by leave the database as it is.
use deki_smpc_server.Prelude.{Text, Bool}
use deki_smpc_server.Domain.Topology.{TaskId}
use deki_smpc_server.Persistence.Schema.{Db}
use deki_smpc_server.Persistence.Ensures.{IsPreorder, Ensures, ensures_rules}
use deki_smpc_server.Persistence.Setup.{public_keys, incoming_bundles}
use deki_smpc_server.Persistence.KeyTasks.{next_key_action, task_artifact}
use deki_smpc_server.Persistence.FinalKeys.{final_key}
use deki_smpc_server.Persistence.Updates.{result}

module _ {R : Db → Db → Type 0} ⦃p : IsPreorder R⦄ where
  pub public_keys-Ensures : (round_id : Text) → Ensures R (public_keys round_id)
  unfolding public_keys
  public_keys-Ensures round_id = search ensures_rules depth 20

  pub incoming_bundles-Ensures :
      (round_id recipient : Text) → Ensures R (incoming_bundles round_id recipient)
  unfolding incoming_bundles
  incoming_bundles-Ensures round_id recipient = search ensures_rules depth 20

  pub next_key_action-Ensures :
      (name_le : TaskId → TaskId → Bool) (round_id client_id : Text)
      → Ensures R (next_key_action name_le round_id client_id)
  unfolding next_key_action
  next_key_action-Ensures name_le round_id client_id = search ensures_rules depth 30

  pub task_artifact-Ensures :
      (round_id : Text) (task_id : TaskId) (client_id : Text)
      → Ensures R (task_artifact round_id task_id client_id)
  unfolding task_artifact
  task_artifact-Ensures round_id task_id client_id = search ensures_rules depth 30

  pub final_key-Ensures : (round_id : Text) → Ensures R (final_key round_id)
  unfolding final_key
  final_key-Ensures round_id = search ensures_rules depth 20

  pub result-Ensures : (round_id : Text) → Ensures R (result round_id)
  unfolding result
  result-Ensures round_id = search ensures_rules depth 20

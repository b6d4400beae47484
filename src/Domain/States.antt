-- ===== src/Domain/States.antt =====
-- key-aggregation-server/app/domain/states.py: the states of a round and the table of transitions.
pub mod Lifecycle
use deki_smpc_server.Prelude.{Bool, true, false, not, ◌&&◌, ◌||◌}

pub data RoundState : Type 0 where
  created registration_open key_setup key_aggregation update_collection : RoundState
  aggregating result_ready completed failed aborted expired : RoundState

-- `==` on the members of the enumeration.
abbrev pub state_eq : RoundState → RoundState → Bool
state_eq created created = true
state_eq registration_open registration_open = true
state_eq key_setup key_setup = true
state_eq key_aggregation key_aggregation = true
state_eq update_collection update_collection = true
state_eq aggregating aggregating = true
state_eq result_ready result_ready = true
state_eq completed completed = true
state_eq failed failed = true
state_eq aborted aborted = true
state_eq expired expired = true
state_eq _ _ = false

-- `s in TERMINAL_STATES`; the store writes the same set out at each use.
abbrev pub is_terminal : RoundState → Bool
is_terminal completed = true
is_terminal failed = true
is_terminal aborted = true
is_terminal expired = true
is_terminal _ = false

-- `s in ACTIVE_STATES`, the complement of the terminal states.
abbrev pub is_active : RoundState → Bool
is_active s = not (is_terminal s)

-- `target in {FAILED, ABORTED, EXPIRED}`.
abbrev pub is_failure : RoundState → Bool
is_failure failed = true
is_failure aborted = true
is_failure expired = true
is_failure _ = false

-- `target in ALLOWED_TRANSITIONS.get(source, set())`.
abbrev pub in_table : RoundState → RoundState → Bool
in_table created registration_open = true
in_table registration_open key_setup = true
in_table key_setup key_aggregation = true
in_table key_setup update_collection = true
in_table key_aggregation update_collection = true
in_table update_collection aggregating = true
in_table aggregating result_ready = true
in_table result_ready completed = true
in_table _ _ = false

unfoldable pub transition_allowed : RoundState → RoundState → Bool
transition_allowed source target = in_table source target || (is_active source && is_failure target)

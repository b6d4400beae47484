-- ===== src/Config.antt =====
-- key-aggregation-server/app/config.py: `Settings.from_env`.
pub mod Least
pub mod Accepted
mod Tests
use deki_smpc_server.Prelude.{
  ℕ, suc, ◌+◌, ◌-◌, ◌*◌, ◌/◌, Text, Message, Bool, true, false, ◌||◌, Option, none, some, List, [],
  ◌∷◌, ltb, if◌then◌else◌, length,
}
use deki_smpc_server.Persistence.Members.{Federations}

-- The environment variables that the settings are read from.
pub data Variable : Type 0 where
  admin_token federations_json database_path artifact_path : Variable
  max_artifact_bytes round_ttl_seconds retention_seconds : Variable
  worker_poll_seconds worker_lease_seconds maintenance_interval_seconds : Variable
  max_participants : Variable

-- A Python `int`.
pub data ℤ : Type 0 where
  pos : ℕ → ℤ
  negsuc : ℕ → ℤ

-- A Python `float`: a finite one by its multiple of the least positive one.
pub data Float : Type 0 where
  finite : ℤ → Float
  nan infinite minus_infinite : Float

-- `json.loads`: an object of federations, or another value.
pub data Json : Type 0 where
  object : Federations → Json
  other_json : Json

-- What is not this program's: `int`, `float` and `json.loads` on a text, where they do not raise,
-- and how many of the least positive floats make 1, less one.
pub record Parsing : Type 0 where
  pub int_of : Message → Option ℤ
  pub float_of : Message → Option Float
  pub json_of : Message → Option Json
  pub ones : ℕ

pub data ConfigError : Type 0 where
  token_short json_invalid json_not_object number_malformed : ConfigError
  not_positive participants_low : ConfigError

pub record Settings : Type 0 where
  pub database_path : Message
  pub artifact_path : Message
  pub federation_config : Federations
  pub admin_token : Message
  pub max_artifact_bytes : ℤ
  pub round_ttl_seconds : ℤ
  pub retention_seconds : ℤ
  pub worker_poll_seconds : Float
  pub worker_lease_seconds : Float
  pub maintenance_interval_seconds : Float
  pub max_participants : Option ℤ

pub data Loaded : Type 0 where
  accepted : Settings → Loaded
  rejected : ConfigError → Loaded

abbrev pub int_lt : ℤ → ℤ → Bool
int_lt (pos a) (pos b) = ltb a b
int_lt (pos a) (negsuc b) = false
int_lt (negsuc a) (pos b) = true
int_lt (negsuc a) (negsuc b) = ltb b a

-- `a < b`, which is false where one of them is not a number.
abbrev pub float_lt : Float → Float → Bool
float_lt (finite a) (finite b) = int_lt a b
float_lt (finite a) infinite = true
float_lt minus_infinite (finite b) = true
float_lt minus_infinite infinite = true
float_lt _ _ = false

-- The float that is equal to an integer.
abbrev pub float_of_int : Parsing → ℤ → Float
float_of_int p (pos n) = finite (pos (n * suc p.ones))
float_of_int p (negsuc n) = finite (negsuc (suc n * suc p.ones - 1))

-- `min` of two values or more: a later one replaces the least so far where it is below it.
unfoldable pub min_from : Float → List Float → Float
min_from least [] = least
min_from least (x ∷ xs) = min_from (if float_lt x least then x else least) xs

abbrev pub zero_float : Float
zero_float = finite (pos 0)

-- `x <= 0`.
abbrev pub is_le_zero : Float → Bool
is_le_zero (finite (pos n)) = ltb n 1
is_le_zero (finite (negsuc n)) = true
is_le_zero minus_infinite = true
is_le_zero _ = false

-- `settings.max_participants is not None and settings.max_participants < 3`.
abbrev pub is_below_three : Option ℤ → Bool
is_below_three none = false
is_below_three (some n) = int_lt n (pos 3)

abbrev pub text_or : Option Message → Message → Message
text_or none d = d
text_or (some t) d = t

-- `os.environ.get(name, default)`, through `int` or `float`.
abbrev pub number_or {ℓ} : {A : Type ℓ} → (Message → Option A) → Option Message → A → Option A
number_or parse none d = some d
number_or parse (some t) d = parse t

-- `int(value) if (value := …) else None`, where the outer `Option` is the `ValueError` of `int`.
abbrev pub optional_int : (Message → Option ℤ) → Option Message → Option (Option ℤ)
optional_int parse none = some none
optional_int parse (some []) = some none
optional_int parse (some (c ∷ cs)) = elim (parse (c ∷ cs)) [ none ↦ none | some n ↦ some (some n) ]

-- The two checks at the end.
unfoldable pub validated : Parsing → Settings → Loaded
unfolding min_from
validated p s =
    if is_le_zero (
      min_from (float_of_int p s.max_artifact_bytes) (
        float_of_int p s.round_ttl_seconds
        ∷ float_of_int p s.retention_seconds
        ∷ s.worker_poll_seconds
        ∷ s.worker_lease_seconds
        ∷ s.maintenance_interval_seconds
        ∷ []))
    then rejected not_positive
    else if is_below_three s.max_participants
    then rejected participants_low
    else accepted s

-- A number that is not parsed raises.
infixl 10 ◌>>=◌
unfoldable pub ◌>>=◌ : {A : Type 0} → Option A → (A → Loaded) → Loaded
◌>>=◌ none f = rejected number_malformed
◌>>=◌ (some a) f = f a

module _ (p : Parsing) (env : Variable → Option Message)
    (default_database default_artifacts : Message) where
  -- The call of the constructor, and the checks: each number is parsed, or its default taken.
  unfoldable pub assembled : Federations → Loaded
  assembled federations = do
    bytes ← number_or p.int_of (env Variable.max_artifact_bytes) (pos (512 * 1024 * 1024))
    ttl ← number_or p.int_of (env Variable.round_ttl_seconds) (pos 1800)
    kept ← number_or p.int_of (env Variable.retention_seconds) (pos 86400)
    poll ← number_or p.float_of (env Variable.worker_poll_seconds) (finite (pos (suc p.ones / 4)))
    lease ←
        number_or p.float_of (env Variable.worker_lease_seconds) (finite (pos (900 * suc p.ones)))
    interval ←
        number_or p.float_of (env Variable.maintenance_interval_seconds)
          (finite (pos (60 * suc p.ones)))
    limit ← optional_int p.int_of (env Variable.max_participants)
    validated p (record {
      database_path = text_or (env Variable.database_path) default_database;
      artifact_path = text_or (env Variable.artifact_path) default_artifacts;
      federation_config = federations;
      admin_token = text_or (env Variable.admin_token) [];
      max_artifact_bytes = bytes;
      round_ttl_seconds = ttl;
      retention_seconds = kept;
      worker_poll_seconds = poll;
      worker_lease_seconds = lease;
      maintenance_interval_seconds = interval;
      max_participants = limit;
    })

  unfoldable pub with_json : Option Json → Loaded
  unfolding assembled
  with_json none = rejected json_invalid
  with_json (some other_json) = rejected json_not_object
  with_json (some (object federations)) = assembled federations

  -- `json.loads` of `DEKI_FEDERATIONS_JSON`, which is `{}` by default.
  unfoldable pub federations_of : Option Message → Option Json
  federations_of none = some (object [])
  federations_of (some t) = p.json_of t

  -- `from_env`, with the two default paths.
  unfoldable pub from_env : Loaded
  unfolding with_json federations_of
  from_env =
      if ltb (length (text_or (env Variable.admin_token) [])) 32
      then rejected token_short
      else with_json (federations_of (env Variable.federations_json))

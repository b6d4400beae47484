-- ===== src/Config/Tests.antt =====
-- An environment that sets the token and one number.
use deki_smpc_server.Prelude.{◌*◌, ◌≡◌, Message, Option, none, some, [], ◌∷◌, ◌↔◌}
use deki_smpc_server.Config.{Variable, pos, finite, nan, Parsing, Settings, accepted, validated}
use deki_smpc_server.Config.Accepted.{IsSane, validated_iff}

-- Only the numeral 5 is read, as an integer; the text of a float is not a number.
abbrev parsing : Parsing
parsing = record {
  int_of = λ t. some (pos 5);
  float_of = λ t. some nan;
  json_of = λ t. none;
  ones = 3;
}

abbrev secret : Message
secret =
    1 ∷ 1 ∷ 1 ∷ 1 ∷ 1 ∷ 1 ∷ 1 ∷ 1 ∷ 1 ∷ 1 ∷ 1 ∷ 1 ∷ 1 ∷ 1 ∷ 1 ∷ 1 ∷ 1 ∷ 1 ∷ 1 ∷ 1 ∷ 1 ∷ 1 ∷ 1 ∷ 1
    ∷ 1 ∷ 1 ∷ 1 ∷ 1 ∷ 1 ∷ 1 ∷ 1 ∷ 1 ∷ []

abbrev environment : Variable → Option Message
environment Variable.admin_token = some secret
environment Variable.max_participants = some (53 ∷ [])
environment Variable.worker_poll_seconds = some (110 ∷ 97 ∷ 110 ∷ [])
environment _ = none

abbrev loaded : Settings
loaded = record {
  database_path = 47 ∷ [];
  artifact_path = 47 ∷ [];
  federation_config = [];
  admin_token = secret;
  max_artifact_bytes = pos (512 * 1024 * 1024);
  round_ttl_seconds = pos 1800;
  retention_seconds = pos 86400;
  worker_poll_seconds = nan;
  worker_lease_seconds = finite (pos 3600);
  maintenance_interval_seconds = finite (pos 240);
  max_participants = some (pos 5);
}

validated_iff_example : (validated parsing loaded ≡ accepted loaded) ↔ IsSane loaded
validated_iff_example = validated_iff parsing loaded

-- ===== src/Persistence/Members/Tests.antt =====
-- A federation of two members, one of whom was revoked before.
use deki_smpc_server.Prelude.{
  ℕ, ◌+◌, ◌≤◌, Text, Message, true, Option, none, some, [], ◌∷◌, ◌==◌, if◌then◌else◌,
}
use deki_smpc_server.Persistence.Members.{
  Members, MemberConfig, participant, Entry, Federations, InitError, database_locked, Encoding,
  Weather, initialize,
}
use deki_smpc_server.Persistence.Members.Startup.{initialize_slept}

abbrev letters : Message
letters = 1 ∷ 1 ∷ 1 ∷ 1 ∷ 1 ∷ 1 ∷ 1 ∷ 1 ∷ []

abbrev token_of : ℕ → Message
token_of n =
    n ∷ 1 ∷ 1 ∷ 1 ∷ 1 ∷ 1 ∷ 1 ∷ 1 ∷ 1 ∷ 1 ∷ 1 ∷ 1 ∷ 1 ∷ 1 ∷ 1 ∷ 1 ∷ 1 ∷ 1 ∷ 1 ∷ 1 ∷ 1 ∷ 1 ∷ 1 ∷ 1
    ∷ 1 ∷ 1 ∷ 1 ∷ 1 ∷ 1 ∷ 1 ∷ 1 ∷ 1 ∷ []

abbrev total_of : Message → Text
total_of [] = 0
total_of (c ∷ cs) = c + total_of cs

abbrev encoding : Encoding
encoding = record { decoded_length = λ key. some 32; token_digest = total_of }

abbrev config_of : ℕ → MemberConfig
config_of n = record { token = token_of n; signing_public_key = 70; role = none }

abbrev federations : Federations
federations = (50, (1, config_of 7) ∷ (2, config_of 8) ∷ []) ∷ []

abbrev first_entry : Entry
first_entry = record { federation_id = 50; client_id = 1; config = config_of 7 }

abbrev second_entry : Entry
second_entry = record { federation_id = 50; client_id = 2; config = config_of 8 }

abbrev old_members : Members
old_members =
    record {
      federation_id = 50;
      client_id = 2;
      token_hash = 4;
      signing_public_key = 69;
      role = participant;
      revoked = true;
    }
    ∷ []

abbrev locked_at_first : ℕ → Option InitError
locked_at_first n = if n == 0 then some database_locked else none

abbrev weather : Weather
weather = record {
  at_schema = locked_at_first;
  faults = λ attempt i. none;
  meanwhile = λ attempt ms. ms;
}

initialize_slept_example : (initialize encoding weather federations old_members).slept ≤ 15550
initialize_slept_example = initialize_slept encoding weather federations old_members

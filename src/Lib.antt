-- ===== src/Lib.antt =====
-- deki-smpc server: the coordinator of secure aggregation rounds, key-aggregation-server/app.
--
-- The parts. An operator opens a round for clients of a federation. The clients exchange keys
-- (protocol 1.0) or aggregate a key along a tree of groups (protocol 1.1), upload masked updates and
-- fetch the sum of them. The API process (api/v1.py) serves the clients, and the worker process
-- (worker/aggregation.py) adds the updates up, expires rounds and purges them. Both act on one
-- SQLite database (persistence/database.py), by transactions that begin with BEGIN IMMEDIATE, and on
-- one directory of immutable artifacts (storage/filesystem.py). domain/ holds the state machine of a
-- round, the request models and the derivation of the tree plan. config.py reads the settings and the
-- configured members, which initialize puts into the table of members; a caller is known by its token.
--
-- Which file models which part (paths below key-aggregation-server/app):
--   domain/states.py          Domain/States (RoundState, ALLOWED_TRANSITIONS as in_table)
--   config.py                 Config (Settings.from_env)
--   main.py                   Api/Server/Calls (App: what the lifespan hands to the handlers)
--   domain/models.py          Domain/Models (the data that the store keeps),
--                             Domain/Models/Validation (the validators)
--   domain/topology.py        Domain/Topology (_shuffle, _group_sizes, the tree),
--                             Domain/Topology/Derive (the tasks, derive_tree_plan)
--   persistence/database.py   Persistence/Schema (the tables, one record for each),
--                             Persistence/Tx (transaction), Persistence/Statements (the SQL),
--                             Persistence/Transition (_transition), Persistence/Rounds
--                             (create_round, get_round, fail_round, abort), Persistence/Setup
--                             (record_json_slot, public_keys, incoming_bundles),
--                             Persistence/KeyContext (key_complete, _create_tree_plan),
--                             Persistence/KeyTasks (next_key_action, record_task_artifact,
--                             task_artifact, acknowledge_task), Persistence/FinalKeys
--                             (record_final_key, final_key, acknowledge_final_key),
--                             Persistence/Updates (record_update, job_inputs, result,
--                             complete_participant), Persistence/Jobs (claim_job, renew_job,
--                             complete_job, fail_job), Persistence/Retention (expire_rounds,
--                             retention_candidates, purge_round),
--                             Persistence/Members (initialize, member_for_token, member)
--   storage/filesystem.py     Storage (put_stream, put_bytes, delete)
--   api/v1.py                 Storage/Reading (_file_digest, _ciphertext_digest), Api (api_error,
--                             _translate), Api/Identity (_bearer, participant_identity,
--                             operator_identity, _idem), Api/Rounds (_round_for_member),
--                             Api/Signing (_domain, _final_key_value, _verify_signature),
--                             Api/Visits (_fail_tree, and what the handlers share), Api/Creation
--                             (create_round, abort), Api/KeySetup (get_round, get_me,
--                             put_public_key, get_public_keys, put_key_bundle, get_key_bundles,
--                             key_setup_complete), Api/Tree (get_tree_plan, get_next_key_action,
--                             get_key_task_artifact, acknowledge_key_task, get_final_key,
--                             acknowledge_final_key), Api/Updates (_validate_safetensors,
--                             put_update), Api/Results (get_result, complete), Api/KeyTasks
--                             (_artifact_value, _fail_tree, put_key_task_artifact),
--                             Api/FinalKeys (put_final_key), Api/Server and
--                             Api/Server/Calls (the routes and their dependencies)
--   worker/aggregation.py     Worker/Inputs (the loop over the inputs), Worker/Jobs (run_once),
--                             Worker/Maintenance (run_maintenance)
-- The proofs stand in further modules, named for what they are about: Persistence/Audit,
-- Persistence/Lifecycle, Persistence/Retry, Persistence/Claims, Persistence/Purge,
-- Persistence/Failure, Persistence/Activation, the children of Domain/Topology, Storage/Atomic,
-- Storage/Digests, Worker/Accepted, Worker/Sums, Worker/Published, Worker/Results, the children of
-- Worker/Maintenance, Api/Files, Api/Uploads, Api/Ciphertexts, Api/Artifacts, Api/Creation/Checked,
-- Api/Effects, Api/UploadEffects, Api/TaskEffects, Api/Queries, the other children of Api/Server,
-- the children of Api/FinalKeys, of Persistence/Members and of Config, and Domain/Models/Names.
-- Prelude holds the tests, the lists and the tables that all share, and the Tests modules hold the
-- runs at concrete values.
--
-- How the code is read. A transaction is a function from the database to a value with the new
-- database, or to an error, which rolls back; a statement checks the PRIMARY KEY and UNIQUE
-- constraints of its table. Requests in any order, each one transaction, stand for the processes
-- that interleave (Persistence/Requests); key_complete raises its mismatch after it commits. The run
-- of the worker names its clock readings and what the others do between its steps (Worker/Runs).
-- Each reading of the clock is an argument of its own, a whole number of a unit that the model
-- leaves open. A text that the program only compares and stores is a number (Text), one that it cuts
-- or measures is a list of characters (Message), and the JSON columns are values. New UUIDs are
-- arguments. Members is a value beside the database, since no round refers to it and only initialize
-- writes it. A request comes with its headers, its route and what runs beside it (Api/Server/Calls).
--
-- What stands for code that is not here. SHA-256 and canonical_json: the draws of the shuffle, the
-- hash of a plan and the digest of a file are functions that the definitions take. torch,
-- safetensors and the parsing of hexadecimal numbers: the record Libraries of Worker/Inputs. Base64,
-- Ed25519 and canonical JSON: the records Codec of Api/Signing and Encoding of Persistence/Members.
-- int, float and JSON parsing of the settings: the record Parsing of Config.
--
-- Fuel. `_shuffle` draws until a value is accepted; the model bounds the rejected draws by fuel, and
-- where the fuel runs out it gives the error of a plan that cannot be derived, where the code would
-- draw on. The tree loop has the number of groups as fuel, the read loops one more than the length
-- of the file: a round of the tree loop leaves fewer nodes, and a read takes a byte or more.
--
-- Not modelled: FOREIGN KEY clauses; the columns that initialize adds to a file of an older version;
-- the order in which FastAPI checks a body and the dependencies, so a body reaches its handler
-- validated; the rest of main.py, which is wiring and health probes, and the main loop of the worker;
-- _domain and tree_plan_hash of domain/topology.py, which are hashes; fsync and the loss of power.
pub mod Prelude
pub mod Domain
pub mod Config
pub mod Persistence
pub mod Storage
pub mod Worker
pub mod Api

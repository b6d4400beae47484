-- ===== src/Persistence/Members.antt =====
-- The members of the federations in database.py: `initialize` with its retries, `member_for_token`
-- and `member`. The table `members` is a value of its own, since no round refers to it.
pub mod Tables
pub mod Enrolment
pub mod Startup
mod Tests
use deki_smpc_server.Prelude.{
  ℕ, zero, suc, ◌+◌, ◌*◌, ◌^◌, Text, Message, Bool, true, false, not, ◌&&◌, ◌||◌, Option, none,
  some, List, [], ◌∷◌, ◌++◌, ltb, leb, ◌==◌, if◌then◌else◌, length, map,
}
use deki_smpc_server.Prelude.Rows.{select_one, update_where, any}

-- The role that a round asks for, and any other text.
pub data Role : Type 0 where
  participant : Role
  other_role : Text → Role

pub record MemberRow : Type 0 where
  pub federation_id : Text
  pub client_id : Text
  pub token_hash : Text
  pub signing_public_key : Text
  pub role : Role
  pub revoked : Bool

abbrev pub Members : Type 0
Members = List MemberRow

-- What the configuration says of a member. A token or a key that it lacks is the empty text.
pub record MemberConfig : Type 0 where
  pub token : Message
  pub signing_public_key : Text
  pub role : Option Role

-- One step of the two loops over the configuration.
pub record Entry : Type 0 where
  pub federation_id : Text
  pub client_id : Text
  pub config : MemberConfig

-- `federations.items()`, each with its `members.items()`.
abbrev pub Federations : Type 0
Federations = List (Text × List (Text × MemberConfig))

unfoldable pub entries : Federations → List Entry
entries [] = []
entries ((federation_id, members) ∷ rest) =
    map
      (λ (m : Text × MemberConfig). record {
        federation_id = federation_id;
        client_id = m.0;
        config = m.1;
      })
      members
    ++ entries rest

-- What ends an attempt: a `RuntimeError`, an `IntegrityError` or an `OperationalError`.
pub data InitError : Type 0 where
  key_malformed member_weak constraint_failed database_locked operational_error : InitError

-- base64.b64decode, as the length of what it gives, and SHA-256 of the UTF-8 text.
pub record Encoding : Type 0 where
  pub decoded_length : Text → Option ℕ
  pub token_digest : Message → Text

abbrev pub is_member : Text → Text → MemberRow → Bool
is_member federation client m = m.federation_id == federation && m.client_id == client

abbrev pub has_hash : Text → MemberRow → Bool
has_hash h m = m.token_hash == h

abbrev pub is_live : MemberRow → Bool
is_live m = not m.revoked

abbrev pub role_of : Option Role → Role
role_of none = participant
role_of (some r) = r

-- The row that the INSERT offers.
abbrev pub offered : Encoding → Entry → MemberRow
offered k e = record {
  federation_id = e.federation_id;
  client_id = e.client_id;
  token_hash = k.token_digest e.config.token;
  signing_public_key = e.config.signing_public_key;
  role = role_of e.config.role;
  revoked = false;
}

-- `DO UPDATE SET`: `revoked` stays.
abbrev pub overwrite : MemberRow → MemberRow → MemberRow
overwrite new old = record old {
  token_hash = new.token_hash;
  signing_public_key = new.signing_public_key;
  role = new.role;
}

pub data Step : Type 0 where
  done : Members → Step
  stopped : InitError → Step

-- `INSERT … ON CONFLICT(federation_id,client_id) DO UPDATE`; `token_hash` is unique.
unfoldable pub upsert_member : MemberRow → Members → Step
upsert_member row ms =
    let same = is_member row.federation_id row.client_id in
    if any (λ m. has_hash row.token_hash m && not (same m)) ms
    then stopped constraint_failed
    else if any same ms
    then done (update_where same (overwrite row) ms)
    else done (ms ++ row ∷ [])

-- The body of the inner loop; `fault` is what SQLite raises at the statement, if it does.
unfoldable pub enroll : Encoding → Option InitError → Entry → Members → Step
unfolding upsert_member
enroll k fault e ms = elim (k.decoded_length e.config.signing_public_key) [
  | none ↦ stopped key_malformed
  | some n ↦
      if ltb (length e.config.token) 32 || not (n == 32)
      then stopped member_weak
      else elim fault [ some x ↦ stopped x | none ↦ upsert_member (offered k e) ms ]
]

-- The loop body's end: an exception, or the next entry.
unfoldable pub proceed :
    Members → Step → (Members → Option InitError × Members) → Option InitError × Members
proceed ms (stopped x) go = (some x, ms)
proceed ms (done ms') go = go ms'

-- The loops from the entry with number `i` on. Each statement commits by itself, so what was
-- enrolled before an error stays.
unfoldable pub enroll_all :
    Encoding → (ℕ → Option InitError) → ℕ → List Entry → Members → Option InitError × Members
unfolding enroll proceed
enroll_all k faults i [] ms = (none, ms)
enroll_all k faults i (e ∷ es) ms =
    proceed ms (enroll k (faults i) e ms) (enroll_all k faults (i + 1) es)

-- `_initialize_once`; `at_schema` is what SQLite raises while the tables are made.
unfoldable pub initialize_once :
    Encoding
    → Option InitError
    → (ℕ → Option InitError)
    → Federations
    → Members
    → Option InitError × Members
unfolding enroll_all entries
initialize_once k (some x) faults federations ms = (some x, ms)
initialize_once k none faults federations ms = enroll_all k faults 0 (entries federations) ms

abbrev pub is_locked : InitError → Bool
is_locked database_locked = true
is_locked _ = false

-- `min(0.05 * 2**attempt, 1.0)`, in milliseconds.
unfoldable pub pause : ℕ → ℕ
pause attempt = if leb (50 * 2 ^ attempt) 1000 then 50 * 2 ^ attempt else 1000

-- What meets each attempt: the errors of SQLite, and what other processes do in the pause after it.
pub record Weather : Type 0 where
  pub at_schema : ℕ → Option InitError
  pub faults : ℕ → ℕ → Option InitError
  pub meanwhile : ℕ → Members → Members

-- How `initialize` ends: its error, the table, and the milliseconds that it slept.
pub record Initialized : Type 0 where
  pub error : Option InitError
  pub members : Members
  pub slept : ℕ

module _ (k : Encoding) (w : Weather) (federations : Federations) where
  unfoldable pub attempt_once : (attempt : ℕ) → Members → Option InitError × Members
  unfolding initialize_once
  attempt_once attempt ms =
      initialize_once k (w.at_schema attempt) (w.faults attempt) federations ms

  abbrev pub ended : Option InitError × Members → ℕ → Initialized
  ended (e, ms) slept = record { error = e; members = ms; slept = slept }

  -- What follows an attempt that is not the last; `again` is how the next ones end.
  unfoldable pub retry :
      Option InitError × Members → (slept : ℕ) → (again : Initialized) → Initialized
  retry (none, ms) slept again = ended (none, ms) slept
  retry (some e, ms) slept again = if is_locked e then again else ended (some e, ms) slept

  -- `for attempt in range(20)`, with the number of attempts that are left after this one.
  unfoldable pub attempts : (left attempt slept : ℕ) → Members → Initialized
  unfolding attempt_once pause retry
  attempts zero attempt slept ms = ended (attempt_once attempt ms) slept
  attempts (suc left) attempt slept ms =
      let r = attempt_once attempt ms in
      retry r slept (attempts left (attempt + 1) (slept + pause attempt) (w.meanwhile attempt r.1))

  -- `initialize`.
  unfoldable pub initialize : Members → Initialized
  unfolding attempts
  initialize ms = attempts 19 0 0 ms

-- `SELECT * FROM members WHERE federation_id=? AND client_id=?`.
unfoldable pub member_row : Text → Text → Members → Option MemberRow
member_row federation client ms = select_one (is_member federation client) ms

-- `member_for_token`.
unfoldable pub member_for_token : Encoding → Message → Members → Option MemberRow
member_for_token k token ms = select_one (λ m. has_hash (k.token_digest token) m && is_live m) ms

-- `member`.
unfoldable pub member : Text → Text → Members → Option MemberRow
member federation client ms = select_one (λ m. is_member federation client m && is_live m) ms

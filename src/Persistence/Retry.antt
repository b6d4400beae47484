-- ===== src/Persistence/Retry.antt =====
-- Idempotency in database.py: that a method which commits leaves a record of its response, under
-- which the same call is answered again. One rule for each way to build a method.
pub mod Keeping
pub mod Rules
pub mod Rounds
pub mod Keys
use deki_smpc_server.Prelude.{
  ℕ, Text, Bool, true, false, not, Option, none, some, ◌≡◌, ◌≢◌, refl, ◌==◌, ==_self, if◌then◌else◌,
  arith,
}
use deki_smpc_server.Persistence.Schema.{Db, IdempotencyRow, Operation, Response}
use deki_smpc_server.Persistence.Tx.{Tx, ok, err, idempotency_conflict, ◌>>=◌}
use deki_smpc_server.Persistence.Statements.{prior_of, answer, replay_as}

-- What a request is recorded under: the client, the round, the operation and the key.
pub record RetryKey : Type 0 where
  pub client : Text
  pub round : Text
  pub operation : Operation
  pub idem_key : Text

abbrev pub recorded_under : RetryKey → Db → Option IdempotencyRow
recorded_under k s = prior_of k.client k.round k.operation k.idem_key s

-- The database has a record under the key, of a content and the response to it.
pub record HasRecord (k : RetryKey) (digest : Text) (response : Response) (s : Db) : Type 0 where
  pub row : IdempotencyRow
  pub found : recorded_under k s ≡ some row
  pub digest_same : row.content_digest ≡ digest
  pub response_same : row.response ≡ response

-- Whenever the action commits, its response is recorded.
pub record Records {A : Type 0} (response_of : A → Response) (k : RetryKey) (digest : Text)
    (m : Tx A) : Type 0 where
  pub at : (s : Db) (a : A) (t : Db) → m s ≡ ok (a, t) → HasRecord k digest (response_of a) t

module _ {A : Type 0} (g : Response → A) (k : RetryKey) (digest : Text) {response : Response}
    {s : Db} where
  -- A call whose record is there with its content is answered from it, without an effect.
  pub replay_as_known :
      (body : Tx A)
      → HasRecord k digest response s
      → replay_as g k.client k.round k.operation k.idem_key digest body s ≡ ok (g response, s)
  unfolding replay_as answer ◌>>=◌
  replay_as_known body h = rw (h.found, h.digest_same, ==_self digest, h.response_same)

  -- A call under that key with another content is refused.
  pub replay_as_conflict :
      (other : Text) (body : Tx A)
      → other ≢ digest
      → HasRecord k digest response s
      → replay_as g k.client k.round k.operation k.idem_key other body s ≡ err idempotency_conflict
  unfolding replay_as answer ◌>>=◌
  replay_as_conflict other body ne h = rw (h.found, h.digest_same, differ) refl
    where
      differ : (digest == other) ≡ false
      differ = ground arith

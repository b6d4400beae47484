-- ===== src/Persistence/Tx.antt =====
-- `Database.transaction`: a transaction runs on the database and either commits, with a value, or
-- raises and leaves the database as it was (`rollback`). So an action returns the new database only
-- where it does not raise.
use deki_smpc_server.Prelude.{Bool, true, false, Option, none, some, List, [], ◌∷◌}
use deki_smpc_server.Domain.States.{RoundState}
use deki_smpc_server.Persistence.Schema.{Db}

-- The exceptions: the `ValueError` codes, and those of Python and SQLite that a call can meet.
pub data Error : Type 0 where
  idempotency_conflict round_conflict round_not_found not_ready : Error
  key_context_mismatch key_bundle_invalid worker_claim_lost worker_result_conflict : Error
  illegal_transition : RoundState → RoundState → Error
  lease_not_positive : Error
  -- `sqlite3.IntegrityError`: a PRIMARY KEY or UNIQUE constraint
  integrity_error : Error
  -- `TypeError`: a column of a row that is `None`
  type_error : Error
  -- a `ValueError` of topology.py
  plan_error : Error

pub data Result {ℓ} (A : Type ℓ) : Type ℓ where
  ok : A → Result A
  err : Error → Result A

abbrev pub Tx : Type 0 → Type 0
Tx A = Db → Result (A × Db)

module _ {A : Type 0} where
  pub pure : A → Tx A
  pure a s = ok (a, s)

  pub raise : Error → Tx A
  raise e s = err e

  pub gets : (Db → A) → Tx A
  gets f s = ok (f s, s)

  -- The value of a row that has to be there.
  pub or_raise : Option A → Error → Tx A
  or_raise none e s = err e
  or_raise (some a) e s = ok (a, s)

pub modify : (Db → Db) → Tx Unit
modify f s = ok (tt, f s)

pub raise_if : Bool → Error → Tx Unit
raise_if true e s = err e
raise_if false e s = ok (tt, s)

-- `if b: m`.
unfoldable pub when : Bool → Tx Unit → Tx Unit
when true m s = m s
when false m s = ok (tt, s)

module _ {A B : Type 0} where
  -- `if row: … else: …`, on the row that a query gave.
  unfoldable pub if_found : Option A → (A → Tx B) → Tx B → Tx B
  if_found none f m s = m s
  if_found (some a) f m s = f a s

  abbrev pub continue : Result (A × Db) → (A → Tx B) → Result (B × Db)
  continue (ok (a, s)) f = f a s
  continue (err e) f = err e

  infixl 10 ◌>>=◌ ◌>>◌
  -- Opening this opens the primitive actions above too.
  unfoldable pub ◌>>=◌ : Tx A → (A → Tx B) → Tx B
  unfolding pure raise gets or_raise modify raise_if when if_found
  ◌>>=◌ m f s = continue (m s) f

  abbrev pub ◌>>◌ : Tx A → Tx B → Tx B
  m >> n = m >>= λ _. n

unfoldable pub for_each : {A : Type 0} → List A → (A → Tx Unit) → Tx Unit
unfolding ◌>>=◌
for_each [] f = pure tt
for_each (x ∷ xs) f = f x >> for_each xs f

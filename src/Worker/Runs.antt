-- ===== src/Worker/Runs.antt =====
-- What the worker acts on: the store, the directory of artifacts and the clock. The API process and
-- other workers act on them too, between the worker's own steps.
use deki_smpc_server.Prelude.{
  ℕ, Text, Bool, true, false, Option, none, some, List, [], ◌∷◌, ◌≡◌, refl, inl, inr, Option-cases,
}
use deki_smpc_server.Persistence.Schema.{Db}
use deki_smpc_server.Persistence.Tx.{Tx, Result, Error, ok, err}
use deki_smpc_server.Storage.{Bytes, Disk, final}

-- `times` are the readings of the clock to come, and `others` what the other processes do before
-- each step; where a list has ended, the clock reads 0 and nobody acts.
pub record World : Type 0 where
  pub db : Db
  pub disk : Disk
  pub times : List ℕ
  pub others : List (Db × Disk → Db × Disk)

-- The errors of the worker itself: the `ValueError`s, those of the libraries that it calls, and an
-- `OSError`. An exception of the store is passed on.
pub data Failure : Type 0 where
  os_error : Failure
  submission_count_changed content_digest_changed names_do_not_match : Failure
  shape_does_not_match tag_malformed tag_outside_field no_inputs : Failure
  unreadable_tensors artifact_too_large : Failure
  store_raised : Error → Failure

-- `except (OSError, sqlite3.OperationalError)`. The store raises no `OperationalError` here.
abbrev pub is_retryable : Failure → Bool
is_retryable os_error = true
is_retryable _ = false

pub data Except {ℓ} (A : Type ℓ) : Type ℓ where
  got : A → Except A
  fails : Failure → Except A

abbrev pub Run : Type 0 → Type 0
Run A = World → Except A × World

-- What the others do before a step.
abbrev pub interfere : World → World
interfere w = elim w.others [
  | [] ↦ w
  | f ∷ fs ↦ record {
    db = (f (w.db, w.disk)).0;
    disk = (f (w.db, w.disk)).1;
    times = w.times;
    others = fs;
  }
]

module _ {A : Type 0} where
  unfoldable pub return : A → Run A
  return a w = (got a, w)

  pub fail : Failure → Run A
  fail e w = (fails e, w)

  pub from_option : Option A → Failure → Run A
  from_option none e w = (fails e, w)
  from_option (some a) e w = (got a, w)

  -- The end of a transaction: its commit, or its rollback with the exception.
  abbrev pub conclude : Result (A × Db) → World → Except A × World
  conclude (err e) w = (fails (store_raised e), w)
  conclude (ok (a, t)) w = (got a, record w { db = t })

  -- A transaction of the store.
  unfoldable pub transact : Tx A → Run A
  transact m w = conclude (m (interfere w).db) (interfere w)

-- A reading of the clock.
unfoldable pub read_clock : Run ℕ
read_clock w = elim w.times [ [] ↦ (got 0, w) | t ∷ ts ↦ (got t, record w { times = ts }) ]

pub fail_if : Bool → Failure → Run Unit
fail_if true e w = (fails e, w)
fail_if false e w = (got tt, w)

-- The bytes of an artifact; `open` raises an `OSError` where there is none.
unfoldable pub read_file : (path : Text) → Run Bytes
read_file path w = elim ((interfere w).disk (final path)) [
  | none ↦ (fails os_error, interfere w)
  | some content ↦ (got content, interfere w)
]

module _ {A B : Type 0} where
  abbrev pub and_then : Except A × World → (A → Run B) → Except B × World
  and_then (got a, w) f = f a w
  and_then (fails e, w) f = (fails e, w)

  infixl 10 ◌>>=◌ ◌>>◌
  unfoldable pub ◌>>=◌ : Run A → (A → Run B) → Run B
  unfolding return fail from_option transact read_clock fail_if read_file
  ◌>>=◌ m f w = and_then (m w) f

  abbrev pub ◌>>◌ : Run A → Run B → Run B
  m >> n = m >>= λ _. n

-- What a run that returns tells of its steps.
module _ {A B : Type 0} where
  pub bind_got :
      (m : Run A) (f : A → Run B) (b : B) (w v : World)
      → (m >>= f) w ≡ (got b, v)
      → (a : A) × (u : World) × (m w ≡ (got a, u)) × (f a u ≡ (got b, v))
  unfolding ◌>>=◌
  bind_got m f b w v h = go (m w) refl h
    where
      go :
          (r : Except A × World)
          → m w ≡ r
          → and_then r f ≡ (got b, v)
          → (a : A) × (u : World) × (m w ≡ (got a, u)) × (f a u ≡ (got b, v))
      go (got a, u) e k = (a, u, e, k)
      go (fails e, u) d k = absurd (cc)

module _ {A : Type 0} where
  pub return_got : (a b : A) (w v : World) → return a w ≡ (got b, v) → (a ≡ b) × (v ≡ w)
  unfolding return
  return_got a b w v h = (cc, cc)

  pub from_option_got :
      (o : Option A) (e : Failure) (a : A) (w v : World)
      → from_option o e w ≡ (got a, v)
      → (o ≡ some a) × (v ≡ w)
  unfolding from_option
  from_option_got none e a w v h = absurd (cc)
  from_option_got (some b) e a w v h = (cc, cc)

pub fail_if_got :
    (b : Bool) (e : Failure) (u : Unit) (w v : World)
    → fail_if b e w ≡ (got u, v)
    → (b ≡ false) × (v ≡ w)
unfolding fail_if
fail_if_got true e u w v h = absurd (cc)
fail_if_got false e u w v h = (refl, cc)

pub read_file_got :
    (path : Text) (content : Bytes) (w v : World)
    → read_file path w ≡ (got content, v)
    → ((interfere w).disk (final path) ≡ some content) × (v ≡ interfere w)
unfolding read_file
read_file_got path content w v h = elim (Option-cases ((interfere w).disk (final path))) [
  | inl missing ↦ let h = rw (missing, read_file) at h in absurd (cc)
  | inr (c, is) ↦ let h = rw (is, read_file) at h in let same : c ≡ content = cc in (rw is (cc), cc)
]

-- ===== src/Api/Files.antt =====
-- What the handlers of uploads share: the files after an upload was undone, and transactions.
use deki_smpc_server.Prelude.{◌≡◌, refl, ◌∙◌, inl, inr, Text, false, none, ◌==◌, arith, Bool-cases}
use deki_smpc_server.Persistence.Schema.{Db, StoredObject}
use deki_smpc_server.Persistence.Tx.{Error, Result, Tx, ok, err}
use deki_smpc_server.Storage.{FileName, temporary, final, file_eq, Disk, stored, delete}
use deki_smpc_server.Api.Rounds.{transaction, finished}

abbrev pub SameFiles : Disk → Disk → Type 0
SameFiles d d' = (f : FileName) → d' f ≡ d f

pub object_is : (o p : StoredObject) → stored o ≡ stored p → o ≡ p
object_is o p e = cc

pub deleted_SameFiles :
    (object_id : Text) (before disk : Disk) (path : Text)
    → path ≡ object_id
    → before (final object_id) ≡ none
    → ((f : FileName) → file_eq f (final object_id) ≡ false → disk f ≡ before f)
    → SameFiles before (delete path disk)
deleted_SameFiles object_id before disk path e free kept (temporary a) = kept (temporary a) refl
deleted_SameFiles object_id before disk path e free kept (final a) = elim (Bool-cases (a == path)) [
  | inl same ↦ let is : a ≡ object_id = ground arith in rw (same, is, free) refl
  | inr differ ↦ rw differ (kept (final a) (ground arith))
]

pub transaction_ok :
    {A : Type 0} (x : Tx A) (a : A) (s t : Db) → transaction x s ≡ (ok a, t) → x s ≡ ok (a, t)
transaction_ok {A} x a s t h = go (x s) refl h
  where
    go : (r : Result (A × Db)) → x s ≡ r → finished s r ≡ (ok a, t) → x s ≡ ok (a, t)
    go (ok (b, v)) e g = e ∙ (cc)
    go (err d) e g = absurd (cc)

pub transaction_err :
    {A : Type 0} (x : Tx A) (d : Error) (s t : Db) → transaction x s ≡ (err d, t) → x s ≡ err d
transaction_err {A} x d s t h = go (x s) refl h
  where
    go : (r : Result (A × Db)) → x s ≡ r → finished s r ≡ (err d, t) → x s ≡ err d
    go (ok (b, v)) e g = absurd (cc)
    go (err c) e g = e ∙ (cc)

-- ===== src/Persistence/Retry/Rules.antt =====
-- How an action comes to record its response: the record is made by `remember`, and what follows it
-- leaves the records alone and returns that response.
use deki_smpc_server.Prelude.{
  ℕ, Text, Bool, true, false, Option, none, some, ◌≡◌, refl, sym, ◌∙◌, arith, ◌==◌, ==_iff, ==_self,
  Bool-cases, inl, inr, same_self, if◌then◌else◌,
}
use deki_smpc_server.Prelude.Rows.{any}
use deki_smpc_server.Prelude.Rows.Laws.{select_one-append}
use deki_smpc_server.Persistence.Schema.{Db, IdempotencyRow, Operation-discrete, Response}
use deki_smpc_server.Persistence.Tx.{Tx, ok, pure, ◌>>=◌, ◌>>◌}
use deki_smpc_server.Persistence.Statements.{
  prior_of, is_record, insert_idempotency, remember, answer, replay_as,
}
use deki_smpc_server.Persistence.Ensures.{Ensures, >>=-eq-ok}
use deki_smpc_server.Persistence.Retry.{RetryKey, recorded_under, HasRecord, Records}
use deki_smpc_server.Persistence.Retry.Keeping.{
  KeepsRecords, keeping_rules, transition-keeps, commit_when_all-keeps, activate-keeps,
}

-- Whenever the action commits, the records are as before and it returns the response.
pub record Concludes {A : Type 0} (response_of : A → Response) (response : Response) (m : Tx A)
    : Type 0 where
  pub at :
      (s : Db) (a : A) (t : Db)
      → m s ≡ ok (a, t)
      → (t.idempotency ≡ s.idempotency) × (response_of a ≡ response)

module _ {A : Type 0} {p : A → Response} {response : Response} where
  pub Concludes-pure : (a : A) → p a ≡ response → Concludes p response (pure a)
  unfolding ◌>>=◌
  Concludes-pure a h = record { at = λ s b t e. same s b t e }
    where
      same :
          (s : Db) (b : A) (t : Db)
          → pure a s ≡ ok (b, t)
          → (t.idempotency ≡ s.idempotency) × (p b ≡ response)
      same s b t e = (cc, cc (h))

  pub Concludes-bind :
      {B : Type 0} (m : Tx B) (f : B → Tx A)
      → Ensures KeepsRecords m
      → ((b : B) → Concludes p response (f b))
      → Concludes p response (m >>= f)
  Concludes-bind m f h k = record {
    at = λ s a t e.
        let parts = >>=-eq-ok m f s a t e in
        let rest = (k parts.0).at parts.1 a t parts.3 in
        (rest.0 ∙ (h.at s parts.0 parts.1 parts.2).records, rest.1);
  }

is_record_self :
    (r : IdempotencyRow) → is_record r.client_id r.round_id r.operation r.idem_key r ≡ true
is_record_self r =
    rw
      (
        ==_self r.client_id,
        ==_self r.round_id,
        same_self Operation-discrete r.operation,
        ==_self r.idem_key,
      )
      refl

-- A record that was inserted is found.
inserted :
    (r : IdempotencyRow) (s t : Db) (u : Unit)
    → insert_idempotency r s ≡ ok (u, t)
    → prior_of r.client_id r.round_id r.operation r.idem_key t ≡ some r
unfolding insert_idempotency prior_of
inserted r s t u e =
    elim (Bool-cases
      (any (is_record r.client_id r.round_id r.operation r.idem_key) s.idempotency)) [
        | inl known ↦ absurd (ground arith)
        | inr fresh ↦
            let added =
              select_one-append (is_record r.client_id r.round_id r.operation r.idem_key) r
                s.idempotency fresh in
            ground (arith, added, is_record_self r)
      ]

kept :
    (k : RetryKey) (o : Option IdempotencyRow) (s t : Db)
    → t.idempotency ≡ s.idempotency
    → recorded_under k s ≡ o
    → recorded_under k t ≡ o
unfolding prior_of
kept k o s t e h = rw (e, h) refl

module _ {A : Type 0} {p : A → Response} {k : RetryKey} {digest : Text} where
  pub Records-bind :
      {B : Type 0} (m : Tx B) (f : B → Tx A)
      → ((b : B) → Records p k digest (f b))
      → Records p k digest (m >>= f)
  Records-bind m f h = record {
    at = λ s a t e. let parts = >>=-eq-ok m f s a t e in (h parts.0).at parts.1 a t parts.3;
  }

  pub Records-if :
      (b : Bool) (m n : Tx A)
      → Records p k digest m
      → Records p k digest n
      → Records p k digest (if b then m else n)
  Records-if true m n h j = h
  Records-if false m n h j = j

  -- The record, made by what follows.
  pub Records-remember :
      (response : Response) (now : ℕ) (rest : Tx A)
      → Concludes p response rest
      → Records p k digest
          (remember k.client k.round k.operation k.idem_key digest response now >> rest)
  Records-remember response now rest h = record {
    at = λ s a t e.
        let parts = >>=-eq-ok _ _ s a t e in
        let done = h.at parts.1 a t parts.3 in
        record {
          row = _;
          found = kept _ _ parts.1 t done.0 (inserted _ s parts.1 parts.0 parts.2);
          digest_same = refl;
          response_same = sym done.1;
        };
  }

  known :
      (o : Option IdempotencyRow) (s : Db) (a : A) (t : Db) (g : Response → A) (body : Tx A)
      → ((r : Response) → p (g r) ≡ r)
      → Records p k digest body
      → recorded_under k s ≡ o
      → answer g o digest body s ≡ ok (a, t)
      → HasRecord k digest (p a) t
  unfolding answer ◌>>=◌
  known none s a t g body back h found e = h.at s a t e
  known (some row) s a t g body back h found e = elim (Bool-cases (row.content_digest == digest)) [
    | inl hit ↦
        let same : pure (g row.response) s ≡ ok (a, t) = rw hit at e in
        record {
          row = row;
          found = ground (arith, found, same);
          digest_same = (==_iff row.content_digest digest).0 hit;
          response_same = ground (arith, same, back row.response);
        }
    | inr miss ↦ absurd (ground arith)
  ]

  pub Records-replay_as :
      (g : Response → A) (body : Tx A)
      → ((r : Response) → p (g r) ≡ r)
      → Records p k digest body
      → Records p k digest (replay_as g k.client k.round k.operation k.idem_key digest body)
  unfolding replay_as
  Records-replay_as g body back h = record {
    at = λ s a t e. known (recorded_under k s) s a t g body back h refl e;
  }

pub ruleset recording_rules = (
  Records-remember, Records-bind, Records-if, Records-replay_as, Concludes-pure, Concludes-bind,
  keeping_rules, transition-keeps, commit_when_all-keeps, activate-keeps,
)

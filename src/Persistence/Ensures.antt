-- ===== src/Persistence/Ensures.antt =====
-- What an action of the store does to the database whenever it commits: `Ensures R m` relates the
-- database before to the one after. One rule for each way to build an action.
use deki_smpc_server.Prelude.{
  Bool, true, false, Option, none, some, List, [], ◌∷◌, ◌≡◌, refl, if◌then◌else◌, Text,
}
use deki_smpc_server.Persistence.Schema.{Db, IdempotencyRow, Operation, Response}
use deki_smpc_server.Persistence.Tx.{
  Result, continue, Tx, Error, ok, err, pure, raise, gets, or_raise, raise_if, when, if_found,
  for_each, ◌>>=◌,
}
use deki_smpc_server.Persistence.Statements.{need, answer, replay_as}

-- Relations that hold when nothing happens and that chain.
pub record IsPreorder (R : Db → Db → Type 0) : Type 0 where
  pub same : (s : Db) → R s s
  pub chain : (s t u : Db) → R s t → R t u → R s u

pub record Ensures {A : Type 0} (R : Db → Db → Type 0) (m : Tx A) : Type 0 where
  pub at : (s : Db) (a : A) (t : Db) → m s ≡ ok (a, t) → R s t

pub Ensures-mono :
    {A : Type 0} {Q R : Db → Db → Type 0} {m : Tx A}
    → ((s t : Db) → Q s t → R s t)
    → Ensures Q m
    → Ensures R m
Ensures-mono sub h = record { at = λ s a t e. sub s t (h.at s a t e) }

stays : (R : Db → Db → Type 0) ⦃p : IsPreorder R⦄ (s t : Db) → s ≡ t → R s t
stays R ⦃p⦄ s t e = rw (← e) (p.same s)

module _ {R : Db → Db → Type 0} ⦃p : IsPreorder R⦄ {A : Type 0} where
  pub Ensures-pure : (a : A) → Ensures R (pure a)
  unfolding ◌>>=◌
  Ensures-pure a = record { at = λ s b t e. stays R s t (cc) }

  pub Ensures-raise : (e : Error) → Ensures R (raise {A = A} e)
  unfolding ◌>>=◌
  Ensures-raise x = record { at = λ s b t e. stays R s t (cc) }

  pub Ensures-gets : (f : Db → A) → Ensures R (gets f)
  unfolding ◌>>=◌
  Ensures-gets f = record { at = λ s b t e. stays R s t (cc) }

  pub Ensures-or_raise : (o : Option A) (x : Error) → Ensures R (or_raise o x)
  unfolding ◌>>=◌
  Ensures-or_raise none x = record { at = λ s b t e. stays R s t (cc) }
  Ensures-or_raise (some a) x = record { at = λ s b t e. stays R s t (cc) }

  pub Ensures-if :
      (b : Bool) (m n : Tx A)
      → (b ≡ true → Ensures R m)
      → (b ≡ false → Ensures R n)
      → Ensures R (if b then m else n)
  Ensures-if true m n hm hn = hm refl
  Ensures-if false m n hm hn = hn refl

module _ {R : Db → Db → Type 0} ⦃p : IsPreorder R⦄ where
  pub Ensures-raise_if : (b : Bool) (x : Error) → Ensures R (raise_if b x)
  unfolding ◌>>=◌
  Ensures-raise_if true x = record { at = λ s b t e. stays R s t (cc) }
  Ensures-raise_if false x = record { at = λ s b t e. stays R s t (cc) }

  pub Ensures-when : (b : Bool) (m : Tx Unit) → Ensures R m → Ensures R (when b m)
  unfolding ◌>>=◌
  Ensures-when true m h = record { at = h.at }
  Ensures-when false m h = record { at = λ s b t e. stays R s t (cc) }

-- A committed bind is two committed parts.
pub >>=-eq-ok :
    {A B : Type 0} (m : Tx A) (f : A → Tx B) (s : Db) (b : B) (t : Db)
    → (m >>= f) s ≡ ok (b, t)
    → (a : A) × (u : Db) × (m s ≡ ok (a, u)) × (f a u ≡ ok (b, t))
unfolding ◌>>=◌
>>=-eq-ok {A} {B} m f s b t e = go (m s) refl e
  where
    go :
        (r : Result (A × Db))
        → m s ≡ r
        → continue r f ≡ ok (b, t)
        → (a : A) × (u : Db) × (m s ≡ ok (a, u)) × (f a u ≡ ok (b, t))
    go (ok (a, u)) d e = (a, u, d, e)
    go (err x) d e = absurd (cc)

module _ {R : Db → Db → Type 0} ⦃p : IsPreorder R⦄ {A B : Type 0} where
  pub Ensures-bind :
      (m : Tx A) (f : A → Tx B) → Ensures R m → ((a : A) → Ensures R (f a)) → Ensures R (m >>= f)
  unfolding ◌>>=◌
  Ensures-bind m f hm hf = record { at = λ s b t e. step s b t (m s) refl e }
    where
      step :
          (s : Db) (b : B) (t : Db) (r : Result (A × Db))
          → m s ≡ r
          → continue r f ≡ ok (b, t)
          → R s t
      step s b t (ok (a, u)) d e = p.chain s u t (hm.at s a u d) ((hf a).at u b t e)
      step s b t (err x) d e = absurd (cc)

  pub Ensures-if_found :
      (o : Option A) (f : A → Tx B) (m : Tx B)
      → ((a : A) → Ensures R (f a))
      → Ensures R m
      → Ensures R (if_found o f m)
  unfolding if_found
  Ensures-if_found none f m hf hm = record { at = hm.at }
  Ensures-if_found (some a) f m hf hm = record { at = (hf a).at }

module _ {R : Db → Db → Type 0} ⦃p : IsPreorder R⦄ {A : Type 0} where
  pub Ensures-need : (q : Db → Option A) (x : Error) → Ensures R (need q x)
  unfolding need
  Ensures-need q x = Ensures-bind _ _ (Ensures-gets q) (λ o. Ensures-or_raise o x)

  pub Ensures-for_each :
      (xs : List A) (f : A → Tx Unit) → ((a : A) → Ensures R (f a)) → Ensures R (for_each xs f)
  unfolding for_each
  Ensures-for_each [] f h = Ensures-pure tt
  Ensures-for_each (x ∷ xs) f h = Ensures-bind _ _ (h x) (λ _. Ensures-for_each xs f h)

  Ensures-answer :
      (g : Response → A) (o : Option IdempotencyRow) (digest : Text) (body : Tx A)
      → Ensures R body
      → Ensures R (answer g o digest body)
  unfolding answer
  Ensures-answer g none digest body h = h
  Ensures-answer g (some row) digest body h =
      Ensures-bind _ _ (Ensures-raise_if _ _) (λ _. Ensures-pure _)

  pub Ensures-replay_as :
      (g : Response → A) (client round : Text) (op : Operation) (key digest : Text) (body : Tx A)
      → Ensures R body
      → Ensures R (replay_as g client round op key digest body)
  unfolding replay_as
  Ensures-replay_as g client round op key digest body h =
      Ensures-bind _ _ (Ensures-gets _) (λ o. Ensures-answer g o digest body h)

pub ruleset ensures_rules = (
  Ensures-pure, Ensures-raise, Ensures-gets, Ensures-or_raise, Ensures-if, Ensures-raise_if,
  Ensures-when, Ensures-bind, Ensures-if_found, Ensures-need, Ensures-for_each, Ensures-replay_as,
)

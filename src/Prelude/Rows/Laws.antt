-- ===== src/Prelude/Rows/Laws.antt =====
-- What the statements on tables do to the query for one row.
use deki_smpc_server.Prelude.{
  ◌≡◌, refl, Bool, true, false, none, some, List, [], ◌∷◌, ◌++◌, arith, if◌then◌else◌,
}
use mathlib.Core.Option
use deki_smpc_server.Prelude.Rows.{select_one, update_where, delete_where, any}

module _ {ℓ} {A : Type ℓ} where
  -- An update that no row's answer to the query depends on changes the row that is found.
  pub select_one-update :
      (q p : A → Bool) (f : A → A) (xs : List A)
      → ((x : A) → q (f x) ≡ q x)
      → select_one q (update_where p f xs)
        ≡ Option.map (λ x. if p x then f x else x) (select_one q xs)
  unfolding select_one update_where
  select_one-update q p f [] h = refl
  select_one-update q p f (x ∷ xs) h = ground (arith, h x, select_one-update q p f xs h)

  pub select_one-append :
      (q : A → Bool) (y : A) (xs : List A)
      → any q xs ≡ false
      → select_one q (xs ++ y ∷ []) ≡ (if q y then some y else none)
  unfolding select_one any
  select_one-append q y [] h = refl
  select_one-append q y (x ∷ xs) h = ground (arith, select_one-append q y xs)

  -- A new row that the query does not ask for.
  pub select_one-append_other :
      (q : A → Bool) (y : A) (xs : List A)
      → q y ≡ false
      → select_one q (xs ++ y ∷ []) ≡ select_one q xs
  unfolding select_one
  select_one-append_other q y [] h = ground arith
  select_one-append_other q y (x ∷ xs) h = ground (arith, select_one-append_other q y xs h)

  pub select_one-none : (q : A → Bool) (xs : List A) → any q xs ≡ false → select_one q xs ≡ none
  unfolding select_one any
  select_one-none q [] h = refl
  select_one-none q (x ∷ xs) h = ground (arith, select_one-none q xs)

  pub select_one-delete_self :
      (q p : A → Bool) (xs : List A)
      → ((x : A) → q x ≡ true → p x ≡ true)
      → select_one q (delete_where p xs) ≡ none
  unfolding select_one delete_where
  select_one-delete_self q p [] h = refl
  select_one-delete_self q p (x ∷ xs) h = ground (arith, h x, select_one-delete_self q p xs h)

  pub select_one-delete_ne :
      (q p : A → Bool) (xs : List A)
      → ((x : A) → q x ≡ true → p x ≡ false)
      → select_one q (delete_where p xs) ≡ select_one q xs
  unfolding select_one delete_where
  select_one-delete_ne q p [] h = refl
  select_one-delete_ne q p (x ∷ xs) h = ground (arith, h x, select_one-delete_ne q p xs h)

  -- The row that is found meets the condition.
  pub select_one_holds :
      (q : A → Bool) (x : A) (xs : List A) → select_one q xs ≡ some x → q x ≡ true
  unfolding select_one
  select_one_holds q x [] h = absurd (cc)
  select_one_holds q x (y ∷ ys) h = ground (arith, select_one_holds q x ys)

-- ===== src/Prelude/Rows/Counts.antt =====
-- Counts of rows under the statements on tables, and what a key's uniqueness gives.
use deki_smpc_server.Prelude.{
  ◌+◌, ◌≤◌, ◌≡◌, refl, Bool, true, false, some, List, [], ◌∷◌, ◌++◌, arith, if◌then◌else◌,
  Bool-cases, inl, inr,
}
use deki_smpc_server.Prelude.Rows.{select_one, count_where, update_where, delete_where, any}

module _ {ℓ} {A : Type ℓ} where
  pub count-update :
      (q p : A → Bool) (f : A → A) (xs : List A)
      → ((x : A) → q (f x) ≡ q x)
      → count_where q (update_where p f xs) ≡ count_where q xs
  unfolding count_where update_where
  count-update q p f [] h = refl
  count-update q p f (x ∷ xs) h = ground (arith, h x, count-update q p f xs h)

  pub count-append :
      (q : A → Bool) (y : A) (xs : List A)
      → count_where q (xs ++ y ∷ []) ≡ count_where q xs + (if q y then 1 else 0)
  unfolding count_where
  count-append q y [] = ground arith
  count-append q y (x ∷ xs) = ground (arith, count-append q y xs)

  pub count_none : (q : A → Bool) (xs : List A) → any q xs ≡ false → count_where q xs ≡ 0
  unfolding count_where any
  count_none q [] h = refl
  count_none q (x ∷ xs) h = ground (arith, count_none q xs)

  pub count-delete-le :
      (q p : A → Bool) (xs : List A) → count_where q (delete_where p xs) ≤ count_where q xs
  unfolding count_where delete_where
  count-delete-le q p [] = omega arith
  count-delete-le q p (x ∷ xs) = ground (arith, count-delete-le q p xs)

  pub count-le :
      (q p : A → Bool) (xs : List A)
      → ((x : A) → p x ≡ true → q x ≡ true)
      → count_where p xs ≤ count_where q xs
  unfolding count_where
  count-le q p [] h = omega arith
  count-le q p (x ∷ xs) h = ground (arith, h x, count-le q p xs h)

  -- Where a key is unique and some row of that key meets a stronger condition, the row that the
  -- key selects is the one.
  pub unique_row :
      (q p : A → Bool) (xs : List A) (r : A)
      → ((x : A) → p x ≡ true → q x ≡ true)
      → count_where q xs ≤ 1
      → count_where p xs ≡ 1
      → select_one q xs ≡ some r
      → p r ≡ true
  unfolding count_where select_one
  unique_row q p [] r h u c e = absurd (cc)
  unique_row q p (x ∷ xs) r h u c e = ground (arith, h x, count-le q p xs h, unique_row q p xs r h)

  pub selects_some :
      (q p : A → Bool) (xs : List A)
      → ((x : A) → p x ≡ true → q x ≡ true)
      → count_where p xs ≡ 1
      → (r : A) × (select_one q xs ≡ some r)
  unfolding count_where select_one
  selects_some q p [] h c = absurd (omega arith)
  selects_some q p (x ∷ xs) h c = elim (Bool-cases (q x)) [
    | inl hit ↦ (x, rw hit)
    | inr miss ↦ let tail = selects_some q p xs h (ground (arith, h x)) in (tail.0, rw miss tail.1)
  ]

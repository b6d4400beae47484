-- ===== src/Prelude/Rows/Unique.antt =====
-- Rows that are the only ones to meet a condition, and counts under an update.
use deki_smpc_server.Prelude.{
  ◌+◌, ◌≤◌, ◌≡◌, refl, inl, inr, Bool, true, not, ◌&&◌, none, some, List, [], ◌∷◌, arith,
  if◌then◌else◌, Bool-cases,
}
use deki_smpc_server.Prelude.Rows.{select_one, count_where, update_where, any}

module _ {ℓ} {A : Type ℓ} where
  pub count-update_le :
      (q p : A → Bool) (f : A → A) (xs : List A)
      → count_where q (update_where p f xs)
        ≤ count_where p xs + count_where (λ x. q x && not (p x)) xs
  unfolding count_where update_where
  count-update_le q p f [] = omega arith
  count-update_le q p f (x ∷ xs) = ground (arith, count-update_le q p f xs)

  pub count-update_shrinks :
      (q p : A → Bool) (f : A → A) (xs : List A)
      → ((x : A) → q (f x) ≡ true → q x ≡ true)
      → count_where q (update_where p f xs) ≤ count_where q xs
  unfolding count_where update_where
  count-update_shrinks q p f [] h = omega arith
  count-update_shrinks q p f (x ∷ xs) h = ground (arith, h x, count-update_shrinks q p f xs h)

  count_zero :
      (p l : A → Bool) (xs : List A) → count_where p xs ≡ 0 → select_one (λ x. p x && l x) xs ≡ none
  unfolding count_where select_one
  count_zero p l [] h = refl
  count_zero p l (x ∷ xs) h = ground (arith, count_zero p l xs)

  count_found :
      (q p : A → Bool) (r : A) (xs : List A)
      → select_one q xs ≡ some r
      → p r ≡ true
      → 1 ≤ count_where p xs
  unfolding count_where select_one
  count_found q p r [] e h = absurd (cc)
  count_found q p r (x ∷ xs) e h = ground (arith, count_found q p r xs)

  pub any_found : (q : A → Bool) (xs : List A) → any q xs ≡ true → select_one q xs ≡ none → ⊥
  unfolding any select_one
  any_found q [] h e = cc
  any_found q (x ∷ xs) h e = ground (arith, any_found q xs)

  -- A row that one query finds, under a condition that at most one row meets: a query for the
  -- condition with a further one finds this row, if it meets that too.
  pub select_one_unique :
      (q p l : A → Bool) (r : A) (xs : List A)
      → select_one q xs ≡ some r
      → p r ≡ true
      → count_where p xs ≤ 1
      → select_one (λ x. p x && l x) xs ≡ (if l r then some r else none)
  unfolding count_where select_one
  select_one_unique q p l r [] e h u = absurd (cc)
  select_one_unique q p l r (x ∷ xs) e h u = elim (Bool-cases (q x)) [
    | inl hit ↦ let is : x ≡ r = ground arith in ground (arith, count_zero p l xs)
    | inr miss ↦ ground (arith, count_found q p r xs, select_one_unique q p l r xs)
  ]

-- ===== src/Prelude/Rows/Listed.antt =====
-- The rows of a table, and queries for one of them.
use deki_smpc_server.Prelude.{
  Bool, true, List, [], ◌∷◌, ◌≡◌, refl, ◌⊎◌, inl, inr, arith, Bool-cases,
}
use deki_smpc_server.Prelude.Rows.{any}

abbrev pub Listed : {A : Type 0} → A → List A → Type 0
Listed x [] = ⊥
Listed x (y ∷ ys) = (x ≡ y) ⊎ Listed x ys

pub any-Listed :
    {A : Type 0} (p : A → Bool) (xs : List A)
    → any p xs ≡ true
    → (x : A) × Listed x xs × (p x ≡ true)
unfolding any
any-Listed p [] h = absurd (cc)
any-Listed p (x ∷ xs) h = elim (Bool-cases (p x)) [
  | inl here ↦ (x, inl refl, here)
  | inr not_here ↦
      let h = rw not_here at h in let (y, listed, is) = any-Listed p xs h in (y, inr listed, is)
]

pub Listed-any :
    {A : Type 0} (p : A → Bool) (x : A) (xs : List A) → Listed x xs → p x ≡ true → any p xs ≡ true
unfolding any
Listed-any p x [] m h = absurd m
Listed-any p x (y ∷ ys) (inl e) h = let h = rw e at h in rw h refl
Listed-any p x (y ∷ ys) (inr m) h = ground (arith, Listed-any p x ys m h)

-- ===== src/Domain/Models/Names.antt =====
-- Which names the validator of a schema accepts: those in strictly ascending order.
use deki_smpc_server.Prelude.{
  ◌≡◌, refl, sym, ◌↔◌, inl, inr, Message, true, false, List, [], ◌∷◌, arith, Bool-cases,
}
use deki_smpc_server.Prelude.Rows.{any}
use deki_smpc_server.Domain.Models.Validation.{
  TensorRequest, text_lt, text_eq, texts_eq, insert_text, sorted_texts, repeats, names_of,
  is_uploaded, accepts_entries,
}

text_eq_iff : (xs ys : Message) → (text_eq xs ys ≡ true) ↔ (xs ≡ ys)
unfolding text_eq
text_eq_iff [] [] = (λ h. refl, λ h. refl)
text_eq_iff [] (y ∷ ys) = (λ h. absurd (cc), λ h. absurd (cc))
text_eq_iff (x ∷ xs) [] = (λ h. absurd (cc), λ h. absurd (cc))
text_eq_iff (x ∷ xs) (y ∷ ys) = ground (arith, text_eq_iff xs ys)

texts_eq_iff : (xs ys : List Message) → (texts_eq xs ys ≡ true) ↔ (xs ≡ ys)
unfolding texts_eq
texts_eq_iff [] [] = (λ h. refl, λ h. refl)
texts_eq_iff [] (y ∷ ys) = (λ h. absurd (cc), λ h. absurd (cc))
texts_eq_iff (x ∷ xs) [] = (λ h. absurd (cc), λ h. absurd (cc))
texts_eq_iff (x ∷ xs) (y ∷ ys) = ground (arith, text_eq_iff x y, texts_eq_iff xs ys)

text_lt_irrefl : (xs : Message) → text_lt xs xs ≡ false
unfolding text_lt
text_lt_irrefl [] = refl
text_lt_irrefl (x ∷ xs) = ground (arith, text_lt_irrefl xs)

text_lt_trans :
    (xs ys zs : Message) → text_lt xs ys ≡ true → text_lt ys zs ≡ true → text_lt xs zs ≡ true
unfolding text_lt
text_lt_trans xs ys [] h g = absurd (cc)
text_lt_trans xs [] (z ∷ zs) h g = absurd (cc)
text_lt_trans [] (y ∷ ys) (z ∷ zs) h g = refl
text_lt_trans (x ∷ xs) (y ∷ ys) (z ∷ zs) h g = ground (arith, text_lt_trans xs ys zs)

text_trichotomy :
    (xs ys : Message) → text_lt xs ys ≡ false → text_lt ys xs ≡ false → text_eq xs ys ≡ true
unfolding text_lt text_eq
text_trichotomy [] [] h g = refl
text_trichotomy [] (y ∷ ys) h g = absurd (cc)
text_trichotomy (x ∷ xs) [] h g = absurd (cc)
text_trichotomy (x ∷ xs) (y ∷ ys) h g = ground (arith, text_trichotomy xs ys)

-- Every text of the list is above a given one; the list ascends strictly.
abbrev pub IsBelowAll : Message → List Message → Type 0
IsBelowAll x [] = Unit
IsBelowAll x (y ∷ ys) = (text_lt x y ≡ true) × IsBelowAll x ys

abbrev pub Ascends : List Message → Type 0
Ascends [] = Unit
Ascends (x ∷ xs) = IsBelowAll x xs × Ascends xs

-- The same without strictness.
abbrev NoneBelow : Message → List Message → Type 0
NoneBelow x [] = Unit
NoneBelow x (y ∷ ys) = (text_lt y x ≡ false) × NoneBelow x ys

abbrev IsSorted : List Message → Type 0
IsSorted [] = Unit
IsSorted (x ∷ xs) = NoneBelow x xs × IsSorted xs

text_lt_asym : (x y : Message) → text_lt x y ≡ true → text_lt y x ≡ false
text_lt_asym x y h = elim (Bool-cases (text_lt y x)) [
  | inr no_ ↦ no_
  | inl back ↦ let loop = text_lt_trans x y x h back in let here = text_lt_irrefl x in absurd (cc)
]

not_below : (x y z : Message) → text_lt y x ≡ false → text_lt z y ≡ false → text_lt z x ≡ false
not_below x y z h g = elim (Bool-cases (text_lt y z)) [
  | inr same ↦ let e = (text_eq_iff y z).0 (text_trichotomy y z same g) in rw (← e) h
  | inl above ↦ elim (Bool-cases (text_lt z x)) [
    | inr is ↦ is
    | inl under ↦ let through = text_lt_trans y z x above under in absurd (cc)
  ]
]

NoneBelow-trans :
    (x y : Message) (ys : List Message) → text_lt y x ≡ false → NoneBelow y ys → NoneBelow x ys
NoneBelow-trans x y [] h g = tt
NoneBelow-trans x y (z ∷ zs) h (g, rest) = (not_below x y z h g, NoneBelow-trans x y zs h rest)

NoneBelow-insert :
    (w x : Message) (ys : List Message)
    → text_lt x w ≡ false
    → NoneBelow w ys
    → NoneBelow w (insert_text x ys)
unfolding insert_text
NoneBelow-insert w x [] h g = (h, tt)
NoneBelow-insert w x (y ∷ ys) h (g, rest) = elim (Bool-cases (text_lt y x)) [
  | inl below ↦ rw below (g, NoneBelow-insert w x ys h rest)
  | inr above ↦ rw above (h, (g, rest))
]

insert-IsSorted : (x : Message) (ys : List Message) → IsSorted ys → IsSorted (insert_text x ys)
unfolding insert_text
insert-IsSorted x [] h = (tt, tt)
insert-IsSorted x (y ∷ ys) (least, h) = elim (Bool-cases (text_lt y x)) [
  | inl below ↦
      rw below (NoneBelow-insert y x ys (text_lt_asym y x below) least, insert-IsSorted x ys h)
  | inr above ↦ rw above ((above, NoneBelow-trans x y ys above least), (least, h))
]

sorted_texts-IsSorted : (xs : List Message) → IsSorted (sorted_texts xs)
unfolding sorted_texts
sorted_texts-IsSorted [] = tt
sorted_texts-IsSorted (x ∷ xs) = insert-IsSorted x (sorted_texts xs) (sorted_texts-IsSorted xs)

strictly :
    (x : Message) (xs : List Message)
    → NoneBelow x xs
    → any (text_eq x) xs ≡ false
    → IsBelowAll x xs
unfolding any
strictly x [] h n = tt
strictly x (y ∷ ys) (h, rest) n = (
  elim (Bool-cases (text_lt x y)) [
    | inl below ↦ below
    | inr above ↦ let e = text_trichotomy x y above h in absurd (ground arith)
  ],
  strictly x ys rest (ground arith),
)

IsSorted-Ascends : (xs : List Message) → IsSorted xs → repeats xs ≡ false → Ascends xs
unfolding repeats
IsSorted-Ascends [] h n = tt
IsSorted-Ascends (x ∷ xs) (least, h) n =
    (strictly x xs least (ground arith), IsSorted-Ascends xs h (ground arith))

below_differs : (x : Message) (xs : List Message) → IsBelowAll x xs → any (text_eq x) xs ≡ false
unfolding any
below_differs x [] h = refl
below_differs x (y ∷ ys) (h, rest) = elim (Bool-cases (text_eq x y)) [
  | inr other ↦ rw other (below_differs x ys rest)
  | inl same ↦
      let e = (text_eq_iff x y).0 same in
      let loop = rw (← e) at h in let here = text_lt_irrefl x in absurd (cc)
]

insert_least : (x : Message) (xs : List Message) → IsBelowAll x xs → insert_text x xs ≡ x ∷ xs
unfolding insert_text
insert_least x [] h = refl
insert_least x (y ∷ ys) (h, rest) = rw (text_lt_asym x y h) refl

Ascends-sorted_texts :
    (xs : List Message) → Ascends xs → (sorted_texts xs ≡ xs) × (repeats xs ≡ false)
unfolding sorted_texts repeats
Ascends-sorted_texts [] h = (refl, refl)
Ascends-sorted_texts (x ∷ xs) (least, h) =
    let (same, once) = Ascends-sorted_texts xs h in
    (rw same (insert_least x xs least), rw (below_differs x xs least, once) refl)

-- The entries of a schema are accepted exactly where their names ascend strictly in the order of
-- code points and one of them at least is uploaded.
pub accepts_entries_iff :
    (entries : List TensorRequest)
    → (accepts_entries entries ≡ true)
      ↔ (Ascends (names_of entries) × (any (λ e. is_uploaded e.policy) entries ≡ true))
unfolding accepts_entries
accepts_entries_iff entries = (accepted, refused)
  where
    accepted :
        accepts_entries entries ≡ true
        → Ascends (names_of entries) × (any (λ e. is_uploaded e.policy) entries ≡ true)
    accepted h =
        let names = names_of entries in
        let same : texts_eq names (sorted_texts names) ≡ true = ground arith in
        let once : repeats names ≡ false = ground arith in
        let is = (texts_eq_iff names (sorted_texts names)).0 same in
        (IsSorted-Ascends names (rw is (sorted_texts-IsSorted names)) once, ground arith)

    refused :
        Ascends (names_of entries) × (any (λ e. is_uploaded e.policy) entries ≡ true)
        → accepts_entries entries ≡ true
    refused (h, up) =
        let names = names_of entries in
        let (same, once) = Ascends-sorted_texts names h in
        let is = (texts_eq_iff names (sorted_texts names)).1 (sym same) in rw (is, once, up) refl

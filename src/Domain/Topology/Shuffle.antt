-- ===== src/Domain/Topology/Shuffle.antt =====
-- `_shuffle` of topology.py: the Fisher-Yates loop on the sorted participants.
use deki_smpc_server.Prelude.{
  ℕ, zero, suc, ◌+◌, ◌-◌, ◌%◌, ◌≤◌, ◌<◌, ◌≡◌, refl, ◌∙◌, Text, Option, none, some, List, [], ◌∷◌,
  arith, ◌==◌, ltb, inl, inr, Bool-cases, if◌then◌else◌, length, set, get_or,
}
use deki_smpc_server.Prelude.Rows.{count_where}
use deki_smpc_server.Domain.Topology.{
  insert_sorted, sorted, swap, draw_below, cutoff_of, shuffle_from, shuffle,
}

-- How often a participant stands in a list.
abbrev pub occurrences : Text → List Text → ℕ
occurrences a xs = count_where (λ x. x == a) xs

-- Some of any `fuel` successive draws lies below the cutoff of a modulus.
abbrev pub Settles : (ℕ → ℕ) → ℕ → ℕ → Type 0
Settles draw fuel modulus =
    (counter : ℕ) → (k : ℕ) × (k < fuel) × (draw (counter + k) < cutoff_of modulus)

occurrences-insert :
    (a x : Text) (xs : List Text)
    → occurrences a (insert_sorted x xs) ≡ (if x == a then 1 else 0) + occurrences a xs
unfolding insert_sorted count_where
occurrences-insert a x [] = ground arith
occurrences-insert a x (y ∷ ys) = ground (arith, occurrences-insert a x ys)

occurrences-sorted : (a : Text) (xs : List Text) → occurrences a (sorted xs) ≡ occurrences a xs
unfolding sorted count_where
occurrences-sorted a [] = refl
occurrences-sorted a (x ∷ xs) =
    ground (arith, occurrences-insert a x (sorted xs), occurrences-sorted a xs)

length-insert : (x : Text) (xs : List Text) → length (insert_sorted x xs) ≡ suc (length xs)
unfolding insert_sorted
length-insert x [] = refl
length-insert x (y ∷ ys) = ground (arith, length-insert x ys)

length-sorted : (xs : List Text) → length (sorted xs) ≡ length xs
unfolding sorted
length-sorted [] = refl
length-sorted (x ∷ xs) = omega (arith, length-insert x (sorted xs), length-sorted xs)

occurrences-set :
    (a v : Text) (i : ℕ) (xs : List Text)
    → i < length xs
    → occurrences a (set xs i v) + (if get_or xs i 0 == a then 1 else 0)
      ≡ occurrences a xs + (if v == a then 1 else 0)
unfolding count_where
occurrences-set a v i [] h = absurd (omega arith)
occurrences-set a v zero (x ∷ xs) h = ground arith
occurrences-set a v (suc i) (x ∷ xs) h = ground (arith, occurrences-set a v i xs (omega arith))

length-set : (v : Text) (i : ℕ) (xs : List Text) → length (set xs i v) ≡ length xs
length-set v i [] = refl
length-set v zero (x ∷ xs) = refl
length-set v (suc i) (x ∷ xs) = omega (arith, length-set v i xs)

-- Writing the value at `j` to `i` leaves the value at `j`.
get_or-set : (i j : ℕ) (xs : List Text) → get_or (set xs i (get_or xs j 0)) j 0 ≡ get_or xs j 0
get_or-set i j [] = refl
get_or-set zero zero (x ∷ xs) = refl
get_or-set zero (suc j) (x ∷ xs) = refl
get_or-set (suc i) zero (x ∷ xs) = refl
get_or-set (suc i) (suc j) (x ∷ xs) = get_or-set i j xs

length-swap : (i j : ℕ) (xs : List Text) → length (swap i j xs) ≡ length xs
unfolding swap
length-swap i j xs =
    length-set (get_or xs i 0) j (set xs i (get_or xs j 0)) ∙ length-set (get_or xs j 0) i xs

occurrences-swap :
    (a : Text) (i j : ℕ) (xs : List Text)
    → i < length xs
    → j < length xs
    → occurrences a (swap i j xs) ≡ occurrences a xs
unfolding swap
occurrences-swap a i j xs hi hj =
    let second =
      occurrences-set a (get_or xs i 0) j (set xs i (get_or xs j 0))
        (omega (arith, length-set (get_or xs j 0) i xs)) in
    let first = occurrences-set a (get_or xs j 0) i xs hi in
    let kept = get_or-set i j xs in omega (arith, first, rw kept at second)

shuffle_from-occurrences :
    (draw : ℕ → ℕ) (fuel upper counter : ℕ) (a : Text) (xs ys : List Text)
    → upper < length xs
    → shuffle_from draw fuel upper counter xs ≡ some ys
    → occurrences a ys ≡ occurrences a xs
unfolding shuffle_from
shuffle_from-occurrences draw fuel zero counter a xs ys h e = ground arith
shuffle_from-occurrences draw fuel (suc upper) counter a xs ys h e =
    go (λ next zs. shuffle_from-occurrences draw fuel upper next a zs ys)
      (draw_below draw fuel (cutoff_of (suc upper + 1)) counter) e
  where
    go :
        ((next : ℕ) (zs : List Text)
          → upper < length zs
          → shuffle_from draw fuel upper next zs ≡ some ys
          → occurrences a ys ≡ occurrences a zs)
        → (o : Option (ℕ × ℕ))
        → elim o [
          | none ↦ none
          | some (value, next) ↦
              shuffle_from draw fuel upper next (swap (suc upper) (value % (suc upper + 1)) xs)
        ]
          ≡ some ys
        → occurrences a ys ≡ occurrences a xs
    go rest none e = absurd (cc)
    go rest (some (value, next)) e =
        let j = value % (suc upper + 1) in
        rest next (swap (suc upper) j xs) (omega (arith, length-swap (suc upper) j xs)) e
        ∙ occurrences-swap a (suc upper) j xs h (omega arith)

-- A shuffle that returns gives a rearrangement of the participants: each stands in it as often as
-- among them.
pub shuffle-occurrences :
    (draw : ℕ → ℕ) (fuel : ℕ) (participants shuffled : List Text)
    → shuffle draw fuel participants ≡ some shuffled
    → (a : Text) → occurrences a shuffled ≡ occurrences a participants
unfolding shuffle
shuffle-occurrences draw fuel [] shuffled e a = ground arith
shuffle-occurrences draw fuel (p ∷ ps) shuffled e a =
    shuffle_from-occurrences draw fuel (length (p ∷ ps) - 1) 0 a (sorted (p ∷ ps)) shuffled
      (omega (arith, length-sorted (p ∷ ps))) e
    ∙ occurrences-sorted a (p ∷ ps)

shuffle_from-length :
    (draw : ℕ → ℕ) (fuel upper counter : ℕ) (xs ys : List Text)
    → shuffle_from draw fuel upper counter xs ≡ some ys
    → length ys ≡ length xs
unfolding shuffle_from
shuffle_from-length draw fuel zero counter xs ys e = ground arith
shuffle_from-length draw fuel (suc upper) counter xs ys e =
    go (λ next zs. shuffle_from-length draw fuel upper next zs ys)
      (draw_below draw fuel (cutoff_of (suc upper + 1)) counter) e
  where
    go :
        ((next : ℕ) (zs : List Text)
          → shuffle_from draw fuel upper next zs ≡ some ys
          → length ys ≡ length zs)
        → (o : Option (ℕ × ℕ))
        → elim o [
          | none ↦ none
          | some (value, next) ↦
              shuffle_from draw fuel upper next (swap (suc upper) (value % (suc upper + 1)) xs)
        ]
          ≡ some ys
        → length ys ≡ length xs
    go rest none e = absurd (cc)
    go rest (some (value, next)) e =
        rest next _ e ∙ length-swap (suc upper) (value % (suc upper + 1)) xs

pub shuffle-length :
    (draw : ℕ → ℕ) (fuel : ℕ) (participants shuffled : List Text)
    → shuffle draw fuel participants ≡ some shuffled
    → length shuffled ≡ length participants
unfolding shuffle
shuffle-length draw fuel ps shuffled e =
    shuffle_from-length draw fuel (length ps - 1) 0 (sorted ps) shuffled e ∙ length-sorted ps

-- Draws enough for an accepted one end the inner loop.
draw_below_total :
    (draw : ℕ → ℕ) (fuel cutoff counter k : ℕ)
    → k < fuel
    → draw (counter + k) < cutoff
    → (r : ℕ × ℕ) × (draw_below draw fuel cutoff counter ≡ some r)
unfolding draw_below
draw_below_total draw zero cutoff counter k h d = absurd (omega arith)
draw_below_total draw (suc fuel) cutoff counter zero h d =
    let e : counter + 0 ≡ counter = omega arith in
    let d' : draw counter < cutoff = rw e at d in ((draw counter, counter + 1), ground arith)
draw_below_total draw (suc fuel) cutoff counter (suc k) h d =
    let e : counter + suc k ≡ counter + 1 + k = omega arith in
    let again = draw_below_total draw fuel cutoff (counter + 1) k (omega arith) (rw e at d) in
    elim (Bool-cases (ltb (draw counter) cutoff)) [
      | inl hit ↦ ((draw counter, counter + 1), rw hit)
      | inr miss ↦ rw miss again
    ]

shuffle_from_total :
    (draw : ℕ → ℕ) (fuel upper counter : ℕ) (xs : List Text)
    → ((modulus : ℕ) → modulus ≤ upper + 1 → 0 < modulus → Settles draw fuel modulus)
    → (ys : List Text) × (shuffle_from draw fuel upper counter xs ≡ some ys)
unfolding shuffle_from
shuffle_from_total draw fuel zero counter xs settles = (xs, refl)
shuffle_from_total draw fuel (suc upper) counter xs settles =
    let (k, h, d) = settles (suc upper + 1) (omega arith) (omega arith) counter in
    let ((value, next), e) = draw_below_total draw fuel (cutoff_of (suc upper + 1)) counter k h d in
    rw (e, shuffle_from)
      (shuffle_from_total draw fuel upper next (swap (suc upper) (value % (suc upper + 1)) xs)
        (λ m le pos. settles m (omega arith) pos))

-- Where some of any `fuel` successive draws lies below the cutoff of each modulus in use, the
-- shuffle returns.
pub shuffle_total :
    (draw : ℕ → ℕ) (fuel : ℕ) (participants : List Text)
    → ((modulus : ℕ) → modulus ≤ length participants → 0 < modulus → Settles draw fuel modulus)
    → (shuffled : List Text) × (shuffle draw fuel participants ≡ some shuffled)
unfolding shuffle
shuffle_total draw fuel [] settles = ([], refl)
shuffle_total draw fuel (p ∷ ps) settles =
    shuffle_from_total draw fuel (length (p ∷ ps) - 1) 0 (sorted (p ∷ ps))
      (λ m le pos. settles m (omega arith) pos)

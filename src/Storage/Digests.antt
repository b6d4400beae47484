-- ===== src/Storage/Digests.antt =====
-- What the loops of `_file_digest` and `_ciphertext_digest` hash, as a function of the whole file.
use deki_smpc_server.Prelude.{
  ℕ, zero, suc, ◌+◌, ◌-◌, ◌≤◌, ◌<◌, ◌≡◌, refl, sym, ap, ◌∙◌, ◌⊎◌, inl, inr, Text, none, some, [],
  ◌∷◌, ◌++◌, arith, ltb, if◌then◌else◌, length, take, drop, Bool-cases, length-append, take-drop,
  length-drop,
}
use mathlib.Core.List.{append-nil, append_assoc}
use deki_smpc_server.Storage.{Bytes}
use deki_smpc_server.Storage.Reading.{block, read_loop, Scan, scan, file_digest, ciphertext_digest}

length-drop_le : (n : ℕ) (xs : Bytes) → length (drop n xs) ≤ length xs
length-drop_le zero xs = omega arith
length-drop_le (suc n) [] = omega arith
length-drop_le (suc n) (x ∷ xs) = omega (arith, length-drop_le n xs)

take-append : (n : ℕ) (xs ys : Bytes) → n ≡ length xs → take n (xs ++ ys) ≡ xs
take-append zero [] ys e = refl
take-append zero (x ∷ xs) ys e = absurd (omega arith)
take-append (suc n) [] ys e = absurd (omega arith)
take-append (suc n) (x ∷ xs) ys e = ap (λ zs. x ∷ zs) (take-append n xs ys (omega arith))

-- Two divisions of the same bytes with ends of the same length begin alike.
same_start : (xs ys zs ws : Bytes) → xs ++ ys ≡ zs ++ ws → length ys ≡ length ws → xs ≡ zs
same_start xs ys zs ws e n =
    let total = ap (λ bs. length bs) e in
    sym (take-append (length xs) xs ys refl)
    ∙ ap (λ bs. take (length xs) bs) e
    ∙ take-append (length xs) zs ws
        (omega (arith, total, n, length-append xs ys, length-append zs ws))

-- An invariant of the body of a read loop, of what has been read, holds at its end of the file.
read_loop-ends {ℓ} :
    {S : Type ℓ} (step : S → Bytes → S) (Inv : Bytes → S → Type 0)
    → ((s : S) (done chunk : Bytes) → Inv done s → Inv (done ++ chunk) (step s chunk))
    → (fuel : ℕ) (done rest : Bytes) (s : S) → length rest < fuel
    → Inv done s
    → (t : S) × (read_loop step fuel rest s ≡ some t) × Inv (done ++ rest) t
unfolding read_loop
read_loop-ends step Inv keeps zero done rest s h inv = absurd (omega arith)
read_loop-ends step Inv keeps (suc fuel) done [] s h inv = (s, refl, rw (append-nil done) inv)
read_loop-ends step Inv keeps (suc fuel) done (b ∷ rest) s h inv =
    let chunk = take block (b ∷ rest) in
    let (t, e, inv) =
      read_loop-ends step Inv keeps fuel (done ++ chunk) (drop block (b ∷ rest)) (step s chunk)
        (omega (arith, length-drop_le 1048575 rest)) (keeps s done chunk inv) in
    let whole : done ++ (b ∷ rest) ≡ (done ++ chunk) ++ drop block (b ∷ rest) = sym (
      append_assoc done chunk (drop block (b ∷ rest))
      ∙ ap (λ bs. done ++ bs) (take-drop block (b ∷ rest))) in
    (t, e, rw whole inv)

-- The hash has been fed the nonce and all but the bytes held back, which are the last 16, or all
-- where there are not as many.
abbrev IsScanned : Bytes → Bytes → Scan → Type 0
IsScanned nonce done s =
    (s.fed ++ s.trailing ≡ nonce ++ done)
    × (s.size ≡ length done)
    × (((length s.trailing ≡ 16) × (16 ≤ length done))
        ⊎ ((length s.trailing ≡ length done) × (length done ≤ 16)))

scan-IsScanned :
    (nonce : Bytes) (s : Scan) (done chunk : Bytes)
    → IsScanned nonce done s
    → IsScanned nonce (done ++ chunk) (scan s chunk)
unfolding scan
scan-IsScanned nonce s done chunk (same, sized, held) =
    let combined = s.trailing ++ chunk in
    let n = length-append s.trailing chunk in
    let m = length-append done chunk in
    let whole : s.fed ++ combined ≡ nonce ++ (done ++ chunk) =
      sym (append_assoc s.fed s.trailing chunk)
      ∙ ap (λ bs. bs ++ chunk) same
      ∙ append_assoc nonce done chunk in
    elim (Bool-cases (ltb 16 (length combined))) [
      | inl more ↦
          let k = length combined - 16 in
          let parts =
            append_assoc s.fed (take k combined) (drop k combined)
            ∙ ap (λ bs. s.fed ++ bs) (take-drop k combined) in
          let left : k + length (drop k combined) ≡ length combined =
            length-drop k combined (omega arith) in
          rw more (
            parts ∙ whole,
            omega (arith, m),
            elim held [
              | inl (a, b) ↦ inl (ground (arith, left), omega (arith, m))
              | inr (a, b) ↦ inl (ground (arith, left), ground (arith, m, n))
            ],
          )
      | inr few ↦ rw few (
        whole,
        omega (arith, m),
        elim held [
          | inl (a, b) ↦ inl (ground (arith, n), omega (arith, m))
          | inr (a, b) ↦ inr (omega (arith, n, m), ground (arith, n, m))
        ],
      )
    ]

scanned_start :
    (nonce file : Bytes) (s : Scan)
    → IsScanned nonce file s
    → 16 ≤ length file
    → s.fed ≡ nonce ++ take (length file - 16) file
scanned_start nonce file s (whole, sized, held) long =
    let k = length file - 16 in
    let left : k + length (drop k file) ≡ length file = length-drop k file (omega arith) in
    same_start s.fed s.trailing (nonce ++ take k file) (drop k file)
      (whole
        ∙ sym (
            append_assoc nonce (take k file) (drop k file)
            ∙ ap (λ bs. nonce ++ bs) (take-drop k file)))
      (elim held [ inl (a, b) ↦ ground (arith, left) | inr (a, b) ↦ ground (arith, left) ])

-- `_file_digest` is the digest of the whole file, and `_ciphertext_digest` that of the nonce and of
-- all but the last 16 bytes, the authentication tag; a file that is shorter is refused.
pub ciphertext_digest_lem :
    (sha256 : Bytes → Text) (file nonce : Bytes)
    → (file_digest sha256 file ≡ some (sha256 file))
      × (ciphertext_digest sha256 file nonce ≡ (
          if ltb (length file) 16
          then none
          else some (sha256 (nonce ++ take (length file - 16) file))))
unfolding file_digest ciphertext_digest
ciphertext_digest_lem sha256 file nonce =
    let (fed, e, same) =
      read_loop-ends (λ fed chunk. fed ++ chunk) (λ done fed. fed ≡ done)
        (λ fed done chunk h. ap (λ bs. bs ++ chunk) h) (length file + 1) [] file [] (omega arith)
        refl in
    let (s, f, (whole, sized, held)) =
      read_loop-ends scan (IsScanned nonce) (scan-IsScanned nonce) (length file + 1) [] file
        (record { fed = nonce; trailing = []; size = 0 }) (omega arith)
        (refl, refl, inr (refl, omega arith)) in
    (
      rw (e, same, file_digest) refl,
      rw (f, sized, ciphertext_digest)
          (elim (Bool-cases (ltb (length file) 16)) [
            | inl short ↦ rw short refl
            | inr long ↦
                rw (long, scanned_start nonce file s (whole, sized, held) (ground arith)) refl
          ]),
    )

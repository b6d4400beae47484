-- ===== src/Storage/Reading.antt =====
-- The loops over a stored file in key-aggregation-server/app/api/v1.py and worker/aggregation.py:
-- `_file_digest`, which is `_file_sha256` of the worker too, and `_ciphertext_digest`.
use deki_smpc_server.Prelude.{
  ℕ, zero, suc, ◌+◌, ◌-◌, Text, Option, none, some, [], ◌∷◌, ◌++◌, ltb, if◌then◌else◌, length, take,
  drop,
}
use deki_smpc_server.Storage.{Bytes}

-- `artifact.read(1024 * 1024)`.
abbrev pub block : ℕ
block = 1048576

-- `while chunk := artifact.read(…)`, with the body of the loop on its state. `none` means that the
-- fuel ran out.
unfoldable pub read_loop {ℓ} : {S : Type ℓ} → (S → Bytes → S) → (fuel : ℕ) → Bytes → S → Option S
read_loop step zero rest s = none
read_loop step (suc fuel) [] s = some s
read_loop step (suc fuel) (b ∷ rest) s =
    read_loop step fuel (drop block (b ∷ rest)) (step s (take block (b ∷ rest)))

-- What the hash has been fed, the last bytes held back, and the number of bytes read.
pub record Scan : Type 0 where
  pub fed : Bytes
  pub trailing : Bytes
  pub size : ℕ

-- The body of the loop of `_ciphertext_digest`.
unfoldable pub scan : Scan → Bytes → Scan
scan s chunk =
    let combined = s.trailing ++ chunk in
    let size = s.size + length chunk in
    if ltb 16 (length combined)
    then record {
      fed = s.fed ++ take (length combined - 16) combined;
      trailing = drop (length combined - 16) combined;
      size = size;
    }
    else record { fed = s.fed; trailing = combined; size = size }

module _ (sha256 : Bytes → Text) where
  -- `_file_digest`, `_file_sha256`, on the bytes of the file.
  unfoldable pub file_digest : Bytes → Option Text
  unfolding read_loop
  file_digest file = elim (read_loop (λ fed chunk. fed ++ chunk) (length file + 1) file []) [
    | none ↦ none
    | some fed ↦ some (sha256 fed)
  ]

  -- `_ciphertext_digest`; `none` is its `ValueError`, or that the fuel ran out.
  unfoldable pub ciphertext_digest : (file nonce : Bytes) → Option Text
  unfolding read_loop scan
  ciphertext_digest file nonce =
      elim (read_loop scan (length file + 1) file
        (record { fed = nonce; trailing = []; size = 0 })) [
          | none ↦ none
          | some s ↦ if ltb s.size 16 then none else some (sha256 s.fed)
        ]

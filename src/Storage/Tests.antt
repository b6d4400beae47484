-- ===== src/Storage/Tests.antt =====
-- The store's theorems on small files.
use deki_smpc_server.Prelude.{
  ◌+◌, ◌-◌, ◌≡◌, refl, Text, none, some, [], ◌∷◌, ◌++◌, ltb, if◌then◌else◌, length, take,
}
use deki_smpc_server.Storage.{Bytes, Disk, Stream, chunk, ended, put_stream}
use deki_smpc_server.Storage.Atomic.{IsAtomic, put_stream-IsAtomic}
use deki_smpc_server.Storage.Reading.{file_digest, ciphertext_digest}
use deki_smpc_server.Storage.Digests.{ciphertext_digest_lem}

-- A checksum, for the hash.
abbrev checksum : Bytes → Text
checksum [] = 0
checksum (b ∷ bs) = b + checksum bs

abbrev empty_disk : Disk
empty_disk f = none

abbrev two_chunks : Stream
two_chunks = chunk (1 ∷ 2 ∷ []) (chunk (3 ∷ []) ended)

abbrev eighteen_bytes : Bytes
eighteen_bytes = 1 ∷ 2 ∷ 3 ∷ 4 ∷ 5 ∷ 6 ∷ 7 ∷ 8 ∷ 9 ∷ 10 ∷ 11 ∷ 12 ∷ 13 ∷ 14 ∷ 15 ∷ 16 ∷ 17 ∷ 18 ∷ []

put_stream-IsAtomic_example :
    IsAtomic checksum 8 5 two_chunks empty_disk (put_stream checksum 8 5 two_chunks empty_disk)
put_stream-IsAtomic_example = put_stream-IsAtomic checksum 8 5 two_chunks empty_disk refl

ciphertext_digest_lem_example :
    (file_digest checksum eighteen_bytes ≡ some (checksum eighteen_bytes))
    × (ciphertext_digest checksum eighteen_bytes (100 ∷ []) ≡ (
        if ltb (length eighteen_bytes) 16
        then none
        else some (checksum ((100 ∷ []) ++ take (length eighteen_bytes - 16) eighteen_bytes))))
ciphertext_digest_lem_example = ciphertext_digest_lem checksum eighteen_bytes (100 ∷ [])

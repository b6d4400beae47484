-- ===== src/Storage/Atomic.antt =====
-- `put_stream` of storage/filesystem.py, against what the request body holds as a whole.
use deki_smpc_server.Prelude.{
  ℕ, ◌+◌, ◌≤◌, ◌≡◌, refl, sym, ap, ◌⊎◌, inl, inr, Text, false, Option, none, some, [], ◌++◌, arith,
  ltb, length, length-append, ◌==◌, ==_self, Bool-cases, Option-cases,
}
use mathlib.Core.List.{append-nil, append_assoc}
use deki_smpc_server.Storage.{
  Bytes, FileName, temporary, final, file_eq, Disk, Stream, ended, broken, chunk, finished, raised,
  write_chunks, nothing_written, Stored, StoreError, too_large, stored, rejected, settle,
  put_stream, unlink,
}

-- The whole of a body, if it ends.
abbrev pub content_of : Stream → Option Bytes
content_of ended = some []
content_of broken = none
content_of (chunk c rest) = elim (content_of rest) [ none ↦ none | some cs ↦ some (c ++ cs) ]

-- The body ends within the limit, where some bytes have come already.
abbrev pub Fits : ℕ → ℕ → Stream → Bytes → Type 0
Fits max_bytes before chunks content =
    (content_of chunks ≡ some content) × (before + length content ≤ max_bytes)

rest-Fits :
    (max_bytes n : ℕ) (c : Bytes) (rest : Stream) (content : Bytes)
    → Fits max_bytes n (chunk c rest) content
    → (cs : Bytes) × Fits max_bytes (n + length c) rest cs
rest-Fits max_bytes n c rest content (e, le) = elim (Option-cases (content_of rest)) [
  | inl missing ↦ let e = rw missing at e in absurd (cc)
  | inr (cs, f) ↦
      let e = rw f at e in
      let whole : c ++ cs ≡ content = cc in
      (cs, (f, omega (arith, ap (λ x. length x) whole, length-append c cs)))
]

write_chunks-cases :
    (max_bytes : ℕ) (chunks : Stream) (out : Bytes) (n : ℕ)
    → n ≤ max_bytes
    → ((content : Bytes) × Fits max_bytes n chunks content
        × (write_chunks max_bytes chunks (record { fed = out; output = out; size = n })
            ≡ finished (record {
              fed = out ++ content;
              output = out ++ content;
              size = n + length content;
            })))
      ⊎ ((e : StoreError) × (write_chunks max_bytes chunks
              (record { fed = out; output = out; size = n })
            ≡ raised e)
          × ((content : Bytes) → Fits max_bytes n chunks content → ⊥))
unfolding write_chunks
write_chunks-cases max_bytes ended out n h =
    inl ([], (refl, omega arith), let e : n + 0 ≡ n = omega arith in rw (append-nil out, e) refl)
write_chunks-cases max_bytes broken out n h = inr (_, refl, λ content f. absurd (cc))
write_chunks-cases max_bytes (chunk c rest) out n h =
    elim (Bool-cases (ltb max_bytes (n + length c))) [
      | inl over ↦ inr (
        too_large,
        rw (over, write_chunks) refl,
        λ content f.
            let (cs, (e, le)) = rest-Fits max_bytes n c rest content f in absurd (ground arith),
      )
      | inr under ↦
          elim (write_chunks-cases max_bytes rest (out ++ c) (n + length c) (ground arith)) [
            | inl (cs, (e, le), written) ↦
                let sum : n + length (c ++ cs) ≡ n + length c + length cs =
                  omega (arith, length-append c cs) in
                inl (
                  c ++ cs,
                  (rw e refl, omega (arith, sum)),
                  rw (under, write_chunks, sum, sym (append_assoc out c cs)) written,
                )
            | inr (e, raised_is, never) ↦ inr (
              e,
              rw (under, write_chunks) raised_is,
              λ content f. let (cs, g) = rest-Fits max_bytes n c rest content f in never cs g,
            )
          ]
    ]

-- What an upload is to do: the whole body under its name, or nothing.
abbrev pub IsAtomic : (Bytes → Text) → ℕ → Text → Stream → Disk → Stored × Disk → Type 0
IsAtomic sha256 max_bytes object_id chunks disk (result, after) =
    ((content : Bytes) × Fits max_bytes 0 chunks content
      × (result
          ≡ stored (record {
            object_id = object_id;
            path = object_id;
            digest = sha256 content;
            size = length content;
          }))
      × (after (final object_id) ≡ some content)
      × ((f : FileName) → file_eq f (final object_id) ≡ false → after f ≡ disk f))
    ⊎ ((e : StoreError) × (result ≡ rejected e)
        × ((f : FileName) → after f ≡ disk f)
        × ((content : Bytes) → Fits max_bytes 0 chunks content → ⊥))

unlinked :
    (object_id : Text) (disk : Disk) (f : FileName)
    → disk (temporary object_id) ≡ none
    → unlink (temporary object_id) disk f ≡ disk f
unlinked object_id disk (temporary a) h = elim (Bool-cases (a == object_id)) [
  | inl e ↦ let same : a ≡ object_id = ground arith in rw (e, same, h) refl
  | inr e ↦ rw e refl
]
unlinked object_id disk (final a) h = refl

settle-IsAtomic :
    (sha256 : Bytes → Text) (max_bytes : ℕ) (object_id : Text) (chunks : Stream) (disk : Disk)
    → disk (temporary object_id) ≡ none
    → IsAtomic sha256 max_bytes object_id chunks disk
        (settle sha256 max_bytes object_id (write_chunks max_bytes chunks nothing_written) disk)
unfolding settle nothing_written
settle-IsAtomic sha256 max_bytes object_id chunks disk free =
    elim (write_chunks-cases max_bytes chunks [] 0 (omega arith)) [
      | inl (content, fits, written) ↦
          let zero_plus : 0 + length content ≡ length content = omega arith in
          let same = ==_self object_id in
          rw (written, zero_plus)
            (inl (
              content,
              fits,
              refl,
              rw same refl,
              λ f other. rw other (unlinked object_id disk f free),
            ))
      | inr (e, raised_is, never) ↦
          rw raised_is (inr (e, refl, (λ f. unlinked object_id disk f free), never))
    ]

-- Where no upload has the same identifier, an upload ends in one of two ways. Its whole body, which
-- keeps to the limit, stands under its name, with the digest and the size of it, and no other file
-- has changed. Or it is refused, the body does not end within the limit, and no file has changed.
pub put_stream-IsAtomic :
    (sha256 : Bytes → Text) (max_bytes : ℕ) (object_id : Text) (chunks : Stream) (disk : Disk)
    → disk (temporary object_id) ≡ none
    → IsAtomic sha256 max_bytes object_id chunks disk
        (put_stream sha256 max_bytes object_id chunks disk)
unfolding put_stream
put_stream-IsAtomic sha256 max_bytes object_id chunks disk free =
    rw (free, put_stream) (settle-IsAtomic sha256 max_bytes object_id chunks disk free)

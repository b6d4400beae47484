-- ===== src/Api/Creation/Checked.antt =====
-- What a round that the operator opened has passed.
use deki_smpc_server.Prelude.{
  ℕ, ◌≤◌, ◌/◌, ◌≡◌, refl, ◌⊎◌, inl, inr, Text, Bool, false, Option, none, some, List, [], ◌∷◌, leb,
  arith, length, Bool-cases,
}
use deki_smpc_server.Domain.Topology.Derive.{has_duplicate}
use deki_smpc_server.Persistence.Schema.{Db, Protocol, Response}
use deki_smpc_server.Persistence.Tx.{Tx, Result, ok, err}
use deki_smpc_server.Persistence.Rounds.{create_round}
use deki_smpc_server.Persistence.Members.{MemberRow, Members, Role, participant, other_role, member}
use deki_smpc_server.Api.{Answer, answered, ApiError}
use deki_smpc_server.Api.Rounds.{transaction}
use deki_smpc_server.Api.Files.{transaction_ok}
use deki_smpc_server.Api.Visits.{Visit, answer_of, call}
use deki_smpc_server.Api.Signing.{Codec}
use deki_smpc_server.Api.Creation.{
  Limits, CreateRequest, uploaded_elements, insert_name, sorted_names, participant_key, with_entry,
  manifest, exceeds, seconds_or, unless, open_checked, with_manifest, request_error, with_version,
  open_round,
}

abbrev pub Occurs : Text → List Text → Type 0
Occurs c [] = ⊥
Occurs c (x ∷ xs) = (c ≡ x) ⊎ Occurs c xs

Occurs-insert : (c x : Text) (xs : List Text) → Occurs c (x ∷ xs) → Occurs c (insert_name x xs)
unfolding insert_name
Occurs-insert c x [] h = h
Occurs-insert c x (y ∷ ys) h = elim (Bool-cases (leb x y)) [
  | inl le ↦ rw le h
  | inr gt ↦ rw gt (exchange (Occurs-insert c x ys) h)
]
  where
    exchange :
        (Occurs c (x ∷ ys) → Occurs c (insert_name x ys))
        → Occurs c (x ∷ y ∷ ys)
        → Occurs c (y ∷ insert_name x ys)
    exchange rest (inl is) = inr (rest (inl is))
    exchange rest (inr (inl is)) = inl is
    exchange rest (inr (inr later)) = inr (rest (inr later))

Occurs-sorted : (c : Text) (xs : List Text) → Occurs c xs → Occurs c (sorted_names xs)
unfolding sorted_names
Occurs-sorted c [] h = elim h [ ]
Occurs-sorted c (x ∷ xs) (inl is) = Occurs-insert c x (sorted_names xs) (inl is)
Occurs-sorted c (x ∷ xs) (inr later) =
    Occurs-insert c x (sorted_names xs) (inr (Occurs-sorted c xs later))

-- A live member of the federation that takes part in rounds.
abbrev pub IsEnrolled : Text → Members → Text → Type 0
IsEnrolled federation_id ms c =
    (row : MemberRow) × (member federation_id c ms ≡ some row) × (row.role ≡ participant)

key-IsEnrolled :
    (federation_id : Text) (ms : Members) (c key : Text) (row : Option MemberRow)
    → member federation_id c ms ≡ row
    → participant_key row ≡ some key
    → IsEnrolled federation_id ms c
key-IsEnrolled federation_id ms c key none e h = absurd (cc)
key-IsEnrolled federation_id ms c key (some m) e h = (m, e, role_is m.role refl h)
  where
    role_is :
        (x : Role)
        → m.role ≡ x
        → elim x [ participant ↦ some m.signing_public_key | other_role y ↦ none ] ≡ some key
        → m.role ≡ participant
    role_is participant e h = e
    role_is (other_role y) e h = absurd (cc)

with_entry-some :
    (c : Text) (key : Option Text) (rest : Option (List (Text × Text))) (found : List (Text × Text))
    → with_entry c key rest ≡ some found
    → ((k : Text) × (key ≡ some k)) × ((l : List (Text × Text)) × (rest ≡ some l))
with_entry-some c none rest found h = absurd (cc)
with_entry-some c (some k) none found h = absurd (cc)
with_entry-some c (some k) (some l) found h = ((k, refl), (l, refl))

manifest-IsEnrolled :
    (federation_id : Text) (ms : Members) (clients : List Text) (found : List (Text × Text))
    → manifest federation_id ms clients ≡ some found
    → (c : Text) → Occurs c clients
    → IsEnrolled federation_id ms c
unfolding manifest
manifest-IsEnrolled federation_id ms [] found h c here = elim here [ ]
manifest-IsEnrolled federation_id ms (x ∷ xs) found h c here =
    let ((key, is), (rest, tail)) =
      with_entry-some x (participant_key (member federation_id x ms)) (manifest federation_id ms xs)
        found h in
    place key is rest (manifest-IsEnrolled federation_id ms xs rest tail c) here
  where
    place :
        (key : Text)
        → participant_key (member federation_id x ms) ≡ some key
        → List (Text × Text)
        → (Occurs c xs → IsEnrolled federation_id ms c)
        → Occurs c (x ∷ xs)
        → IsEnrolled federation_id ms c
    place key is rest tail (inl same) =
        let is = rw (← same) at is in
        key-IsEnrolled federation_id ms c key (member federation_id c ms) refl is
    place key is rest tail (inr later) = tail later

module _ (k : Codec) (limits : Limits) (ms : Members) (t : Visit) (federation_id operator : Text)
    (idem_key round_id : Text) (body : CreateRequest) where
  -- The creation in the store, with the key and the digests that it is given.
  abbrev pub creating : Protocol → List (Text × Text) → Tx (Response × Bool)
  creating version entries =
      create_round federation_id version body.model_schema body.model_schema_hash
        (sorted_names body.participants) (k.manifest_digest entries)
        (seconds_or body.deadline_seconds limits.round_ttl_seconds) limits.retention_seconds
        operator idem_key body.request_digest round_id t.recorded

  -- What was checked of a request that was answered.
  pub record IsChecked (s : Db) (answer : Response × Bool) (after : Db) : Type 0 where
    pub version : Protocol
    pub version_is : body.protocol_version ≡ some version
    pub limited : (n : ℕ) → limits.max_participants ≡ some n → length body.participants ≤ n
    pub distinct : has_duplicate body.participants ≡ false
    pub fits : uploaded_elements body.model_schema.entries ≤ limits.max_artifact_bytes / 8
    pub hash_is : k.schema_digest body.model_schema ≡ body.model_schema_hash
    pub enrolled : (c : Text) → Occurs c body.participants → IsEnrolled federation_id ms c
    pub committed :
        (entries : List (Text × Text)) × (creating version entries (t.before_method s)
          ≡ ok (answer, after))

  answered_ok :
      (x : Result (Response × Bool) × Db) (answer : Response × Bool) (after : Db)
      → answer_of x ≡ (answered answer, after)
      → x ≡ (ok answer, after)
  answered_ok (ok b, u) answer after h = cc
  answered_ok (err e, u) answer after h = absurd (cc)

  with_manifest_answered :
      (version : Protocol) (entries : Option (List (Text × Text))) (s : Db)
      (answer : Response × Bool) (after : Db)
      → with_manifest k limits ms t federation_id operator idem_key round_id body version entries s
        ≡ (answered answer, after)
      → (l : List (Text × Text)) × (entries ≡ some l)
        × (creating version l (t.before_method s) ≡ ok (answer, after))
  unfolding with_manifest open_checked call
  with_manifest_answered version none s answer after h = absurd (cc)
  with_manifest_answered version (some l) s answer after h =
      let done =
        answered_ok (transaction (creating version l) (t.before_method s)) answer after h in
      (l, refl, transaction_ok (creating version l) answer (t.before_method s) after done)

  unless_answered :
      (e : Option ApiError) (f : Db → Answer (Response × Bool) × Db) (s : Db)
      (answer : Response × Bool) (after : Db)
      → unless e f s ≡ (answered answer, after)
      → (e ≡ none) × (f s ≡ (answered answer, after))
  unfolding unless
  unless_answered none f s answer after h = (refl, h)
  unless_answered (some e) f s answer after h = absurd (cc)

  limit_holds : (o : Option ℕ) (n : ℕ) → exceeds o n ≡ false → (m : ℕ) → o ≡ some m → n ≤ m
  limit_holds none n h m e = absurd (cc)
  limit_holds (some l) n h m e = let is : l ≡ m = cc in ground arith

  request_checked :
      request_error k limits ms t body ≡ none
      → (exceeds limits.max_participants (length body.participants) ≡ false)
        × (has_duplicate body.participants ≡ false)
        × (uploaded_elements body.model_schema.entries ≤ limits.max_artifact_bytes / 8)
        × (k.schema_digest body.model_schema ≡ body.model_schema_hash)
  unfolding request_error
  request_checked h = ground arith

  with_version-IsChecked :
      (version : Option Protocol) (s : Db) (answer : Response × Bool) (after : Db)
      → body.protocol_version ≡ version
      → with_version k limits ms t federation_id operator idem_key round_id body version s
        ≡ (answered answer, after)
      → IsChecked s answer after
  unfolding with_version
  with_version-IsChecked none s answer after e h = absurd (cc)
  with_version-IsChecked (some version) s answer after e h =
      let (passed, opened) = unless_answered _ _ s answer after h in
      let (limited, distinct, fits, hash) = request_checked passed in
      let (entries, found, committed) = with_manifest_answered version _ s answer after opened in
      record {
        version = version;
        version_is = e;
        limited = limit_holds limits.max_participants (length body.participants) limited;
        distinct = distinct;
        fits = fits;
        hash_is = hash;
        enrolled = λ c here.
            manifest-IsEnrolled federation_id ms (sorted_names body.participants) entries found c
              (Occurs-sorted c body.participants here);
        committed = (entries, committed);
      }

  -- A request of the operator that is answered has a supported version, keeps to the limits on
  -- participants and on the size of an update, names distinct participants, each one a live member
  -- of the federation with the role of a participant, and the hash of its schema is right; the store
  -- committed the creation of the round for the sorted participants, or found it made before.
  pub open_round-IsChecked :
      (s : Db) (answer : Response × Bool) (after : Db)
      → open_round k limits ms t federation_id operator idem_key round_id body s
        ≡ (answered answer, after)
      → IsChecked s answer after
  unfolding open_round
  open_round-IsChecked s answer after h =
      with_version-IsChecked body.protocol_version s answer after refl h

-- ===== src/Api/Uploads.antt =====
-- What `put_update` leaves in the directory of artifacts.
use deki_smpc_server.Prelude.{
  ℕ, ◌≡◌, refl, ap, ◌⊎◌, inl, inr, Text, Bool, true, false, none, some, Bool-cases, Option-cases,
}
use deki_smpc_server.Persistence.Schema.{Db, RoundRow, Response, StoredObject}
use deki_smpc_server.Persistence.Tx.{Result, Tx, ok, err}
use deki_smpc_server.Persistence.Updates.{record_update}
use deki_smpc_server.Storage.{
  Bytes, FileName, temporary, final, file_eq, Disk, Stored, stored, rejected, too_large,
  file_exists, stream_failed,
}
use deki_smpc_server.Storage.Atomic.{Fits, IsAtomic, put_stream-IsAtomic}
use deki_smpc_server.Worker.Inputs.{Libraries}
use deki_smpc_server.Api.{Answer, answered, refused}
use deki_smpc_server.Api.Rounds.{Member, transaction, round_for_member}
use deki_smpc_server.Api.Files.{SameFiles, object_is, deleted_SameFiles, transaction_ok}
use deki_smpc_server.Api.Updates.{
  Upload, Moments, Site, is_hash, checked_tag, validates, conclude_update, store_update,
  check_headers, with_round, put_update,
}

-- A refusal, or the answer to a replay.
abbrev pub IsOld : Answer (Response × Bool) → Type 0
IsOld (refused e) = Unit
IsOld (answered (response, replay)) = replay ≡ true

module _ (k : Libraries) (update_digest : Text → Text → Text) (max_bytes : ℕ) (round_id : Text)
    (member : Member) (u : Upload) (m : Moments) where
  abbrev pub recording : StoredObject → Text → Tx (Response × Bool)
  recording o tag =
      record_update round_id member.client_id o tag u.idem_key (update_digest o.digest tag) u.job_id
        m.recorded m.moved

  -- The update was taken: its file, with the whole body, is the one new file, and the store committed
  -- a row for it.
  pub record IsTaken (before : Disk) (a : Answer (Response × Bool)) (after : Site) : Type 0 where
    pub response : Response
    pub answer_is : a ≡ answered (response, false)
    pub o : StoredObject
    pub path_is : o.path ≡ u.object_id
    pub content : Bytes
    pub whole : Fits max_bytes 0 u.body content
    pub digest_is : o.digest ≡ k.sha256 content
    pub there : after.disk (final u.object_id) ≡ some content
    pub others : (f : FileName) → file_eq f (final u.object_id) ≡ false → after.disk f ≡ before f
    pub tag : Text
    pub committed : (s : Db) × (recording o tag s ≡ ok ((response, false), after.db))

  -- No file is left or lost, or the update was taken.
  abbrev pub IsTidy : Disk → Answer (Response × Bool) × Site → Type 0
  IsTidy before (a, after) = (IsOld a × SameFiles before after.disk) ⊎ IsTaken before a after

  conclude-IsTidy :
      (before disk : Disk) (o : StoredObject) (content : Bytes) (tag : Text) (s : Db)
      (r : Result (Response × Bool) × Db)
      → before (final u.object_id) ≡ none
      → o.path ≡ u.object_id
      → Fits max_bytes 0 u.body content
      → o.digest ≡ k.sha256 content
      → disk (final u.object_id) ≡ some content
      → ((f : FileName) → file_eq f (final u.object_id) ≡ false → disk f ≡ before f)
      → transaction (recording o tag) s ≡ r
      → IsTidy before (conclude_update k update_digest max_bytes o r disk)
  unfolding conclude_update
  conclude-IsTidy before disk o content tag s (err e, t) free path whole digest there kept h =
      inl (tt, deleted_SameFiles u.object_id before disk o.path path free kept)
  conclude-IsTidy before disk o content tag s (ok (response, true), t) free path whole digest there
        kept h =
      inl (refl, deleted_SameFiles u.object_id before disk o.path path free kept)
  conclude-IsTidy before disk o content tag s (ok (response, false), t) free path whole digest there
        kept h =
      inr (record {
        response = response;
        answer_is = refl;
        o = o;
        path_is = path;
        content = content;
        whole = whole;
        digest_is = digest;
        there = there;
        others = kept;
        tag = tag;
        committed = (s, transaction_ok (recording o tag) (response, false) s t h);
      })

  store-IsTidy :
      (before disk : Disk) (row : RoundRow) (tag : Text) (r : Stored) (s : Db)
      → before (final u.object_id) ≡ none
      → IsAtomic k.sha256 max_bytes u.object_id u.body before (r, disk)
      → IsTidy before
          (store_update k update_digest max_bytes round_id member u m row tag (r, disk) s)
  unfolding store_update
  store-IsTidy before disk row tag (rejected e) s free (inl (content, fits, is, there, kept)) =
      absurd (cc)
  store-IsTidy before disk row tag (rejected too_large) s free (inr (e, is, same, never)) =
      inl (tt, same)
  store-IsTidy before disk row tag (rejected file_exists) s free (inr (e, is, same, never)) =
      inl (tt, same)
  store-IsTidy before disk row tag (rejected stream_failed) s free (inr (e, is, same, never)) =
      inl (tt, same)
  store-IsTidy before disk row tag (stored o) s free (inr (e, is, same, never)) = absurd (cc)
  store-IsTidy before disk row tag (stored o) s free (inl (content, fits, is, there, kept)) =
      let object = object_is o _ is in
      let path = ap (λ x. x.path) object in
      let digest = ap (λ x. x.digest) object in
      elim (Bool-cases
        (validates k update_digest max_bytes row.model_schema.entries (disk (final o.path)))) [
          | inr invalid ↦
              rw invalid (inl (tt, deleted_SameFiles u.object_id before disk o.path path free kept))
          | inl valid ↦ rw valid (
              conclude-IsTidy before disk o content tag (m.before_record s) _ free path fits digest
                there kept refl)
        ]

  check-IsTidy :
      (before : Disk) (row : RoundRow) (s : Db)
      → before (temporary u.object_id) ≡ none
      → before (final u.object_id) ≡ none
      → IsTidy before (check_headers k update_digest max_bytes round_id member u m row before s)
  unfolding check_headers
  check-IsTidy before row s clear free =
      elim (Bool-cases (is_hash u.schema_hash row.model_schema_hash)) [
        | inr other ↦ rw other (inl (tt, λ f. refl))
        | inl same ↦ elim (Option-cases (checked_tag k update_digest max_bytes u)) [
          | inl none_is ↦ rw (same, none_is, check_headers) (inl (tt, λ f. refl))
          | inr (tag, is) ↦
              rw (same, is, check_headers)
                (store-IsTidy before _ row tag _ s free
                  (put_stream-IsAtomic k.sha256 max_bytes u.object_id u.body before clear))
        ]
      ]

  with_round-IsTidy :
      (before : Disk) (a : Answer RoundRow × Db)
      → before (temporary u.object_id) ≡ none
      → before (final u.object_id) ≡ none
      → IsTidy before (with_round k update_digest max_bytes round_id member u m a before)
  unfolding with_round
  with_round-IsTidy before (refused e, s) clear free = inl (tt, λ f. refl)
  with_round-IsTidy before (answered row, s) clear free = check-IsTidy before row s clear free

  -- Where the new identifier is fresh, an upload of an update that is refused or that is a replay
  -- leaves the files as they were. One that is taken adds its whole body as the one new file, under
  -- the name and the digest that the store committed.
  pub put_update-IsTidy :
      (site : Site)
      → site.disk (temporary u.object_id) ≡ none
      → site.disk (final u.object_id) ≡ none
      → IsTidy site.disk (put_update k update_digest max_bytes round_id member u m site)
  unfolding put_update
  put_update-IsTidy site clear free =
      with_round-IsTidy site.disk
        (round_for_member round_id member m.now m.later m.last m.before_participant site.db) clear
        free

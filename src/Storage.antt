-- ===== src/Storage.antt =====
-- key-aggregation-server/app/storage/filesystem.py: the store of immutable artifacts. SHA-256 and the
-- new UUIDs are parameters.
pub mod Atomic
pub mod Reading
pub mod Digests
mod Tests
use deki_smpc_server.Prelude.{
  ℕ, ◌+◌, Text, Bool, true, false, Option, none, some, List, [], ◌∷◌, ◌++◌, ltb, ◌==◌,
  if◌then◌else◌, length,
}
use deki_smpc_server.Persistence.Schema.{StoredObject}

abbrev pub Bytes : Type 0
Bytes = List ℕ

-- The names under the root: `.{object_id}.tmp` and `object_id`. The column `path` holds the second.
pub data FileName : Type 0 where
  temporary final : Text → FileName

abbrev pub file_eq : FileName → FileName → Bool
file_eq (temporary a) (temporary b) = a == b
file_eq (final a) (final b) = a == b
file_eq _ _ = false

-- The directory, as what a read of each name gives.
abbrev pub Disk : Type 0
Disk = FileName → Option Bytes

abbrev pub write : FileName → Option Bytes → Disk → Disk
write f content disk g = if file_eq g f then content else disk g

-- `unlink(missing_ok=True)`.
abbrev pub unlink : FileName → Disk → Disk
unlink f = write f none

-- `os.replace` of a file with that content.
abbrev pub replace : (source target : FileName) → Bytes → Disk → Disk
replace source target content disk = write target (some content) (unlink source disk)

-- The body of a request: its chunks, and whether it ends or breaks off with an exception.
pub data Stream : Type 0 where
  ended broken : Stream
  chunk : Bytes → Stream → Stream

pub data StoreError : Type 0 where
  too_large file_exists stream_failed : StoreError

pub data Stored : Type 0 where
  stored : StoredObject → Stored
  rejected : StoreError → Stored

-- What the loop of `put_stream` has when it leaves: what the hash was fed, what was written, and
-- the size.
pub record Written : Type 0 where
  pub fed : Bytes
  pub output : Bytes
  pub size : ℕ

pub data Loop : Type 0 where
  finished : Written → Loop
  raised : StoreError → Loop

-- `async for chunk in chunks`.
write_chunks : (max_bytes : ℕ) → Stream → Written → Loop
write_chunks max_bytes ended w = finished w
write_chunks max_bytes broken w = raised stream_failed
write_chunks max_bytes (chunk c rest) w =
    let next =
      write_chunks max_bytes rest
        (record { fed = w.fed ++ c; output = w.output ++ c; size = w.size + length c }) in
    if ltb max_bytes (w.size + length c) then raised too_large else next

nothing_written : Written
nothing_written = record { fed = []; output = []; size = 0 }

module _ (sha256 : Bytes → Text) (max_bytes : ℕ) where
  abbrev object_of : Text → Written → StoredObject
  object_of object_id w = record {
    object_id = object_id;
    path = object_id;
    digest = sha256 w.fed;
    size = w.size;
  }

  -- After the loop: the file is moved to its name, or removed where the loop raised.
  settle : Text → Loop → Disk → Stored × Disk
  settle object_id (finished w) disk = (
    stored (object_of object_id w),
    replace (temporary object_id) (final object_id) w.output disk,
  )
  settle object_id (raised e) disk = (rejected e, unlink (temporary object_id) disk)

  -- `put_stream`, with the new identifier. `open("xb")` raises where the file is there.
  unfoldable pub put_stream : (object_id : Text) → Stream → Disk → Stored × Disk
  unfolding settle write_chunks nothing_written
  put_stream object_id chunks disk = elim (disk (temporary object_id)) [
    | some _ ↦ settle object_id (raised file_exists) disk
    | none ↦ settle object_id (write_chunks max_bytes chunks nothing_written) disk
  ]

  -- `put_bytes`.
  unfoldable pub put_bytes : (object_id : Text) → Bytes → Disk → Stored × Disk
  put_bytes object_id content disk =
      if ltb max_bytes (length content)
      then (rejected too_large, disk)
      else elim (disk (temporary object_id)) [
        | some _ ↦ (rejected file_exists, disk)
        | none ↦ (
          stored (record {
            object_id = object_id;
            path = object_id;
            digest = sha256 content;
            size = length content;
          }),
          replace (temporary object_id) (final object_id) content disk,
        )
      ]

-- `delete`.
abbrev pub delete : (path : Text) → Disk → Disk
delete path = unlink (final path)

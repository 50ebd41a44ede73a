-- ===== src/Workspace/Snapshot/Objects.antt =====
-- Objects, mirror files, and the operations on one path.
use omnicode_mcp.Prelude.{
  ℕ, String, not, ◌&&◌, Option, none, some, List, [], ◌∷◌, length, map, if◌then◌else◌,
}
use omnicode_mcp.Prelude.Eq.{◌==◌, string_eq, nat_eq}
use omnicode_mcp.Prelude.Dict.{Dict, get, has, put, pop, keys, values}
use omnicode_mcp.Prelude.Result.{Result, ok, raise}
use omnicode_mcp.Prelude.Exec.{pure, lift, gets, guard, when, modify, ◌>>=◌, ◌>>◌}
use omnicode_mcp.Prelude.Text.{strip, is_empty, lower, behind, ◌+++◌}
use omnicode_mcp.Workspace.Path.{PathError, normalize_snapshot_path}
use omnicode_mcp.Workspace.Snapshot.Types.{
  StoreError, bad_path, hash_mismatch, size_mismatch, unknown_encoding, mirror_fault, MirrorFault,
  SnapshotRecord, Tombstone, Host,
}
use omnicode_mcp.Workspace.Snapshot.Index.{
  Act, validate_workspace_id, load_index, save_index, set_accepted_revision, utc_now,
}
use omnicode_mcp.Prelude.Newlines.{universal_newlines}

-- What a caller sends for one file.
pub record FileItem : Type 0 where
  pub path : String
  pub content : String
  pub hash : String
  pub size : ℕ
  pub mtime_ms : ℕ
  pub encoding : String

unfoldable pub expected_digest : String → String
unfolding strip lower behind
expected_digest raw =
    let value = strip raw in
    lower (elim (behind "sha256:" value) [ none ↦ value | some rest ↦ rest ])

abbrev pub checked_path : Result PathError String → Result StoreError String
checked_path (ok rel) = ok rel
checked_path (raise e) = raise (bad_path e)

unfoldable pub normalized : String → Result StoreError String
unfolding normalize_snapshot_path
normalized path = checked_path (normalize_snapshot_path path)

abbrev pub encoded_or_raise : Option (List ℕ) → Result StoreError (List ℕ)
encoded_or_raise none = raise unknown_encoding
encoded_or_raise (some bytes) = ok bytes

-- The checks on the digest and the size of a file; the bytes to store.
unfoldable pub verify_content : Host → FileItem → Act (List ℕ)
verify_content host item = do
  encoded ← lift (encoded_or_raise (host.encode item.encoding item.content))
  let digest = host.sha256 encoded
  let expected = expected_digest item.hash
  guard (not (is_empty expected) && not (expected == digest)) hash_mismatch
  guard (not (item.size == length encoded)) size_mismatch
  pure encoded

unfoldable pub object_rel : String → String
object_rel digest = "objects/sha256/" +++ digest

-- An object that is there is not written again.
unfoldable pub store_object : String → List ℕ → Act Unit
store_object obj_rel encoded = do
  there ← gets (λ d. has d.objects obj_rel)
  when (not there) (modify (λ d. record d { objects = put d.objects obj_rel encoded }))

abbrev pub answer_or_raise : Option MirrorFault → Result StoreError (Unit {0})
answer_or_raise (some fault) = raise (mirror_fault fault)
answer_or_raise none = ok tt

-- Creating the parents and the checks on the target: what the file system answers.
unfoldable pub check_mirror : Host → String → Act Unit
check_mirror host path = do
  names ← gets (λ d. keys d.mirror)
  lift (answer_or_raise (host.mirror_answer names path))

-- The bytes are written beside the target and moved over it, which takes a mirror file of the name
-- `path.tmp` away.
unfoldable pub write_mirror : Host → String → List ℕ → Act String
write_mirror host path encoded = do
  check_mirror host path
  modify (λ d. record d { mirror = put d.mirror (path +++ ".tmp") encoded })
  modify (λ d. record d { mirror = put (pop d.mirror (path +++ ".tmp")) path encoded })
  pure ("mirror/" +++ path)

unfoldable pub delete_mirror : Host → String → Act Unit
delete_mirror host path = do
  check_mirror host path
  modify (λ d. record d { mirror = pop d.mirror path })

-- mirror_rel = None; if self.materialize_mirror: mirror_rel = self._write_mirror(...)
unfoldable pub materialize : Host → String → List ℕ → Act (Option String)
materialize host rel encoded =
    if host.materialize_mirror
    then (do m ← write_mirror host rel encoded; pure (some m))
    else pure none

-- From the checks of one file to its record; its object and mirror file are written.
unfoldable pub store_file : Host → ℕ → FileItem → Act SnapshotRecord
store_file host revision item = do
  rel ← lift (normalized item.path)
  encoded ← verify_content host item
  let digest = host.sha256 encoded
  store_object (object_rel digest) encoded
  mirror_rel ← materialize host rel encoded
  now ← utc_now host
  pure (record {
    path = rel;
    hash = "sha256:" +++ digest;
    size = item.size;
    mtime_ms = item.mtime_ms;
    encoding = item.encoding;
    object_path = object_rel digest;
    revision = revision;
    updated_at = now;
    mirror_path = mirror_rel;
  })

unfoldable pub upsert_unlocked : Host → String → FileItem → ℕ → Act SnapshotRecord
upsert_unlocked host workspace_id item revision = do
  workspace ← lift (validate_workspace_id workspace_id)
  rec ← store_file host revision item
  index ← load_index workspace
  let index' =
      set_accepted_revision (record index { files = put index.files rec.path rec }) revision
  save_index workspace (record index' { workspace_id = workspace })
  pure rec

unfoldable pub tombstone : Host → String → ℕ → Act Tombstone
tombstone host rel revision = do
  now ← utc_now host
  pure (record { path = rel; revision = revision; deleted_at = now })

unfoldable pub delete_unlocked : Host → String → String → ℕ → Act Unit
delete_unlocked host workspace_id path revision = do
  workspace ← lift (validate_workspace_id workspace_id)
  rel ← lift (normalized path)
  index ← load_index workspace
  stone ← tombstone host rel revision
  let index' = record index { files = pop index.files rel; deletes = put index.deletes rel stone }
  when host.materialize_mirror (delete_mirror host rel)
  save_index workspace (record (set_accepted_revision index' revision) { workspace_id = workspace })

-- The text of a record, if its object is there: `read_text` makes "\n" of each end of a line.
unfoldable pub read_object : Host → Dict String (List ℕ) → Option SnapshotRecord → Option String
unfolding universal_newlines
read_object host objects none = none
read_object host objects (some rec) =
    if is_empty rec.object_path then none else elim (get objects rec.object_path) [
      | none ↦ none
      | some bytes ↦ some (
          universal_newlines
            (host.decode (if is_empty rec.encoding then "utf-8" else rec.encoding) bytes))
    ]

unfoldable pub read_text_unlocked : Host → String → String → Act (Option String)
read_text_unlocked host workspace path = do
  index ← load_index workspace
  gets (λ d. read_object host d.objects (get index.files path))

-- `_file_hashes_unlocked`
unfoldable pub file_hashes_unlocked : String → Act (Dict String String)
file_hashes_unlocked workspace = do
  index ← load_index workspace
  pure (map (λ e. (e.0, e.1.hash)) index.files)

unfoldable pub list_records_unlocked : String → Act (List SnapshotRecord)
list_records_unlocked workspace = do index ← load_index workspace; pure (values index.files)

unfoldable pub find_record : String → List SnapshotRecord → Option SnapshotRecord
find_record rel [] = none
find_record rel (rec ∷ records) = if rec.path == rel then some rec else find_record rel records

unfoldable pub get_record : String → String → Act (Option SnapshotRecord)
get_record workspace_id path = do
  rel ← lift (normalized path)
  workspace ← lift (validate_workspace_id workspace_id)
  records ← list_records_unlocked workspace
  pure (find_record rel records)

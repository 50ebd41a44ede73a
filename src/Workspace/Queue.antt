-- ===== src/Workspace/Queue.antt =====
-- The upload queue on top of the manifest: omnicode_core/workspace/sync_queue.py.
pub mod Lost
pub mod Accepted
pub mod Bounds
pub mod Idle
use omnicode_mcp.Prelude.{
  ℕ, ◌+◌, String, Bool, true, false, not, ◌&&◌, ◌||◌, Option, none, some, List, [], ◌∷◌, ◌++◌,
  length, map, keep, any, ltb, leb, if◌then◌else◌,
}
use omnicode_mcp.Prelude.Eq.{◌==◌, string_eq, nat_eq}
use omnicode_mcp.Prelude.Dict.{Dict, get, put, pop}
use omnicode_mcp.Prelude.Result.{Result, ok, raise, ◌>>=◌}
use omnicode_mcp.Prelude.Text.{is_empty}
use omnicode_mcp.Workspace.Path.{PathError, normalize_rel}
use omnicode_mcp.Workspace.Manifest.{
  Entry, absent, not_file, regular, Local, to_absolute, FileMeta, Op, op_upsert, op_delete,
  op_unknown, PendingItem, Manifest,
}

pub record SyncFile : Type 0 where
  pub path : String
  pub hash : String
  pub size : ℕ
  pub mtime_ms : ℕ
  pub encoding : String
  pub content : String

pub record SyncBatch : Type 0 where
  pub client_id : String
  pub base_revision : ℕ
  pub client_revision : ℕ
  pub files : List SyncFile
  pub deletes : List String

pub data QueueError : Type 0 where
  max_files_not_positive max_bytes_not_positive : QueueError
  bad_path : PathError → QueueError

-- str(item.get("hash") or meta.get("hash") or "")
unfoldable pub hash_of : Option String → Option FileMeta → String
hash_of none none = ""
hash_of none (some meta) = meta.hash
hash_of (some h) none = h
hash_of (some h) (some meta) = if is_empty h then meta.hash else h

-- int(meta.get("size") or abs_path.stat().st_size)
unfoldable pub size_of : Option FileMeta → List ℕ → ℕ
size_of none content = length content
size_of (some meta) content = if meta.size == 0 then length content else meta.size

unfoldable pub mtime_of : Option FileMeta → ℕ
mtime_of none = 0
mtime_of (some meta) = meta.mtime_ms

unfoldable pub sync_file : Local → Manifest → PendingItem → String → List ℕ → SyncFile
sync_file local m item path content =
    let meta = get m.files path in
    record {
      path = path;
      hash = hash_of item.hash meta;
      size = size_of meta content;
      mtime_ms = mtime_of meta;
      encoding = "utf-8";
      content = local.decode content;
    }

-- What one pending item asks for.
pub data Wanted : Type 0 where
  skip : Wanted
  removal : String → Wanted
  upload : SyncFile → Wanted

abbrev pub wanted_entry : Local → Manifest → PendingItem → String → Entry → Wanted
wanted_entry local m item path absent = removal path
wanted_entry local m item path not_file = removal path
wanted_entry local m item path (regular content mtime_ms) =
    upload (sync_file local m item path content)

abbrev pub wanted_at : Local → Manifest → PendingItem → Op → String → Result PathError Wanted
wanted_at local m item op_delete path = ok (removal path)
wanted_at local m item op_unknown path = ok skip
wanted_at local m item op_upsert path = elim (to_absolute local path) [
  | ok target ↦ ok (wanted_entry local m item path (local.look target))
  | raise e ↦ raise e
]

unfoldable pub wanted : Local → Manifest → PendingItem → Result PathError Wanted
wanted local m item = elim (normalize_rel item.path) [
  | ok path ↦ wanted_at local m item item.op path
  | raise e ↦ raise e
]

abbrev pub is_nil : {A : Type 0} → List A → Bool
is_nil [] = true
is_nil (x ∷ xs) = false

abbrev pub Filled : Type 0
Filled = Result PathError (List SyncFile × List String)

-- One file: `break` where it would not fit behind what is there, else one more turn.
abbrev pub fill_file :
    Local
    → List SyncFile
    → List String
    → ℕ
    → (List SyncFile → List String → ℕ → Filled)
    → SyncFile
    → Bool
    → Filled
fill_file local files deletes used next file true = ok (files, deletes)
fill_file local files deletes used next file false =
    next (files ++ file ∷ []) deletes (used + local.encoded_length file.content)

-- One turn of the loop, by whether the batch is full and what the item asks for.
abbrev pub fill_turn :
    Local
    → ℕ
    → List SyncFile
    → List String
    → ℕ
    → (List SyncFile → List String → ℕ → Filled)
    → Bool
    → Result PathError Wanted
    → Filled
fill_turn local max_bytes files deletes used next true w = ok (files, deletes)
fill_turn local max_bytes files deletes used next false (raise e) = raise e
fill_turn local max_bytes files deletes used next false (ok skip) = next files deletes used
fill_turn local max_bytes files deletes used next false (ok (removal path)) =
    next files (deletes ++ path ∷ []) used
fill_turn local max_bytes files deletes used next false (ok (upload file)) =
    fill_file local files deletes used next file (
      not (is_nil files && is_nil deletes)
      && ltb max_bytes (used + local.encoded_length file.content))

module _ (local : Local) (m : Manifest) (max_files max_bytes : ℕ) where
  -- The loop over the pending items, from the files, deletes and bytes so far.
  unfoldable pub fill : List SyncFile → List String → ℕ → List PendingItem → Filled
  fill files deletes used [] = ok (files, deletes)
  fill files deletes used (item ∷ items) =
      fill_turn local max_bytes files deletes used (λ fs ds n. fill fs ds n items)
        (leb max_files (length files + length deletes)) (wanted local m item)

  abbrev pub batch_of : List SyncFile × List String → Option SyncBatch
  batch_of (files, deletes) =
      if is_nil files && is_nil deletes
      then none
      else some (record {
        client_id = m.client_id;
        base_revision = m.last_accepted_revision;
        client_revision = m.local_revision;
        files = files;
        deletes = deletes;
      })

  abbrev pub filled :
      Result PathError (List SyncFile × List String) → Result QueueError (Option SyncBatch)
  filled (ok out) = ok (batch_of out)
  filled (raise e) = raise (bad_path e)

  -- By whether nothing is pending, and whether a limit is 0.
  abbrev pub checked_batch : Bool → Bool → Bool → Filled → Result QueueError (Option SyncBatch)
  checked_batch true no_files no_bytes out = ok none
  checked_batch false true no_bytes out = raise max_files_not_positive
  checked_batch false false true out = raise max_bytes_not_positive
  checked_batch false false false out = filled out

  unfoldable pub next_batch : Result QueueError (Option SyncBatch)
  next_batch =
      checked_batch (is_nil m.pending) (max_files == 0) (max_bytes == 0) (fill [] [] 0 m.pending)

-- `batch.paths`
unfoldable pub paths : SyncBatch → List String
paths batch = map (λ f. f.path) batch.files ++ batch.deletes

unfoldable pub among : String → List String → Bool
among p ps = any (λ q. q == p) ps

-- The loop over the uploaded files.
unfoldable pub set_uploaded : ℕ → List SyncFile → Dict String FileMeta → Dict String FileMeta
set_uploaded accepted [] files = files
set_uploaded accepted (f ∷ fs) files = elim (get files f.path) [
  | none ↦ set_uploaded accepted fs files
  | some meta ↦
      set_uploaded accepted fs
        (put files f.path (record meta { last_uploaded_revision = accepted }))
]

-- The loop over the deleted paths.
unfoldable pub drop_deleted : List String → Dict String FileMeta → Dict String FileMeta
drop_deleted [] files = files
drop_deleted (d ∷ ds) files = drop_deleted ds (pop files d)

abbrev pub or_else : {A : Type 0} → Option A → A → A
or_else none d = d
or_else (some a) d = a

unfoldable pub mark_accepted : SyncBatch → Option ℕ → Option ℕ → Manifest → Manifest
unfolding keep
mark_accepted batch accepted_revision indexed_revision m =
    let accepted = or_else accepted_revision batch.client_revision in
    record m {
      last_accepted_revision = accepted;
      last_indexed_revision = or_else indexed_revision m.last_indexed_revision;
      pending = keep (λ item. not (among item.path (paths batch))) m.pending;
      files = drop_deleted batch.deletes (set_uploaded accepted batch.files m.files);
    }

pub record QueueStatus : Type 0 where
  pub workspace_id : String
  pub local_revision : ℕ
  pub last_accepted_revision : ℕ
  pub last_indexed_revision : ℕ
  pub pending_count : ℕ

unfoldable pub status : Manifest → QueueStatus
status m = record {
  workspace_id = m.workspace_id;
  local_revision = m.local_revision;
  last_accepted_revision = m.last_accepted_revision;
  last_indexed_revision = m.last_indexed_revision;
  pending_count = length m.pending;
}

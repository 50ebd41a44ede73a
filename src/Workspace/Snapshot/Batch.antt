-- ===== src/Workspace/Snapshot/Batch.antt =====
-- `apply_batch` on the directory of one workspace.
use omnicode_mcp.Prelude.{ℕ, String, List, [], ◌∷◌, ◌++◌, length, if◌then◌else◌}
use omnicode_mcp.Prelude.Eq.{string_eq}
use omnicode_mcp.Prelude.Dict.{put, pop}
use omnicode_mcp.Prelude.Exec.{pure, lift, when, ◌>>=◌, ◌>>◌}
use omnicode_mcp.Prelude.Text.{is_empty}
use omnicode_mcp.Workspace.Snapshot.Types.{SnapshotRecord, Tombstone, Index, Host}
use omnicode_mcp.Workspace.Snapshot.Index.{
  Act, validate_workspace_id, load_index, save_index, set_accepted_revision,
}
use omnicode_mcp.Workspace.Snapshot.Objects.{
  FileItem, normalized, store_file, tombstone, delete_mirror,
}

pub record BatchResult : Type 0 where
  pub records : List SnapshotRecord
  pub accepted_revision : ℕ
  pub indexed_revision : ℕ
  pub file_count : ℕ
  pub delete_count : ℕ

-- str(item.get("encoding") or "utf-8")
abbrev pub with_default_encoding : FileItem → FileItem
with_default_encoding item = record item {
  encoding = if is_empty item.encoding then "utf-8" else item.encoding;
}

-- index_files[rel] = record; tombstones.pop(rel, None)
unfoldable pub add_record : Index → SnapshotRecord → Index
add_record index rec = record index {
  files = put index.files rec.path rec;
  deletes = pop index.deletes rec.path;
}

-- index_files.pop(rel, None); tombstones[rel] = {...}
unfoldable pub add_tombstone : Index → String → Tombstone → Index
add_tombstone index rel stone = record index {
  files = pop index.files rel;
  deletes = put index.deletes rel stone;
}

-- The loop over the files: the index in memory, and the records so far.
unfoldable pub batch_files :
    Host → ℕ → Index → List SnapshotRecord → List FileItem → Act (Index × List SnapshotRecord)
batch_files host revision index records [] = pure (index, records)
batch_files host revision index records (item ∷ items) = do
  rec ← store_file host revision (with_default_encoding item)
  batch_files host revision (add_record index rec) (records ++ rec ∷ []) items

-- The loop over the deleted paths.
unfoldable pub batch_deletes : Host → ℕ → Index → List String → Act Index
batch_deletes host revision index [] = pure index
batch_deletes host revision index (path ∷ paths) = do
  rel ← lift (normalized path)
  stone ← tombstone host rel revision
  when host.materialize_mirror (delete_mirror host rel)
  batch_deletes host revision (add_tombstone index rel stone) paths

unfoldable pub apply_batch_unlocked :
    Host → String → List FileItem → List String → ℕ → Act BatchResult
apply_batch_unlocked host workspace_id files deletes revision = do
  workspace ← lift (validate_workspace_id workspace_id)
  index ← load_index workspace
  (filled, records) ← batch_files host revision index [] files
  emptied ← batch_deletes host revision filled deletes
  let saved = record (set_accepted_revision emptied revision) { workspace_id = workspace }
  save_index workspace saved
  pure (record {
    records = records;
    accepted_revision = saved.accepted_revision;
    indexed_revision = saved.indexed_revision;
    file_count = length saved.files;
    delete_count = length saved.deletes;
  })

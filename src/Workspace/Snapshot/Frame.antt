-- ===== src/Workspace/Snapshot/Frame.antt =====
-- What the parts of an operation leave alone: only `save_index` writes the two JSON files.
use omnicode_mcp.Prelude.{refl, Option, List, [], ◌∷◌, ◌++◌, String, ℕ}
use omnicode_mcp.Prelude.Exec.{◌>>=◌}
use omnicode_mcp.Prelude.Exec.Rules.{
  Leaves, leaves_rules, Leaves-bind, Leaves-when, Leaves-modify, Leaves-pure, Leaves-lift,
}
use omnicode_mcp.Workspace.Snapshot.Types.{
  WorkspaceDir, IndexFile, Status, Index, SnapshotRecord, Host,
}
use omnicode_mcp.Workspace.Snapshot.Index.{utc_now}
use omnicode_mcp.Workspace.Snapshot.Objects.{
  FileItem, verify_content, store_object, check_mirror, write_mirror, delete_mirror, materialize,
  store_file, tombstone,
}
use omnicode_mcp.Workspace.Snapshot.Batch.{
  batch_files, batch_deletes, add_record, add_tombstone, with_default_encoding,
}

-- The two JSON files of a directory.
abbrev pub saved : WorkspaceDir → IndexFile × Option Status
saved d = (d.index_file, d.status_file)

utc_now-Leaves : (host : Host) → Leaves saved (utc_now host)
unfolding utc_now ◌>>=◌
utc_now-Leaves host = record { at = λ d. refl }

verify_content-Leaves : (host : Host) (item : FileItem) → Leaves saved (verify_content host item)
unfolding verify_content
verify_content-Leaves host item = search leaves_rules depth 9

store_object-Leaves : (o : String) (bytes : List ℕ) → Leaves saved (store_object o bytes)
unfolding store_object
store_object-Leaves o bytes = search (leaves_rules, Leaves-modify) depth 9

check_mirror-Leaves : (host : Host) (path : String) → Leaves saved (check_mirror host path)
unfolding check_mirror
check_mirror-Leaves host path = search leaves_rules depth 9

write_mirror-Leaves :
    (host : Host) (path : String) (bytes : List ℕ) → Leaves saved (write_mirror host path bytes)
unfolding write_mirror
write_mirror-Leaves host path bytes =
    search (leaves_rules, Leaves-modify, check_mirror-Leaves) depth 9

pub delete_mirror-Leaves : (host : Host) (path : String) → Leaves saved (delete_mirror host path)
unfolding delete_mirror
delete_mirror-Leaves host path = search (leaves_rules, Leaves-modify, check_mirror-Leaves) depth 9

materialize-Leaves :
    (host : Host) (rel : String) (bytes : List ℕ) → Leaves saved (materialize host rel bytes)
unfolding materialize
materialize-Leaves host rel bytes = search (leaves_rules, write_mirror-Leaves) depth 9

ruleset file_rules =
    (leaves_rules, utc_now-Leaves, verify_content-Leaves, store_object-Leaves, materialize-Leaves)

pub store_file-Leaves :
    (host : Host) (revision : ℕ) (item : FileItem) → Leaves saved (store_file host revision item)
unfolding store_file
store_file-Leaves host revision item = search file_rules depth 14

pub tombstone-Leaves :
    (host : Host) (rel : String) (revision : ℕ) → Leaves saved (tombstone host rel revision)
unfolding tombstone
tombstone-Leaves host rel revision = search file_rules depth 9

pub batch_files-Leaves :
    (host : Host) (revision : ℕ) (index : Index) (records : List SnapshotRecord)
    (items : List FileItem)
    → Leaves saved (batch_files host revision index records items)
unfolding batch_files
batch_files-Leaves host revision index records [] = Leaves-pure _
batch_files-Leaves host revision index records (item ∷ items) =
    Leaves-bind _ _ (store_file-Leaves host revision (with_default_encoding item))
      λ rec. batch_files-Leaves host revision (add_record index rec) (records ++ rec ∷ []) items

pub batch_deletes-Leaves :
    (host : Host) (revision : ℕ) (index : Index) (paths : List String)
    → Leaves saved (batch_deletes host revision index paths)
unfolding batch_deletes
batch_deletes-Leaves host revision index [] = Leaves-pure _
batch_deletes-Leaves host revision index (path ∷ paths) = Leaves-bind _ _ (Leaves-lift _) λ rel.
    Leaves-bind _ _ (tombstone-Leaves host rel revision) λ stone.
      Leaves-bind _ _ (Leaves-when _ _ (delete_mirror-Leaves host rel))
        λ _. batch_deletes-Leaves host revision (add_tombstone index rel stone) paths

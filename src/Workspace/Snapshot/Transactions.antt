-- ===== src/Workspace/Snapshot/Transactions.antt =====
-- The writing operations of the store as transactions on its two JSON files.
use omnicode_mcp.Prelude.{ℕ, ◌≡◌, String, List, []}
use omnicode_mcp.Prelude.Eq.{string_eq}
use omnicode_mcp.Prelude.Text.{strip}
use omnicode_mcp.Prelude.Result.{ok}
use omnicode_mcp.Prelude.Exec.Rules.{Leaves-lift, Leaves-when, Leaves-guard, lift-bind}
use omnicode_mcp.Workspace.Snapshot.Types.{Host}
use omnicode_mcp.Workspace.Snapshot.Index.{validate_workspace_id, mark_indexed_unlocked}
use omnicode_mcp.Workspace.Snapshot.Objects.{FileItem, upsert_unlocked, delete_unlocked}
use omnicode_mcp.Workspace.Snapshot.Batch.{apply_batch_unlocked}
use omnicode_mcp.Workspace.Snapshot.Frame.{
  store_file-Leaves, tombstone-Leaves, delete_mirror-Leaves, batch_files-Leaves,
  batch_deletes-Leaves,
}
use omnicode_mcp.Workspace.Snapshot.Commits.{
  Commits, Gives-any, Gives-lift, Gives-guard, Saves-save, Saves-save_unit, Saves-bind,
  Commits-bind, Commits-load,
}
use omnicode_mcp.Workspace.Snapshot.Effect.{
  store_file-Gives, batch_files-Gives, batch_deletes-Gives,
}
use omnicode_mcp.Workspace.Snapshot.Outcomes.{
  BatchEffect, batch_effect, UpsertEffect, DeleteEffect, MarkEffect, upsert_effect, delete_effect,
  mark_effect,
}

module _ (host : Host) (workspace_id ws : String)
    (valid : validate_workspace_id workspace_id ≡ ok ws) where
  -- A batch that raises leaves the two files as they were. One that returns has saved in both an
  -- index in which the accepted revision is raised to the batch's, and the live paths are those of
  -- the batch's files and those before it, less the deleted ones; no path is both live and deleted,
  -- if none was before.
  pub apply_batch-Commits :
      (files : List FileItem) (deletes : List String) (revision : ℕ)
      → Commits ws
          (BatchEffect revision files deletes)
          (apply_batch_unlocked host workspace_id files deletes revision)
  unfolding apply_batch_unlocked
  apply_batch-Commits files deletes revision =
      rw (valid, lift-bind)
        (Commits-load _ λ i.
          Saves-bind _ _ _ (batch_files-Leaves host revision i [] files)
            (batch_files-Gives host revision files i [])
            λ out filled.
              Saves-bind _ _ _ (batch_deletes-Leaves host revision out.0 deletes)
                (batch_deletes-Gives host revision deletes out.0)
                λ j emptied. Saves-save _ _ (batch_effect i out.0 j ws filled emptied))

  pub upsert-Commits :
      (item : FileItem) (revision : ℕ)
      → Commits ws (UpsertEffect item revision) (upsert_unlocked host workspace_id item revision)
  unfolding upsert_unlocked
  upsert-Commits item revision =
      rw (valid, lift-bind)
        (Commits-bind _ _ _ (store_file-Leaves host revision item)
          (store_file-Gives host revision item)
          λ rec named.
            Commits-load _ λ i. Saves-save _ _ (upsert_effect item revision i rec ws named))

  pub delete-Commits :
      (path : String) (revision : ℕ)
      → Commits ws (DeleteEffect path revision) (delete_unlocked host workspace_id path revision)
  unfolding delete_unlocked
  delete-Commits path revision =
      rw (valid, lift-bind)
        (Commits-bind _ _ _ (Leaves-lift _) (Gives-lift _) λ rel named. Commits-load _ λ i.
          Saves-bind (λ _. Unit {0}) _ _ (tombstone-Leaves host rel revision) Gives-any
            λ stone _.
              Saves-bind (λ _. Unit {0}) _ _ (Leaves-when _ _ (delete_mirror-Leaves host rel))
                Gives-any
                λ _ _. Saves-save_unit _ (delete_effect path revision i rel stone ws named))

pub mark_indexed-Commits :
    (workspace_id ws : String)
    → validate_workspace_id workspace_id ≡ ok ws
    → (revision : ℕ) (coverage : String)
    → Commits ws (MarkEffect revision) (mark_indexed_unlocked workspace_id revision coverage)
unfolding mark_indexed_unlocked
mark_indexed-Commits workspace_id ws valid revision coverage =
    rw (valid, lift-bind)
      (Commits-load _ λ i.
        Saves-bind _ _ _ (Leaves-guard _ _) (Gives-guard _ _)
          λ _ within. Saves-save _ _ (mark_effect i (strip coverage) revision ws within))

-- ===== src/Examples/Sync.antt =====
-- The manifest and the upload queue on one file.
use omnicode_mcp.Prelude.{◌+◌, ◌≡◌, ◌≤◌, refl, none, some, true, false, [], ◌∷◌, All, length}
use omnicode_mcp.Prelude.Eq.{◌==◌, string_eq}
use omnicode_mcp.Prelude.Dict.{get}
use omnicode_mcp.Prelude.Result.{ok}
use omnicode_mcp.Workspace.Path.{normalize_rel}
use omnicode_mcp.Workspace.Manifest.{
  Local, relative, regular, Settings, Manifest, new_data, to_relative, to_absolute, is_ignored,
  has_nul, mark_changed, op_upsert, op_unknown,
}
use omnicode_mcp.Workspace.Manifest.Consistent.{IsConsistent}
use omnicode_mcp.Workspace.Queue.{
  SyncBatch, SyncFile, mark_accepted, next_batch, among, paths, fill, wanted, sync_file, hash_of,
  size_of, mtime_of,
}
use omnicode_mcp.Workspace.Queue.Accepted.{changed, acknowledged, happen, happen_new-IsConsistent}
use omnicode_mcp.Workspace.Queue.Lost.{IsTracked, acknowledged_loses_change}
use omnicode_mcp.Workspace.Queue.Bounds.{Fits, next_batch-Fits}

abbrev disk : Local
disk = record {
  locate = λ path. relative;
  resolves_inside = λ rel. true;
  look = λ rel. regular (1 ∷ 2 ∷ []) 7;
  sha256_bytes = λ bytes. "sha256:ff";
  decode = λ bytes. "hi";
  encoded_length = λ text. 2;
  utc_now = "now";
}

abbrev settings : Settings
settings = record { max_file_bytes = 1000; ignore_paths = [] }

abbrev sent_file : SyncFile
sent_file = record {
  path = "a.py";
  hash = "sha256:00";
  size = 2;
  mtime_ms = 7;
  encoding = "utf-8";
  content = "ho";
}

abbrev sent : SyncBatch
sent = record {
  client_id = "c";
  base_revision = 0;
  client_revision = 1;
  files = sent_file ∷ [];
  deletes = [];
}

happen_new-IsConsistent_example : IsConsistent (
    happen settings
      (changed disk "a.py" false ∷ acknowledged sent none none ∷ changed disk "b.py" true ∷ [])
      (new_data "w1" "c"))
happen_new-IsConsistent_example =
    happen_new-IsConsistent settings "w1" "c"
      (changed disk "a.py" false ∷ acknowledged sent none none ∷ changed disk "b.py" true ∷ [])

tracked : IsTracked disk settings "a.py" "a.py" (1 ∷ 2 ∷ []) 7
unfolding to_relative to_absolute is_ignored normalize_rel has_nul
tracked = record {
  target = "a.py";
  located = refl;
  watched = refl;
  resolved = refl;
  there = refl;
  small = refl;
}

sent_path : among "a.py" (paths sent) ≡ true
unfolding among paths
sent_path = refl

kept_path : among "a.py" sent.deletes ≡ false
unfolding among
kept_path = refl

acknowledged_loses_change_example :
    All
      (λ item. (item.path == "a.py") ≡ false)
      (mark_accepted sent none none
        (mark_changed disk settings "a.py" false (new_data "w1" "c")).1).pending
    × ((mark_changed disk settings "a.py" false (
          mark_accepted sent none none
            (mark_changed disk settings "a.py" false (new_data "w1" "c")).1)).0
        ≡ ok none)
acknowledged_loses_change_example =
    acknowledged_loses_change disk settings "a.py" "a.py" (1 ∷ 2 ∷ []) 7 tracked sent none none
      sent_path kept_path (new_data "w1" "c")

abbrev queued : Manifest
queued = record (new_data "w1" "c") {
  local_revision = 1;
  pending = record { op = op_upsert; path = "a.py"; hash = some "sha256:ff" } ∷ [];
}

abbrev queued_batch : SyncBatch
queued_batch = record {
  client_id = "c";
  base_revision = 0;
  client_revision = 1;
  files =
      record {
        path = "a.py";
        hash = "sha256:ff";
        size = 2;
        mtime_ms = 0;
        encoding = "utf-8";
        content = "hi";
      }
      ∷ [];
  deletes = [];
}

queued_next : next_batch disk queued 25 250 ≡ ok (some queued_batch)
unfolding next_batch fill wanted normalize_rel to_absolute sync_file hash_of size_of mtime_of get
queued_next = refl

next_batch-Fits_example :
    Fits disk 25 250 queued_batch.files queued_batch.deletes
    × (1 ≤ length queued_batch.files + length queued_batch.deletes)
next_batch-Fits_example = next_batch-Fits disk queued 25 250 queued_batch queued_next

abbrev strange : Manifest
strange = record (new_data "w1" "c") {
  pending = record { op = op_unknown; path = "a.py"; hash = none } ∷ [];
}

strange_next : next_batch disk strange 25 250 ≡ ok none
unfolding next_batch fill wanted normalize_rel
strange_next = refl

-- ===== src/Workspace/Snapshot/Types.antt =====
-- Records, errors and state of omnicode_core/workspace/snapshot_store.py.
use omnicode_mcp.Prelude.{ℕ, String, Bool, Option, none, List, []}
use omnicode_mcp.Prelude.Dict.{Dict}
use omnicode_mcp.Workspace.Path.{PathError}

-- What the store raises. `mirror_fault` stands for the two mirror errors of the store and for an
-- `OSError` of the file system, `index_corrupt` for an index file that is no JSON object, and
-- `unknown_encoding` for the `LookupError` of `str.encode`.
pub data MirrorFault : Type 0 where
  mirror_escapes mirror_symlink os_error : MirrorFault

pub data StoreError : Type 0 where
  workspace_id_empty workspace_id_invalid : StoreError
  bad_path : PathError → StoreError
  hash_mismatch size_mismatch unknown_encoding index_corrupt : StoreError
  mirror_fault : MirrorFault → StoreError
  indexed_exceeds_accepted : StoreError

pub record SnapshotRecord : Type 0 where
  pub path : String
  pub hash : String
  pub size : ℕ
  pub mtime_ms : ℕ
  pub encoding : String
  pub object_path : String
  pub revision : ℕ
  pub updated_at : String
  pub mirror_path : Option String

pub record Tombstone : Type 0 where
  pub path : String
  pub revision : ℕ
  pub deleted_at : String

-- The JSON object of index.json.
pub record Index : Type 0 where
  pub workspace_id : String
  pub latest_revision : ℕ
  pub accepted_revision : ℕ
  pub indexed_revision : ℕ
  pub semantic_index_coverage : Option String
  pub semantic_initial_exact_only : Bool
  pub files : Dict String SnapshotRecord
  pub deletes : Dict String Tombstone

-- The JSON object of status.json.
pub record Status : Type 0 where
  pub workspace_id : String
  pub latest_revision : ℕ
  pub accepted_revision : ℕ
  pub indexed_revision : ℕ
  pub semantic_index_coverage : String
  pub semantic_initial_exact_only : Bool
  pub file_count : ℕ
  pub delete_count : ℕ

pub data IndexFile : Type 0 where
  missing corrupt : IndexFile
  stored : Index → IndexFile

-- One workspace's directory. `ticks` counts the readings of the clock.
pub record WorkspaceDir : Type 0 where
  pub index_file : IndexFile
  pub status_file : Option Status
  pub objects : Dict String (List ℕ)
  pub mirror : Dict String (List ℕ)
  pub ticks : ℕ

abbrev pub empty_dir : WorkspaceDir
empty_dir = record {
  index_file = IndexFile.missing;
  status_file = none;
  objects = [];
  mirror = [];
  ticks = 0;
}

-- What the store calls and does not implement: SHA-256, the codecs, the clock, the answers of the
-- file system when a mirror file is written or removed, and the store's two settings.
pub record Host : Type 0 where
  pub sha256 : List ℕ → String
  pub encode : String → String → Option (List ℕ)
  pub decode : String → List ℕ → String
  pub utc_now : ℕ → String
  pub mirror_answer : List String → String → Option MirrorFault
  pub materialize_mirror : Bool

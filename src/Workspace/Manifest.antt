-- ===== src/Workspace/Manifest.antt =====
-- The local manifest of omnicode_core/workspace/manifest.py, and the paths of
-- omnicode_core/workspace/local.py that it works on.
pub mod Consistent
use omnicode_mcp.Prelude.{
  ℕ, ◌+◌, String, Bool, true, false, not, ◌&&◌, ◌||◌, Option, none, some, List, [], ◌∷◌, ◌++◌,
  length, take, keep, any, ltb, if◌then◌else◌,
}
use omnicode_mcp.Prelude.Eq.{◌==◌, string_eq, nat_eq}
use omnicode_mcp.Prelude.Dict.{Dict, get, has, put, pop}
use omnicode_mcp.Prelude.Result.{Result, ok, raise}
use omnicode_mcp.Prelude.Exec.{Exec, pure, lift, gets, guard, modify, ◌>>=◌, ◌>>◌}
use omnicode_mcp.Prelude.Text.{
  strip, rstrip_char, replace_char, is_empty, has_prefix, ends_with_char, ◌+++◌,
}
use omnicode_mcp.Workspace.Path.{PathError, path_escapes, normalize_rel, slash, backslash}

-- What is at a path of the workspace.
pub data Entry : Type 0 where
  absent not_file : Entry
  regular : List ℕ → ℕ → Entry

-- A path as `Path(path).expanduser()` takes it: relative, or absolute and below the root or not.
pub data Location : Type 0 where
  relative outside : Location
  inside : String → Location

-- What the code calls and does not implement: path resolution, the files, SHA-256 (with its prefix),
-- the codec and the clock.
pub record Local : Type 0 where
  pub locate : String → Location
  pub resolves_inside : String → Bool
  pub look : String → Entry
  pub sha256_bytes : List ℕ → String
  pub decode : List ℕ → String
  pub encoded_length : String → ℕ
  pub utc_now : String

-- `to_relative`
unfoldable pub to_relative : Local → String → Result PathError String
to_relative local path = elim (local.locate path) [
  | relative ↦ normalize_rel path
  | inside rel ↦ normalize_rel rel
  | outside ↦ raise path_escapes
]

-- The entry at `to_absolute(rel)`.
unfoldable pub to_absolute : Local → String → Result PathError String
to_absolute local rel_path = elim (normalize_rel rel_path) [
  | ok rel ↦ if local.resolves_inside rel then ok rel else raise path_escapes
  | raise e ↦ raise e
]

pub record FileMeta : Type 0 where
  pub hash : String
  pub size : ℕ
  pub mtime_ms : ℕ
  pub last_uploaded_revision : ℕ
  pub last_seen_at : String

pub data Op : Type 0 where
  op_upsert op_delete op_unknown : Op

pub record PendingItem : Type 0 where
  pub op : Op
  pub path : String
  pub hash : Option String

-- `LocalManifest.data`
pub record Manifest : Type 0 where
  pub workspace_id : String
  pub client_id : String
  pub local_revision : ℕ
  pub last_accepted_revision : ℕ
  pub last_indexed_revision : ℕ
  pub files : Dict String FileMeta
  pub pending : List PendingItem

-- `_new_data`
abbrev pub new_data : String → String → Manifest
new_data workspace_id client_id = record {
  workspace_id = workspace_id;
  client_id = client_id;
  local_revision = 0;
  last_accepted_revision = 0;
  last_indexed_revision = 0;
  files = [];
  pending = [];
}

pub record ManifestChange : Type 0 where
  pub op : Op
  pub path : String
  pub hash : Option String
  pub revision : ℕ

pub record Settings : Type 0 where
  pub max_file_bytes : ℕ
  pub ignore_paths : List String

-- One turn of the loop over the ignored paths.
unfoldable pub ignored_by : String → String → Bool
ignored_by rel raw =
    let prefix = strip (replace_char backslash slash raw) in
    if is_empty prefix
    then false
    else if ends_with_char slash prefix
    then (let bare = rstrip_char slash prefix in rel == bare || has_prefix rel (bare +++ "/"))
    else rel == prefix

unfoldable pub is_ignored : Settings → String → Result PathError Bool
is_ignored settings rel_path = elim (normalize_rel rel_path) [
  | ok rel ↦ ok (any (ignored_by rel) settings.ignore_paths)
  | raise e ↦ raise e
]

unfoldable pub replace_pending : PendingItem → List PendingItem → List PendingItem
unfolding keep
replace_pending op pending = keep (λ item. not (item.path == op.path)) pending ++ op ∷ []

abbrev pub ManifestM : Type 0 → Type 0
ManifestM A = Exec Manifest PathError A

-- `_next_revision` and `_replace_pending` on the manifest.
unfoldable pub queue_change : PendingItem → Dict String FileMeta → Manifest → Manifest
queue_change item files m = record m {
  local_revision = m.local_revision + 1;
  files = files;
  pending = replace_pending item m.pending;
}

abbrev pub change_of : PendingItem → ℕ → ManifestChange
change_of item revision = record {
  op = item.op;
  path = item.path;
  hash = item.hash;
  revision = revision;
}

unfoldable pub record_delete : String → Bool → ManifestM (Option ManifestChange)
record_delete rel force = do
  known ← gets (λ m. has m.files rel)
  if not known && not force then pure none else (do
    let item : PendingItem = record { op = op_delete; path = rel; hash = none }
    revision ← gets (λ m. m.local_revision + 1)
    modify (λ m. queue_change item (pop m.files rel) m)
    pure (some (change_of item revision)))

-- b"\x00" in content[:4096]
unfoldable pub has_nul : List ℕ → Bool
has_nul content = any (λ b. b == 0) (take 4096 content)

abbrev pub hash_is : String → Option FileMeta → Bool
hash_is digest none = false
hash_is digest (some meta) = meta.hash == digest

abbrev pub uploaded_revision : Option FileMeta → ℕ
uploaded_revision none = 0
uploaded_revision (some meta) = meta.last_uploaded_revision

abbrev pub seen_at : String → Option FileMeta → String → Dict String FileMeta → Dict String FileMeta
seen_at now none rel files = files
seen_at now (some meta) rel files = put files rel (record meta { last_seen_at = now })

-- The file is read: from the digest on.
unfoldable pub record_content :
    Local → String → Bool → List ℕ → ℕ → ManifestM (Option ManifestChange)
record_content local rel force content mtime_ms = do
  let digest = local.sha256_bytes content
  current ← gets (λ m. get m.files rel)
  if hash_is digest current && not force
      then (do
        modify (λ m. record m { files = seen_at local.utc_now current rel m.files })
        pure none)
      else (do
        let item : PendingItem = record { op = op_upsert; path = rel; hash = some digest }
        let meta : FileMeta = record {
          hash = digest;
          size = length content;
          mtime_ms = mtime_ms;
          last_uploaded_revision = uploaded_revision current;
          last_seen_at = local.utc_now;
        }
        revision ← gets (λ m. m.local_revision + 1)
        modify (λ m. queue_change item (put m.files rel meta) m)
        pure (some (change_of item revision)))

-- By what is at the path.
unfoldable pub record_entry :
    Local → Settings → String → Bool → Entry → ManifestM (Option ManifestChange)
record_entry local settings rel force absent = record_delete rel force
record_entry local settings rel force not_file = pure none
record_entry local settings rel force (regular content mtime_ms) =
    if ltb settings.max_file_bytes (length content) || has_nul content
    then pure none
    else record_content local rel force content mtime_ms

unfoldable pub mark_changed : Local → Settings → String → Bool → ManifestM (Option ManifestChange)
mark_changed local settings path force = do
  rel ← lift (to_relative local path)
  ignored ← lift (is_ignored settings rel)
  if ignored then pure none else (do
    target ← lift (to_absolute local rel)
    record_entry local settings rel force (local.look target))

-- ===== src/Edit/Patch.antt =====
-- `PatchManager` of omnicode_core/edit/patch.py: previews, edits with a snapshot, and rollbacks.
pub mod Newlines
pub mod Held
pub mod Rollback
pub mod Conflict
use Prim.Native.Char.{Char, code}
use omnicode_mcp.Prelude.{
  ℕ, zero, suc, ◌+◌, String, Bool, true, false, not, ◌&&◌, ◌||◌, Option, none, some, List, [], ◌∷◌,
  length, keep, leb, nat_beq, if◌then◌else◌,
}
use omnicode_mcp.Prelude.Eq.{◌==◌, string_eq, nat_eq}
use omnicode_mcp.Prelude.Dict.{Dict, get, put, pop}
use omnicode_mcp.Prelude.Text.{
  strip, replace_char, is_empty, starts_with_char, ends_with_char, rstrip_char, contains_char,
  has_prefix, ◌+++◌, prepend,
}
use omnicode_mcp.Prelude.Names.{mem}
use omnicode_mcp.Workspace.Path.{slash, backslash}
use omnicode_mcp.Edit.Lines.{take_chars, count_changes}
use omnicode_mcp.Edit.Folders.{before_slash, folders_for}
use omnicode_mcp.Prelude.Newlines.{universal_newlines}

-- What the code calls and does not implement: the codec, SHA-256 of a text, the clock, the n-th
-- uuid, and `difflib.unified_diff`, by the old text, the new text and the path.
pub record Host : Type 0 where
  pub working_dir : String
  pub decode_ignore : List ℕ → String
  pub decode : List ℕ → Option String
  pub encode : String → List ℕ
  pub sha256 : String → String
  pub now : ℕ → String
  pub uuid : ℕ → String
  pub unified_diff : String → String → String → String

pub record EditSession : Type 0 where
  pub session_id : String
  pub file_path : String
  pub timestamp : String
  pub original_hash : String
  pub new_hash : String
  pub diff : String
  pub lines_added : ℕ
  pub lines_removed : ℕ
  pub applied : Bool
  pub rolled_back : Bool
  pub source : String
  pub metadata : Dict String String

-- The payload of a preview's file.
pub record Baseline : Type 0 where
  pub file_path : String
  pub original_hash : String
  pub new_hash : String
  pub file_existed : Bool
  pub timestamp : String

-- The files that the code works on, by full path, and the three folders below `.data`, by id or key.
-- `count` counts the uuids, and `folders` has the folders that were made for files, each of which
-- stands for those above it too.
pub record Store : Type 0 where
  pub folders : List String
  pub disk : Dict String (List ℕ)
  pub snapshots : Dict String (List ℕ)
  pub sessions : Dict String EditSession
  pub previews : Dict String Baseline
  pub count : ℕ

-- What a `PatchResult` says.
pub data PatchResult : Type 0 where
  not_found no_changes : PatchResult
  preview : String → ℕ → ℕ → PatchResult
  conflict : String → String → PatchResult
  applied : String → String → ℕ → ℕ → PatchResult
  session_not_found already_rolled_back never_applied snapshot_missing unreadable_snapshot :
      PatchResult
  rolled_back : String → String → PatchResult

-- `_read`
unfoldable pub read : Host → List ℕ → String
read host bytes = universal_newlines (host.decode_ignore bytes)

-- `_resolve`
unfoldable pub resolve : Host → String → String
resolve host file_path =
    if starts_with_char slash file_path
    then file_path
    else if ends_with_char slash host.working_dir
    then host.working_dir +++ file_path
    else host.working_dir +++ "/" +++ file_path

unfoldable pub hash_text : Host → String → String
hash_text host text = take_chars 16 (host.sha256 text)

unfoldable pub preview_key : Host → String → String → String
preview_key host file_path new_content =
    host.sha256 (replace_char backslash slash file_path +++ "\0" +++ host.sha256 new_content)

-- The text of a file as `_read` gives it, or "" where there is none.
abbrev pub text_or_empty : Host → Option (List ℕ) → String
text_or_empty host none = ""
text_or_empty host (some bytes) = read host bytes

abbrev pub is_some : {A : Type 0} → Option A → Bool
is_some none = false
is_some (some a) = true

unfoldable pub record_preview_baseline : Host → String → String → Store → Store
record_preview_baseline host file_path new_content s =
    let found = get s.disk (resolve host file_path) in
    record s {
      previews = put s.previews (preview_key host file_path new_content) (record {
        file_path = file_path;
        original_hash = hash_text host (text_or_empty host found);
        new_hash = hash_text host new_content;
        file_existed = is_some found;
        timestamp = host.now s.count;
      });
    }

abbrev pub preview_result : Host → String → String → Option (List ℕ) → PatchResult
preview_result host file_path new_content none = not_found
preview_result host file_path new_content (some bytes) =
    let diff = host.unified_diff (read host bytes) new_content file_path in
    if is_empty (strip diff)
    then no_changes
    else preview diff (count_changes diff).0 (count_changes diff).1

unfoldable pub preview_patch : Host → String → String → Store → PatchResult × Store
preview_patch host file_path new_content s = (
  preview_result host file_path new_content (get s.disk (resolve host file_path)),
  record_preview_baseline host file_path new_content s,
)

-- The store as the conflict check of `apply_patch` finds it: the folder of a file that is not there
-- is made before.
unfoldable pub with_folder : Host → String → Store → Store
unfolding before_slash
with_folder host file_path s =
    let path = resolve host file_path in
    record s { folders = folders_for path (get s.disk path) s.folders }

-- `_preview_conflict`, by the baseline that was loaded
unfoldable pub preview_conflict : Host → String → Option Baseline → Option PatchResult
preview_conflict host current_content none = none
preview_conflict host current_content (some baseline) =
    let current = hash_text host current_content in
    if baseline.original_hash == current
    then none
    else some (conflict baseline.original_hash current)

-- The session that `apply_patch` records.
unfoldable pub new_session :
    Host → String → String → String → String → Dict String String → Store → EditSession
new_session host file_path original new_content source metadata s =
    let diff = host.unified_diff original new_content file_path in
    record {
      session_id = host.uuid s.count;
      file_path = file_path;
      timestamp = host.now s.count;
      original_hash = hash_text host original;
      new_hash = hash_text host new_content;
      diff = take_chars 10000 diff;
      lines_added = (count_changes diff).0;
      lines_removed = (count_changes diff).1;
      applied = true;
      rolled_back = false;
      source = source;
      metadata = metadata;
    }

-- `apply_patch` behind its conflict check: the snapshot, the file, the session and the baseline.
unfoldable pub write_patch :
    Host → String → String → String → String → Dict String String → Store → Store
write_patch host file_path original new_content source metadata s =
    let session = new_session host file_path original new_content source metadata s in
    record {
      folders = s.folders;
      snapshots = put s.snapshots session.session_id (host.encode original);
      disk = put s.disk (resolve host file_path) (host.encode new_content);
      sessions = put s.sessions session.session_id session;
      previews = pop s.previews (preview_key host file_path new_content);
      count = s.count + 1;
    }

abbrev pub finish_patch :
    Host
    → String
    → String
    → String
    → String
    → Dict String String
    → Store
    → Option PatchResult
    → PatchResult × Store
finish_patch host file_path original new_content source metadata s (some refused) = (refused, s)
finish_patch host file_path original new_content source metadata s none =
    let diff = host.unified_diff original new_content file_path in
    (
      applied (host.uuid s.count) diff (count_changes diff).0 (count_changes diff).1,
      write_patch host file_path original new_content source metadata s,
    )

unfoldable pub apply_patch :
    Host → String → String → String → Dict String String → Store → PatchResult × Store
unfolding with_folder
apply_patch host file_path new_content source metadata s =
    let original = text_or_empty host (get s.disk (resolve host file_path)) in
    finish_patch host file_path original new_content source metadata (with_folder host file_path s)
      (preview_conflict host original (get s.previews (preview_key host file_path new_content)))

-- The snapshot is read, the file is written, and the session is saved as rolled back.
abbrev pub restore_text : Host → String → EditSession → Store → Option String → PatchResult × Store
restore_text host session_id session s none = (unreadable_snapshot, s)
restore_text host session_id session s (some text) = (
  rolled_back session_id session.file_path,
  record s {
    disk = put s.disk (resolve host session.file_path) (host.encode (universal_newlines text));
    sessions = put s.sessions session.session_id (record session { rolled_back = true });
  },
)

abbrev pub restore_snapshot :
    Host → String → EditSession → Store → Option (List ℕ) → PatchResult × Store
restore_snapshot host session_id session s none = (snapshot_missing, s)
restore_snapshot host session_id session s (some bytes) =
    restore_text host session_id session s (host.decode bytes)

abbrev pub rollback_session : Host → String → Store → Option EditSession → PatchResult × Store
rollback_session host session_id s none = (session_not_found, s)
rollback_session host session_id s (some session) =
    if session.rolled_back
    then (already_rolled_back, s)
    else if not session.applied
    then (never_applied, s)
    else restore_snapshot host session_id session s (get s.snapshots session_id)

unfoldable pub rollback_patch : Host → String → Store → PatchResult × Store
rollback_patch host session_id s = rollback_session host session_id s (get s.sessions session_id)

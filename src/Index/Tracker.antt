-- ===== src/Index/Tracker.antt =====
-- `FileTracker` of omnicode_core/index/file_tracker.py, and `index_codebase` of
-- omnicode/search/engine.py, which brings a search index up to date by it. The table `file_state` is
-- a dictionary by path; modification times are numbers that are only compared. The folder is on a
-- POSIX host, and paths are relative to it.
pub mod Names
pub mod Walk
pub mod Loop
pub mod Found
pub mod Again
pub mod Gone
pub mod Changes
pub mod Retried
use omnicode_mcp.Prelude.{
  ℕ, ◌-◌, String, Bool, true, false, not, ◌&&◌, ◌||◌, Option, none, some, List, [], ◌∷◌, ◌++◌, keep,
  map, max, take, length, nat_beq, if◌then◌else◌,
}
use omnicode_mcp.Prelude.Eq.{◌==◌, string_eq}
use omnicode_mcp.Prelude.Dict.{Dict, get, put, pop, keys}
use omnicode_mcp.Prelude.Names.{mem}
use omnicode_mcp.Prelude.Text.{is_empty, ◌+++◌, starts_with_char, replace_char, lower}
use omnicode_mcp.Index.Tracker.Names.{extension, skip_dots, drop, norm_path}
use omnicode_mcp.Index.Tracker.Walk.{Stat, Disk, walk, hash_file, slashed}

pub data ChangeType : Type 0 where
  new modified deleted : ChangeType

pub record FileChange : Type 0 where
  pub path : String
  pub change_type : ChangeType
  pub mtime : ℕ
  pub size : ℕ
  pub content_hash : String

-- A row of `file_state`, behind its key `file_path`.
pub record FileRow : Type 0 where
  pub mtime : ℕ
  pub size : ℕ
  pub content_hash : String
  pub language : String
  pub last_indexed_at : ℕ

abbrev pub FileState : Type 0
FileState = Dict String FileRow

-- What the scan makes of one file.
pub data Seen : Type 0 where
  skipped : Seen
  touched : ℕ → Seen
  changed : FileChange → Seen

abbrev pub detected : Disk → String → ChangeType → Stat → FileChange
detected disk path kind found = record {
  path = slashed path;
  change_type = kind;
  mtime = found.st_mtime;
  size = found.st_size;
  content_hash = hash_file disk path;
}

abbrev pub compare_row : Disk → String → Stat → Option FileRow → Seen
compare_row disk path found none = changed (detected disk path new found)
compare_row disk path found (some row) =
    if nat_beq found.st_mtime row.mtime && nat_beq found.st_size row.size
    then skipped
    else if hash_file disk path == row.content_hash
    then touched found.st_mtime
    else changed (detected disk path modified found)

abbrev pub examine_found : Disk → FileState → String → Option Stat → Seen
examine_found disk known path none = skipped
examine_found disk known path (some found) = compare_row disk path found (get known (slashed path))

abbrev pub examine : Disk → FileState → String → Seen
examine disk known path = examine_found disk known path (disk.stat path)

-- UPDATE file_state SET mtime = ? WHERE file_path = ?
unfoldable pub set_mtime : String → ℕ → FileState → FileState
set_mtime path mtime [] = []
set_mtime path mtime ((k, row) ∷ rows) =
    let rest = set_mtime path mtime rows in
    if k == path then (k, record row { mtime = mtime }) ∷ rest else (k, row) ∷ rest

abbrev pub touch : Seen → String → FileState → FileState
touch skipped path state = state
touch (touched mtime) path state = set_mtime path mtime state
touch (changed change) path state = state

abbrev pub report : Seen → List FileChange
report skipped = []
report (touched mtime) = []
report (changed change) = change ∷ []

-- The loop over the files, with the rows that were loaded before it.
unfoldable pub scan : Disk → FileState → List String → FileState → List FileChange × FileState
scan disk known [] state = ([], state)
scan disk known (path ∷ paths) state =
    let seen = examine disk known path in
    let rest = scan disk known paths (touch seen (slashed path) state) in
    (report seen ++ rest.0, rest.1)

abbrev pub deletion : String → FileChange
deletion path = record {
  path = path;
  change_type = deleted;
  mtime = 0;
  size = 0;
  content_hash = "";
}

unfoldable pub detect_changes : Disk → FileState → List FileChange × FileState
unfolding scan keep walk
detect_changes disk state =
    let live_files = map slashed (walk disk) in
    let scanned = scan disk state (walk disk) state in
    (scanned.0 ++ map deletion (keep (λ path. not (mem path live_files)) (keys state)), scanned.1)

abbrev pub new_row : Disk → ℕ → String → String → Stat → FileRow
new_row disk now path content_hash found = record {
  mtime = found.st_mtime;
  size = found.st_size;
  content_hash = if is_empty content_hash then hash_file disk path else content_hash;
  language = skip_dots (lower (extension path));
  last_indexed_at = now;
}

abbrev pub mark_found : Disk → ℕ → String → String → FileState → Option Stat → FileState
mark_found disk now path content_hash state none = state
mark_found disk now path content_hash state (some found) =
    put state (slashed path) (new_row disk now path content_hash found)

unfoldable pub mark_indexed : Disk → ℕ → String → String → FileState → FileState
unfolding put hash_file extension skip_dots lower replace_char
mark_indexed disk now path content_hash state =
    mark_found disk now path content_hash state (disk.stat path)

unfoldable pub mark_deleted : String → FileState → FileState
unfolding pop replace_char
mark_deleted path state = pop state (slashed path)

unfoldable pub clear : FileState → FileState
clear state = []

abbrev pub latest : FileState → Option ℕ
latest [] = none
latest ((path, row) ∷ rows) = elim (latest rows) [
  | none ↦ some row.last_indexed_at
  | some time ↦ some (max row.last_indexed_at time)
]

-- The number of rows, and the last time that one was written.
unfoldable pub get_stats : FileState → ℕ × Option ℕ
get_stats state = (length state, latest state)

-- The search index: bringing one file up to date and deleting its chunks, and whether the call
-- returned.
pub record Indexer (V : Type 0) : Type 1 where
  pub update_file : String → V → Bool × V
  pub delete_by_file : String → V → Bool × V

-- The table, and the search index.
abbrev pub Tracked : Type 0 → Type 0
Tracked V = FileState × V

module _ {V : Type 0} (indexer : Indexer V) (disk : Disk) (now : ℕ) where
  -- The files of the index that go with a file that is gone.
  abbrev pub delete_both : String → V → Bool × V
  delete_both path index =
      let legacy = replace_char "/" "\\" path in
      let first = indexer.delete_by_file path index in
      if first.0 && not (legacy == path) then indexer.delete_by_file legacy first.1 else first

  -- The body of the `try`, by the normalised path: whether it returned, and what it wrote.
  abbrev pub remove_one : String → Tracked V → Bool × Tracked V
  remove_one path (state, index) =
      let run = delete_both path index in
      (run.0, ((if run.0 then mark_deleted path state else state), run.1))

  abbrev pub update_one : String → String → Tracked V → Bool × Tracked V
  update_one path hash (state, index) =
      let run = indexer.update_file path index in
      (run.0, ((if run.0 then mark_indexed disk now path hash state else state), run.1))

  abbrev pub index_one : ChangeType → String → String → Tracked V → Bool × Tracked V
  index_one deleted path hash = remove_one path
  index_one new path hash = update_one path hash
  index_one modified path hash = update_one path hash

  -- The loop over the changes, with those of them that are logged as failed.
  unfoldable pub index_all : List FileChange → Tracked V → List FileChange × Tracked V
  unfolding mark_indexed mark_deleted replace_char norm_path
  index_all [] s = ([], s)
  index_all (change ∷ changes) s =
      let run = index_one change.change_type (norm_path change.path) change.content_hash s in
      let rest = index_all changes run.1 in (if run.0 then rest.0 else change ∷ rest.0, rest.1)

  unfoldable pub index_codebase : Tracked V → List FileChange × Tracked V
  unfolding detect_changes index_all
  index_codebase (state, index) =
      let changes = detect_changes disk state in index_all changes.0 (changes.1, index)

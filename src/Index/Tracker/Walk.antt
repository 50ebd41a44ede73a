-- ===== src/Index/Tracker/Walk.antt =====
-- The disk that the tracker scans: `os.walk`, `os.stat` and `_hash_file` of
-- omnicode_core/index/file_tracker.py.
use omnicode_mcp.Prelude.{
  ℕ, ◌-◌, String, Bool, ◌||◌, Option, none, some, List, [], ◌∷◌, ◌++◌, keep, map, take, length,
  nat_beq, if◌then◌else◌,
}
use omnicode_mcp.Prelude.Names.{mem}
use omnicode_mcp.Prelude.Text.{is_empty, ◌+++◌, starts_with_char, replace_char, lower}
use omnicode_mcp.Index.Tracker.Names.{extension, skip_dots, drop}

abbrev pub indexable_extensions : List String
indexable_extensions =
    ".py" ∷ ".js" ∷ ".ts" ∷ ".jsx" ∷ ".tsx" ∷ ".cpp" ∷ ".h" ∷ ".cc" ∷ ".c" ∷ ".cxx" ∷ ".hpp" ∷ ".hh"
    ∷ ".java" ∷ ".go" ∷ ".rs" ∷ []

abbrev pub skip_dirs : List String
skip_dirs =
    ".git" ∷ "__pycache__" ∷ "node_modules" ∷ ".venv" ∷ "venv" ∷ "build" ∷ "dist" ∷ ".data"
    ∷ ".codebase" ∷ ".mypy_cache" ∷ ".ruff_cache" ∷ ".pytest_cache" ∷ "env" ∷ ".tox" ∷ ".eggs" ∷ []

pub record Stat : Type 0 where
  pub st_mtime : ℕ
  pub st_size : ℕ

-- The folders in a folder, in the order of `os.walk`: the name of the first one, its files, its
-- folders, and then the other folders.
pub data Folders : Type 0 where
  none_left : Folders
  folder : String → List String → Folders → Folders → Folders

-- The working directory: the files and folders in it, `os.stat` and the bytes of a file by its path,
-- each of which may fail, and SHA-256.
pub record Disk : Type 0 where
  pub files : List String
  pub folders : Folders
  pub stat : String → Option Stat
  pub content : String → Option (List ℕ)
  pub sha256 : List ℕ → String

-- os.path.join behind a prefix that is empty for the working directory
abbrev pub join_path : String → String → String
join_path root name = if is_empty root then name else root +++ "/" +++ name

abbrev pub skips_dir : String → Bool
skips_dir name = mem name skip_dirs || starts_with_char "." name

unfoldable pub indexed_files : String → List String → List String
unfolding keep extension lower skip_dots
indexed_files root names =
    map (join_path root) (keep (λ name. mem (lower (extension name)) indexable_extensions) names)

unfoldable pub walk_folders : String → Folders → List String
unfolding indexed_files
walk_folders root none_left = []
walk_folders root (folder name files inner others) =
    let rest = walk_folders root others in
    let path = join_path root name in
    let below = walk_folders path inner in
    if skips_dir name then rest else indexed_files path files ++ below ++ rest

-- The paths of the files that the scan comes to.
unfoldable pub walk : Disk → List String
unfolding walk_folders indexed_files
walk disk = indexed_files "" disk.files ++ walk_folders "" disk.folders

-- 512 * 1024
abbrev head_bytes : ℕ
head_bytes = 524288

abbrev pub hashed_bytes : List ℕ → List ℕ
hashed_bytes bytes =
    let head = take head_bytes bytes in
    if nat_beq (length head) head_bytes then head ++ drop (length bytes - 65536) bytes else head

unfoldable pub hash_file : Disk → String → String
unfolding drop
hash_file disk path = elim (disk.content path) [
  | none ↦ ""
  | some bytes ↦ disk.sha256 (hashed_bytes bytes)
]

abbrev pub slashed : String → String
slashed = replace_char "\\" "/"

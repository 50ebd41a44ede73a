-- ===== src/Examples/Tracker.antt =====
-- A folder with a changed, an unchanged, a failing and a deleted file, and some that are left out.
use omnicode_mcp.Prelude.{ℕ, ◌≡◌, refl, some, String, true, not, List, [], ◌∷◌, keep}
use omnicode_mcp.Prelude.Eq.{◌==◌, string_eq}
use omnicode_mcp.Prelude.Dict.{get, put, pop}
use omnicode_mcp.Prelude.Text.{lower, replace_char, split}
use omnicode_mcp.Index.Tracker.Names.{
  drop, skip_dots, from_last_dot, extension, skip_here, norm_path,
}
use omnicode_mcp.Index.Tracker.Walk.{
  none_left, folder, Disk, indexed_files, walk_folders, walk, hash_file,
}
use omnicode_mcp.Index.Tracker.{
  FileRow, FileState, Indexer, set_mtime, scan, detect_changes, mark_indexed, mark_deleted,
  index_all, index_codebase,
}
use omnicode_mcp.Index.Tracker.Loop.{paths_of}
use omnicode_mcp.Index.Tracker.Retried.{detect_changes-index_codebase}

abbrev pub disk : Disk
disk = record {
  files = "a.py" ∷ "notes.md" ∷ ".py" ∷ [];
  folders = folder ".git" ("hook.py" ∷ []) none_left (
      folder "src" ("c.PY" ∷ "d.rs" ∷ []) (folder "venv" ("e.py" ∷ []) none_left none_left)
        none_left);
  stat = λ path. some (record { st_mtime = 2; st_size = 5 });
  content = λ path. some (1 ∷ 2 ∷ []);
  sha256 = λ bytes. "digest";
}

abbrev pub row : ℕ → String → FileRow
row mtime hash = record {
  mtime = mtime;
  size = 5;
  content_hash = hash;
  language = "py";
  last_indexed_at = 0;
}

abbrev pub state : FileState
state = ("a.py", row 1 "other") ∷ ("src/d.rs", row 1 "digest") ∷ ("gone.py", row 1 "digest") ∷ []

-- The second file cannot be indexed.
abbrev indexer : Indexer (List String)
indexer = record {
  update_file = λ path index. (not (path == "src/c.PY"), path ∷ index);
  delete_by_file = λ path index. (true, keep (λ p. not (p == path)) index);
}

walked : walk disk ≡ "a.py" ∷ "src/c.PY" ∷ "src/d.rs" ∷ []
unfolding walk walk_folders indexed_files keep extension from_last_dot skip_dots split lower
walked = refl

first_run : paths_of (detect_changes disk state).0 ≡ "a.py" ∷ "src/c.PY" ∷ "gone.py" ∷ []
unfolding detect_changes scan walk walk_folders indexed_files keep extension from_last_dot skip_dots
    split lower replace_char hash_file set_mtime get drop
first_run = refl

logged : paths_of (index_codebase indexer disk 9 (state, [])).0 ≡ "src/c.PY" ∷ []
unfolding index_codebase index_all detect_changes scan walk walk_folders indexed_files keep
    extension from_last_dot skip_dots split lower replace_char hash_file set_mtime get put pop drop
    mark_indexed mark_deleted skip_here norm_path
logged = refl

detect_changes-index_codebase_example :
    (detect_changes disk (index_codebase indexer disk 9 (state, [])).1.0).0
    ≡ (index_codebase indexer disk 9 (state, [])).0
unfolding walk walk_folders indexed_files keep extension from_last_dot skip_dots split lower
    replace_char skip_here norm_path
detect_changes-index_codebase_example =
    detect_changes-index_codebase indexer disk 9 (state, [])
      ((refl, refl), ((refl, refl), ((refl, refl), tt))) (refl, (refl, (refl, tt)))
      ((refl, refl), ((refl, refl), ((refl, refl), tt))) (refl, (refl, (refl, tt)))

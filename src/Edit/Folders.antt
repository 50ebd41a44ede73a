-- ===== src/Edit/Folders.antt =====
-- The folders of the files that omnicode_core/edit/patch.py writes.

use omnicode_mcp.Prelude.{ℕ, String, Option, none, some, List, ◌∷◌, if◌then◌else◌}
use omnicode_mcp.Prelude.Eq.{string_eq}
use omnicode_mcp.Prelude.Names.{mem}
use omnicode_mcp.Prelude.Text.{is_empty, rstrip_char, contains_char}
use omnicode_mcp.Workspace.Path.{slash}

-- The part of a path before its last slash.
unfoldable pub before_slash : String → String
before_slash String.[] = String.[]
before_slash (String.◌∷◌ c path) =
    let rest = before_slash path in
    if contains_char slash path then String.◌∷◌ c rest else String.[]

-- `os.path.dirname` of an absolute path
abbrev pub dirname : String → String
dirname path =
    let head = rstrip_char slash (before_slash path) in if is_empty head then "/" else head

-- The folders behind `os.makedirs` with `exist_ok`.
abbrev pub makedirs : String → List String → List String
makedirs folder folders = if mem folder folders then folders else folder ∷ folders

abbrev pub folders_for : String → Option (List ℕ) → List String → List String
folders_for path none folders = makedirs (dirname path) folders
folders_for path (some bytes) folders = folders

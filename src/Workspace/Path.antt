-- ===== src/Workspace/Path.antt =====
-- Workspace-relative paths: `normalize_snapshot_path` of omnicode_core/workspace/snapshot_store.py
-- and `normalize_rel` of omnicode_core/workspace/local.py, on a POSIX host.
pub mod Normal
pub mod Drift
use Prim.Native.Char.{Char}
use omnicode_mcp.Prelude.{String, Bool, ◌||◌, not, List, [], ◌∷◌, keep, if◌then◌else◌}
use omnicode_mcp.Prelude.Eq.{◌==◌, string_eq}
use omnicode_mcp.Prelude.Result.{Result, ok, raise, ◌>>=◌, ◌>>◌, raise_if}
use omnicode_mcp.Prelude.Text.{strip, replace_char, is_empty, starts_with_char, split, join}

pub data PathError : Type 0 where
  path_empty path_absolute path_escapes path_root : PathError

abbrev pub slash : Char
slash = "/"

abbrev pub backslash : Char
backslash = "\\"

-- part in ("", ".")
abbrev pub is_noise : String → Bool
is_noise part = part == "" || part == "."

-- PurePosixPath(raw).parts of a relative path
unfoldable pub posix_parts : String → List String
unfolding keep split
posix_parts raw = keep (λ part. not (is_noise part)) (split slash raw)

-- The loop over the parts.
unfoldable pub collect : List String → Result PathError (List String)
collect [] = ok []
collect (part ∷ parts) =
    let rest = collect parts in
    if is_noise part
    then rest
    else if part == ".."
    then raise path_escapes
    else do ps ← rest; ok (part ∷ ps)

abbrev pub join_parts : List String → Result PathError String
join_parts [] = raise path_root
join_parts (part ∷ parts) = ok (join slash (part ∷ parts))

unfoldable pub normalize_snapshot_path : String → Result PathError String
unfolding strip replace_char posix_parts collect join
normalize_snapshot_path path = do
  let raw = replace_char backslash slash (strip path)
  raise_if (is_empty raw) path_empty
  raise_if (starts_with_char slash raw) path_absolute
  parts ← collect (posix_parts raw)
  join_parts parts

unfoldable pub normalize_rel : String → Result PathError String
unfolding strip replace_char posix_parts collect join
normalize_rel path = do
  raise_if (is_empty (strip path)) path_empty
  let raw = replace_char backslash slash (strip path)
  raise_if (starts_with_char slash raw) path_absolute
  parts ← collect (posix_parts raw)
  join_parts parts

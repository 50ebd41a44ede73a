-- ===== src/Workspace/Registry.antt =====
-- `WorkspaceRegistry` of omnicode_core/workspace/registry.py: the bookmarks of workspaces in one JSON
-- file, one of them active. A list that was loaded is changed in place and saved as a whole, so a
-- call that saves nothing leaves the file as it was. One call is one step, as the lock makes it.
pub mod Lists
pub mod Single
use omnicode_mcp.Prelude.{
  ℕ, zero, suc, ◌+◌, String, Bool, true, false, not, ◌&&◌, ◌||◌, Option, none, some, List, [], ◌∷◌,
  ◌++◌, keep, any, map, length, nat_beq, if◌then◌else◌,
}
use omnicode_mcp.Prelude.Eq.{◌==◌, string_eq}
use omnicode_mcp.Prelude.Result.{Result, ok, raise}
use omnicode_mcp.Prelude.Text.{is_empty, ◌+++◌}
use omnicode_mcp.Workspace.Snapshot.{StoreError, validate_workspace_id}

pub record Workspace : Type 0 where
  pub id : String
  pub name : String
  pub path : String
  pub created_at : ℕ
  pub active : Bool

-- The store file: not there, not readable, or the entries that it has.
pub data StoreFile : Type 0 where
  missing unreadable : StoreFile
  stored : List Workspace → StoreFile

abbrev pub load : StoreFile → List Workspace
load missing = []
load unreadable = []
load (stored items) = items

pub data RegistryError : Type 0 where
  not_a_directory : String → RegistryError
  invalid_id : StoreError → RegistryError
  id_exists path_registered : String → RegistryError

-- The file system: the resolved path and whether it is a directory, and the last part of a path.
pub record Host : Type 0 where
  pub resolve : String → String
  pub is_dir : String → Bool
  pub base_name : String → String

abbrev pub first_with : (Workspace → Bool) → List Workspace → Option Workspace
first_with test [] = none
first_with test (w ∷ items) = let rest = first_with test items in if test w then some w else rest

unfoldable pub get : String → StoreFile → Option Workspace
get workspace_id file = first_with (λ w. w.id == workspace_id) (load file)

unfoldable pub get_active : StoreFile → Option Workspace
get_active file = first_with (λ w. w.active) (load file)

-- for w in items: w.active = (w.id == id)
abbrev pub activate : String → List Workspace → List Workspace
activate workspace_id = map (λ (w : Workspace). record w { active = w.id == workspace_id })

abbrev pub deactivate_all : List Workspace → List Workspace
deactivate_all = map (λ (w : Workspace). record w { active = false })

-- `_validate_workspace_id(workspace_id) if workspace_id else None`; the check is that of the snapshot
-- store, word for word.
abbrev pub checked_id : Result StoreError String → Result RegistryError (Option String)
checked_id (ok workspace_id) = ok (some workspace_id)
checked_id (raise e) = raise (invalid_id e)

abbrev pub explicit_id : Option String → Result RegistryError (Option String)
explicit_id none = ok none
explicit_id (some workspace_id) =
    if is_empty workspace_id then ok none else checked_id (validate_workspace_id workspace_id)

abbrev pub has_id : Option String → Workspace → Bool
has_id none w = true
has_id (some workspace_id) w = w.id == workspace_id

-- Another path has the explicit id.
abbrev pub is_taken : Option String → String → List Workspace → Bool
is_taken none abs_path items = false
is_taken (some workspace_id) abs_path items =
    any (λ w. w.id == workspace_id && not (w.path == abs_path)) items

abbrev pub id_or : Option String → String → String
id_or none fresh = fresh
id_or (some workspace_id) fresh = workspace_id

-- The end of `add`, by the entry that has the path, with the id and the time of a new entry.
abbrev pub add_entry :
    Host
    → String
    → String
    → Bool
    → Option String
    → String
    → ℕ
    → List Workspace
    → StoreFile
    → Option Workspace
    → Result RegistryError Workspace × StoreFile
add_entry host name abs_path set_active explicit fresh now items file (some w) =
    if not (has_id explicit w)
    then (raise (path_registered w.id), file)
    else if set_active
    then (ok (record w { active = true }), stored (activate w.id items))
    else (ok w, file)
add_entry host name abs_path set_active explicit fresh now items file none =
    let new : Workspace = record {
      id = id_or explicit fresh;
      name = if is_empty name then host.base_name abs_path else name;
      path = abs_path;
      created_at = now;
      active = set_active;
    } in
    (ok new, stored ((if set_active then deactivate_all items else items) ++ new ∷ []))

abbrev pub add_checked :
    Host
    → String
    → String
    → Bool
    → String
    → ℕ
    → StoreFile
    → Result RegistryError (Option String)
    → Result RegistryError Workspace × StoreFile
add_checked host name abs_path set_active fresh now file (raise e) = (raise e, file)
add_checked host name abs_path set_active fresh now file (ok explicit) =
    if is_taken explicit abs_path (load file)
    then (raise (id_exists (id_or explicit fresh)), file)
    else add_entry host name abs_path set_active explicit fresh now (load file) file
        (first_with (λ w. w.path == abs_path) (load file))

-- `fresh` is the id that `uuid4` makes.
unfoldable pub add :
    Host
    → String
    → String
    → Bool
    → Option String
    → String
    → ℕ
    → StoreFile
    → Result RegistryError Workspace × StoreFile
add host name path set_active workspace_id fresh now file =
    let abs_path = host.resolve path in
    if not (host.is_dir abs_path)
    then (raise (not_a_directory abs_path), file)
    else add_checked host name abs_path set_active fresh now file (explicit_id workspace_id)

abbrev pub activate_first : List Workspace → List Workspace
activate_first [] = []
activate_first (w ∷ items) = record w { active = true } ∷ items

unfoldable pub remove : String → StoreFile → Bool × StoreFile
remove workspace_id file =
    let kept = keep (λ w. not (w.id == workspace_id)) (load file) in
    if nat_beq (length kept) (length (load file))
    then (false, file)
    else (true, stored (if any (λ w. w.active) kept then kept else activate_first kept))

abbrev pub last_with : (Workspace → Bool) → List Workspace → Option Workspace
last_with test [] = none
last_with test (w ∷ items) = elim (last_with test items) [
  | some later ↦ some later
  | none ↦ if test w then some w else none
]

abbrev pub saved_if : Option Workspace → List Workspace → StoreFile → Option Workspace × StoreFile
saved_if none items file = (none, file)
saved_if (some target) items file = (some target, stored items)

unfoldable pub set_active : String → StoreFile → Option Workspace × StoreFile
set_active workspace_id file =
    let items = activate workspace_id (load file) in
    saved_if (last_with (λ w. w.active) items) items file

-- The first entry with the id gets the name.
unfoldable pub rename_first : String → String → List Workspace → List Workspace
rename_first workspace_id name [] = []
rename_first workspace_id name (w ∷ items) =
    let rest = rename_first workspace_id name items in
    if w.id == workspace_id then record w { name = name } ∷ items else w ∷ rest

unfoldable pub rename : String → String → StoreFile → Option Workspace × StoreFile
rename workspace_id name file =
    let items = rename_first workspace_id name (load file) in
    saved_if (first_with (λ w. w.id == workspace_id) items) items file

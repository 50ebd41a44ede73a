-- ===== src/Workspace/Registry/Single.antt =====
-- At most one workspace is active, along any calls.
use omnicode_mcp.Prelude.{
  ℕ, ◌+◌, ◌≤◌, ◌≡◌, refl, sym, ap, subst, ◌∙◌, inl, inr, String, Bool, true, false, not, Bool-cases,
  if_either, Option, none, some, List, [], ◌∷◌, ◌++◌, keep, any, length, nat_beq, arith,
  if◌then◌else◌,
}
use omnicode_mcp.Prelude.Eq.{◌==◌, string_eq}
use omnicode_mcp.Prelude.Result.{Result, ok, raise}
use omnicode_mcp.Prelude.Names.{mem, NoRepeat}
use omnicode_mcp.Workspace.Registry.{
  Workspace, StoreFile, load, RegistryError, Host, first_with, activate, deactivate_all,
  explicit_id, has_id, is_taken, id_or, add_entry, add_checked, add, activate_first, remove,
  saved_if, set_active, rename_first, rename,
}
use omnicode_mcp.Workspace.Registry.Lists.{
  ids, paths, active_count, ids-activate, paths-activate, ids-deactivate_all, paths-deactivate_all,
  count-deactivate_all, count-activate, count-append, count-keep-le, NoRepeat-map-keep,
  NoRepeat-map-snoc, ids-rename_first, paths-rename_first, count-rename_first, path_absent,
  id_absent, ids-activate_first, paths-activate_first, count-activate_first,
}

-- Ids and paths stand once each, and at most one entry is active.
pub record IsRegistry (items : List Workspace) : Type 0 where
  pub ids_once : NoRepeat (ids items)
  pub paths_once : NoRepeat (paths items)
  pub single : active_count items ≤ 1

abbrev Keeps : {R : Type 0} → R × StoreFile → Type 0
Keeps out = IsRegistry (load out.1)

same_names :
    (items new : List Workspace)
    → ids new ≡ ids items
    → paths new ≡ paths items
    → active_count new ≤ 1
    → IsRegistry items
    → IsRegistry new
same_names items new i p c h = record {
  ids_once = subst NoRepeat (sym i) h.ids_once;
  paths_once = subst NoRepeat (sym p) h.paths_once;
  single = c;
}

activate-IsRegistry :
    (k : String) (items : List Workspace) → IsRegistry items → IsRegistry (activate k items)
activate-IsRegistry k items h =
    same_names items _ (ids-activate k items) (paths-activate k items)
      (ground (arith, count-activate k items h.ids_once)) h

snoc-IsRegistry :
    (items : List Workspace) (w : Workspace)
    → IsRegistry items
    → mem w.id (ids items) ≡ false
    → mem w.path (paths items) ≡ false
    → active_count items + active_count (w ∷ []) ≤ 1
    → IsRegistry (items ++ w ∷ [])
snoc-IsRegistry items w h id_new path_new c = record {
  ids_once = NoRepeat-map-snoc (λ v. v.id) items w h.ids_once id_new;
  paths_once = NoRepeat-map-snoc (λ v. v.path) items w h.paths_once path_new;
  single = omega (arith, count-append items (w ∷ []), c);
}

deactivate-IsRegistry :
    (items : List Workspace) → IsRegistry items → IsRegistry (deactivate_all items)
deactivate-IsRegistry items h =
    same_names items _ (ids-deactivate_all items) (paths-deactivate_all items)
      (omega (arith, count-deactivate_all items)) h

module _ (host : Host) (name abs_path : String) (fresh : String) (now : ℕ) (file : StoreFile)
    (h : IsRegistry (load file)) (is_fresh : mem fresh (ids (load file)) ≡ false) where
  id_new :
      (explicit : Option String)
      → mem abs_path (paths (load file)) ≡ false
      → is_taken explicit abs_path (load file) ≡ false
      → mem (id_or explicit fresh) (ids (load file)) ≡ false
  id_new none absent free = is_fresh
  id_new (some k) absent free = id_absent k abs_path (load file) absent free

  entry-Keeps :
      (active : Bool) (explicit : Option String) (found : Option Workspace)
      → first_with (λ w. w.path == abs_path) (load file) ≡ found
      → is_taken explicit abs_path (load file) ≡ false
      → Keeps (add_entry host name abs_path active explicit fresh now (load file) file found)
  entry-Keeps active explicit (some w) e free =
      if_either (Keeps {R = Result RegistryError Workspace}) (not (has_id explicit w)) _ _ h (
        if_either (Keeps {R = Result RegistryError Workspace}) active _ _
          (activate-IsRegistry w.id (load file) h) h)
  entry-Keeps true explicit none e free =
      let absent = path_absent abs_path (load file) e in
      snoc-IsRegistry (deactivate_all (load file)) _ (deactivate-IsRegistry (load file) h)
        (ap (mem (id_or explicit fresh)) (ids-deactivate_all (load file))
          ∙ id_new explicit absent free)
        (ap (mem abs_path) (paths-deactivate_all (load file)) ∙ absent)
        (omega (arith, count-deactivate_all (load file)))
  entry-Keeps false explicit none e free =
      let absent = path_absent abs_path (load file) e in
      snoc-IsRegistry (load file) _ h (id_new explicit absent free) absent (omega (arith, h.single))

  checked-Keeps :
      (active : Bool) (explicit : Result RegistryError (Option String))
      → Keeps (add_checked host name abs_path active fresh now file explicit)
  checked-Keeps active (raise e) = h
  checked-Keeps active (ok explicit) = elim (Bool-cases (is_taken explicit abs_path (load file))) [
    | inl taken ↦ rw taken h
    | inr free ↦ rw free (entry-Keeps active explicit _ refl free)
  ]

add-Keeps :
    (host : Host) (name path : String) (active : Bool) (workspace_id : Option String)
    (fresh : String) (now : ℕ) (file : StoreFile)
    → IsRegistry (load file)
    → mem fresh (ids (load file)) ≡ false
    → Keeps (add host name path active workspace_id fresh now file)
unfolding add
add-Keeps host name path active workspace_id fresh now file h is_fresh =
    if_either (Keeps {R = Result RegistryError Workspace}) (not (host.is_dir (host.resolve path))) _
      _ h
      (checked-Keeps host name (host.resolve path) fresh now file h is_fresh active
        (explicit_id workspace_id))

keep-IsRegistry :
    (p : Workspace → Bool) (items : List Workspace) → IsRegistry items → IsRegistry (keep p items)
keep-IsRegistry p items h = record {
  ids_once = NoRepeat-map-keep (λ v. v.id) p items h.ids_once;
  paths_once = NoRepeat-map-keep (λ v. v.path) p items h.paths_once;
  single = omega (arith, count-keep-le p items, h.single);
}

promote-IsRegistry :
    (items : List Workspace)
    → IsRegistry items
    → IsRegistry (if any (λ w. w.active) items then items else activate_first items)
promote-IsRegistry items h = elim (Bool-cases (any (λ w. w.active) items)) [
  | inl some_active ↦ rw some_active h
  | inr none_active ↦ rw none_active (
      same_names items _ (ids-activate_first items) (paths-activate_first items)
        (count-activate_first items none_active) h)
]

remove-Keeps : (k : String) (file : StoreFile) → IsRegistry (load file) → Keeps (remove k file)
unfolding remove
remove-Keeps k file h =
    let p = λ (w : Workspace). not (w.id == k) in
    if_either (Keeps {R = Bool}) (nat_beq (length (keep p (load file))) (length (load file))) _ _ h
      (promote-IsRegistry (keep p (load file)) (keep-IsRegistry p (load file) h))

saved_if-Keeps :
    (target : Option Workspace) (items : List Workspace) (file : StoreFile)
    → IsRegistry items
    → IsRegistry (load file)
    → Keeps (saved_if target items file)
saved_if-Keeps none items file new old = old
saved_if-Keeps (some w) items file new old = new

set_active-Keeps :
    (k : String) (file : StoreFile) → IsRegistry (load file) → Keeps (set_active k file)
unfolding set_active
set_active-Keeps k file h =
    saved_if-Keeps _ (activate k (load file)) file (activate-IsRegistry k (load file) h) h

rename-Keeps :
    (k name : String) (file : StoreFile) → IsRegistry (load file) → Keeps (rename k name file)
unfolding rename
rename-Keeps k name file h =
    saved_if-Keeps _ (rename_first k name (load file)) file
      (same_names (load file) _ (ids-rename_first k name (load file))
        (paths-rename_first k name (load file))
        (omega (arith, count-rename_first k name (load file), h.single)) h)
      h

-- The files that calls lead to, from one with no entries; an id that is made is new.
pub data Reach (host : Host) : StoreFile → Type 0 where
  begun : (file : StoreFile) → load file ≡ [] → Reach host file
  added :
      (name path : String) (active : Bool) (workspace_id : Option String) (fresh : String) (now : ℕ)
      (file after : StoreFile)
      → Reach host file
      → mem fresh (ids (load file)) ≡ false
      → (add host name path active workspace_id fresh now file).1 ≡ after
      → Reach host after
  removed :
      (k : String) (file after : StoreFile)
      → Reach host file
      → (remove k file).1 ≡ after
      → Reach host after
  activated :
      (k : String) (file after : StoreFile)
      → Reach host file
      → (set_active k file).1 ≡ after
      → Reach host after
  renamed :
      (k name : String) (file after : StoreFile)
      → Reach host file
      → (rename k name file).1 ≡ after
      → Reach host after

-- Along any calls, refused ones included: no id and no path stands twice in the registry, and at most
-- one workspace is active.
pub reachable-IsRegistry :
    (host : Host) (file : StoreFile) → Reach host file → IsRegistry (load file)
reachable-IsRegistry host _ (begun file e) =
    subst IsRegistry (sym e) (record { ids_once = tt; paths_once = tt; single = omega arith })
reachable-IsRegistry host _
      (added name path active workspace_id fresh now file after r is_fresh e) =
    subst (λ f. IsRegistry (load f)) e
      (add-Keeps host name path active workspace_id fresh now file
        (reachable-IsRegistry host file r) is_fresh)
reachable-IsRegistry host _ (removed k file after r e) =
    subst (λ f. IsRegistry (load f)) e (remove-Keeps k file (reachable-IsRegistry host file r))
reachable-IsRegistry host _ (activated k file after r e) =
    subst (λ f. IsRegistry (load f)) e (set_active-Keeps k file (reachable-IsRegistry host file r))
reachable-IsRegistry host _ (renamed k name file after r e) =
    subst (λ f. IsRegistry (load f)) e (rename-Keeps k name file (reachable-IsRegistry host file r))

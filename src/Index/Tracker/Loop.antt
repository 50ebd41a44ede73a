-- ===== src/Index/Tracker/Loop.antt =====
-- What the loop over the changes leaves in the table: the changes that failed are as they were.
use omnicode_mcp.Prelude.{
  ℕ, String, Bool, true, false, Option, none, some, List, [], ◌∷◌, keep, map, All, Bool-cases,
  if◌then◌else◌, ◌≡◌, refl, sym, ap, subst, ◌∙◌, inl, inr, arith,
}
use omnicode_mcp.Prelude.Eq.{◌==◌, string_eq, beq_refl, eq_of_beq}
use omnicode_mcp.Prelude.Dict.{get, get-put, get-pop}
use omnicode_mcp.Prelude.Names.{mem, NoRepeat}
use omnicode_mcp.Index.Tracker.Names.{norm_path}
use omnicode_mcp.Index.Tracker.Walk.{Disk, slashed, Stat}
use omnicode_mcp.Index.Tracker.{
  ChangeType, new, modified, deleted, FileChange, FileRow, FileState, Indexer, new_row, mark_found,
  mark_indexed, mark_deleted, Tracked, index_one, index_all, delete_both,
}

-- A path that `_norm_path` leaves alone.
abbrev pub IsNormal : String → Type 0
IsNormal path = (slashed path ≡ path) × (norm_path path ≡ path)

abbrev pub paths_of : List FileChange → List String
paths_of = map (λ (change : FileChange). change.path)

abbrev pub change_at : List FileChange → String → Option FileChange
change_at [] j = none
change_at (change ∷ changes) j = if change.path == j then some change else change_at changes j

pub change_at_absent :
    (changes : List FileChange) (j : String)
    → mem j (paths_of changes) ≡ false
    → change_at changes j ≡ none
change_at_absent [] j h = refl
change_at_absent (change ∷ changes) j h = ground (arith, h, change_at_absent changes j)

module _ (disk : Disk) (now : ℕ) where
  abbrev pub row_of : String → String → Option FileRow → Option Stat → Option FileRow
  row_of path hash old none = old
  row_of path hash old (some found) = some (new_row disk now path hash found)

  -- The row of a path once a change of it went through.
  abbrev pub settled : ChangeType → String → String → Option FileRow → Option FileRow
  settled deleted path hash old = none
  settled new path hash old = row_of path hash old (disk.stat path)
  settled modified path hash old = row_of path hash old (disk.stat path)

  get-mark_found :
      (path hash j : String) (state : FileState) (found : Option Stat)
      → slashed path ≡ path
      → get (mark_found disk now path hash state found) j
        ≡ (if path == j then row_of path hash (get state j) found else get state j)
  get-mark_found path hash j state none plain = ground arith
  get-mark_found path hash j state (some found) plain = rw plain (get-put state path j _)

  get-mark_deleted :
      (path j : String) (state : FileState)
      → slashed path ≡ path
      → get (mark_deleted path state) j ≡ (if path == j then none else get state j)
  unfolding mark_deleted
  get-mark_deleted path j state plain = rw plain (get-pop state path j)

  abbrev pub row_after : Option FileChange → Bool → Option FileRow → Option FileRow
  row_after none failed old = old
  row_after (some change) failed old =
      if failed then old else settled change.change_type change.path change.content_hash old

  module _ {V : Type 0} (indexer : Indexer V) where
    if_get :
        (b : Bool) (s t : FileState) (j : String) (out : Option FileRow)
        → get t j ≡ out
        → get (if b then t else s) j ≡ (if b then out else get s j)
    if_get true s t j out h = h
    if_get false s t j out h = refl

    pub get-index_one :
        (kind : ChangeType) (path hash j : String) (s : Tracked V)
        → slashed path ≡ path
        → get ((index_one indexer disk now kind path hash s).1.0) j ≡ (
            if (index_one indexer disk now kind path hash s).0
            then if path == j then settled kind path hash (get s.0 j) else get s.0 j
            else get s.0 j)
    unfolding mark_indexed
    get-index_one deleted path hash j s plain =
        if_get (delete_both indexer disk now path s.1).0 s.0 _ j _
          (get-mark_deleted path j s.0 plain)
    get-index_one new path hash j s plain =
        if_get (indexer.update_file path s.1).0 s.0 _ j _
          (get-mark_found path hash j s.0 (disk.stat path) plain)
    get-index_one modified path hash j s plain =
        if_get (indexer.update_file path s.1).0 s.0 _ j _
          (get-mark_found path hash j s.0 (disk.stat path) plain)

    -- The rows of other paths stay.
    pub get-index_all_other :
        (changes : List FileChange) (s : Tracked V) (j : String)
        → All IsNormal (paths_of changes)
        → mem j (paths_of changes) ≡ false
        → get ((index_all indexer disk now changes s).1.0) j ≡ get s.0 j
    unfolding index_all
    get-index_all_other [] s j normal h = refl
    get-index_all_other (change ∷ changes) s j normal h =
        let path = change.path in
        let one = get-index_one change.change_type path change.content_hash j s normal.0.0 in
        rw normal.0.1 (
          get-index_all_other changes
            (index_one indexer disk now change.change_type path change.content_hash s).1 j normal.1
            (ground (arith, h))
          ∙ ground (arith, one, h))

    -- Only changes of the list are logged as failed.
    pub failed_listed :
        (changes : List FileChange) (s : Tracked V) (j : String)
        → mem j (paths_of changes) ≡ false
        → mem j (paths_of (index_all indexer disk now changes s).0) ≡ false
    unfolding index_all
    failed_listed [] s j h = refl
    failed_listed (change ∷ changes) s j h = ground (
      arith,
      h,
      failed_listed changes
          (index_one indexer disk now change.change_type (norm_path change.path) change.content_hash
            s).1
          j,
    )

    logged_here :
        (ok : Bool) (change : FileChange) (rest : List FileChange) (j : String)
        (old fresh : Option FileRow)
        → (change.path == j) ≡ true
        → mem j (paths_of rest) ≡ false
        → (if ok then fresh else old)
          ≡ (if mem j (paths_of (if ok then rest else change ∷ rest)) then old else fresh)
    logged_here true change rest j old fresh same h = rw h
    logged_here false change rest j old fresh same h = rw same

    logged_later :
        (ok : Bool) (change : FileChange) (rest : List FileChange) (j : String)
        → (change.path == j) ≡ false
        → mem j (paths_of (if ok then rest else change ∷ rest)) ≡ mem j (paths_of rest)
    logged_later true change rest j other = refl
    logged_later false change rest j other = rw other

    -- The row of every path: its change went through, failed, or is not in the list.
    pub get-index_all :
        (changes : List FileChange) (s : Tracked V) (j : String)
        → All IsNormal (paths_of changes)
        → NoRepeat (paths_of changes)
        → get ((index_all indexer disk now changes s).1.0) j
          ≡ row_after
              (change_at changes j)
              (mem j (paths_of (index_all indexer disk now changes s).0))
              (get s.0 j)
    unfolding index_all
    get-index_all [] s j normal once = refl
    get-index_all (change ∷ changes) s j normal once =
        let one = get-index_one change.change_type change.path change.content_hash j s normal.0.0 in
        let next =
          (index_one indexer disk now change.change_type change.path change.content_hash s).1 in
        let rest = get-index_all changes next j normal.1 once.1 in
        elim (Bool-cases (change.path == j)) [
          | inl same ↦
              let absent =
                subst (λ k. mem k (paths_of changes) ≡ false) (eq_of_beq change.path j same)
                  once.0 in
              let lone = change_at_absent changes j absent in
              let unfailed = failed_listed changes next j absent in
              rw (normal.0.1, same)
                (rest
                  ∙ rw lone (rw same at one)
                  ∙ logged_here
                      (index_one indexer disk now change.change_type change.path change.content_hash
                        s).0
                      change _ j _ _ same unfailed)
          | inr other ↦
              rw
                (
                  normal.0.1,
                  other,
                  logged_later
                      (index_one indexer disk now change.change_type change.path change.content_hash
                        s).0
                      change (index_all indexer disk now changes next).0 j other,
                )
                (rest ∙ ap (row_after (change_at changes j) _) (ground (arith, one, other)))
        ]

    keep_other :
        (p : String → Bool) (x : String) (changes : List FileChange)
        → mem x (paths_of changes) ≡ false
        → keep (λ (c : FileChange). if x == c.path then true else p c.path) changes
          ≡ keep (λ (c : FileChange). p c.path) changes
    unfolding keep
    keep_other p x [] h = refl
    keep_other p x (change ∷ changes) h = ground (
      arith,
      h,
      keep_other p x changes,
      string_eq.same_iff x change.path,
      string_eq.same_iff change.path x,
    )

    logged_kept :
        (ok : Bool) (change : FileChange) (changes rest : List FileChange)
        → mem change.path (paths_of changes) ≡ false
        → mem change.path (paths_of rest) ≡ false
        → rest ≡ keep (λ (c : FileChange). mem c.path (paths_of rest)) changes
        → (if ok then rest else change ∷ rest)
          ≡ keep
              (λ (c : FileChange). mem c.path (paths_of (if ok then rest else change ∷ rest)))
              (change ∷ changes)
    unfolding keep
    logged_kept true change changes rest absent unlogged kept = rw unlogged kept
    logged_kept false change changes rest absent unlogged kept = rw (beq_refl change.path) (
        ap (◌∷◌ change)
          (kept ∙ sym (keep_other (λ k. mem k (paths_of rest)) change.path changes absent)))

    -- The log has the failed changes in the order of the list.
    pub failed_kept :
        (changes : List FileChange) (s : Tracked V)
        → NoRepeat (paths_of changes)
        → (index_all indexer disk now changes s).0
          ≡ keep
              (λ (c : FileChange). mem c.path (paths_of (index_all indexer disk now changes s).0))
              changes
    unfolding index_all keep
    failed_kept [] s once = refl
    failed_kept (change ∷ changes) s once =
        let run =
          index_one indexer disk now change.change_type (norm_path change.path) change.content_hash
            s in
        logged_kept run.0 change changes _ once.0 (failed_listed changes run.1 change.path once.0)
          (failed_kept changes run.1 once.1)

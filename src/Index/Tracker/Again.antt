-- ===== src/Index/Tracker/Again.antt =====
-- What the next scan makes of a file, by what became of its change.
use omnicode_mcp.Prelude.{
  ℕ, String, Bool, true, false, ◌&&◌, Option, none, some, List, [], ◌∷◌, ◌++◌, keep, All, nat_beq,
  if◌then◌else◌, ◌≡◌, refl, sym, ap, subst, ◌∙◌, arith,
}
use omnicode_mcp.Prelude.Eq.{◌==◌, string_eq, beq_refl}
use omnicode_mcp.Prelude.Dict.{get}
use omnicode_mcp.Prelude.Names.{mem}
use omnicode_mcp.Prelude.Text.{nat_beq_refl}
use omnicode_mcp.Index.Tracker.Walk.{Stat, Disk, slashed, hash_file}
use omnicode_mcp.Index.Tracker.{
  FileChange, FileRow, FileState, Seen, skipped, touched, changed, new_row, compare_row, examine,
  report,
}
use omnicode_mcp.Index.Tracker.Loop.{row_after}
use omnicode_mcp.Index.Tracker.Found.{
  found_changes, reported, IsPlain, IsOf, seen_of, seen_of-examine, row_touched, examine-IsOf,
}

module _ (disk : Disk) (now : ℕ) where
  -- A change that went through leaves a row that the next scan skips.
  settled_skips :
      (path hash : String) (found : Stat) (old : Option FileRow)
      → report (compare_row disk path found (some (new_row disk now path hash found))) ≡ []
  settled_skips path hash found old =
      rw (nat_beq_refl found.st_mtime, nat_beq_refl found.st_size) refl

  touched_again :
      (path : String) (found : Stat) (row : FileRow)
      → (hash_file disk path == row.content_hash) ≡ true
      → report (compare_row disk path found (some (record row { mtime = found.st_mtime }))) ≡ []
  touched_again path found row same = rw (nat_beq_refl found.st_mtime, same) (ground arith)

  again_row :
      (path : String) (found : Stat) (row : FileRow) (failed near same : Bool)
      → slashed path ≡ path
      → disk.stat path ≡ some found
      → (nat_beq found.st_mtime row.mtime && nat_beq found.st_size row.size) ≡ near
      → (hash_file disk path == row.content_hash) ≡ same
      → let seen = compare_row disk path found (some row) in
        report (
          compare_row disk path found
            (row_after disk now (reported seen) failed (row_touched seen (some row))))
        ≡ (if failed then report seen else [])
  again_row path found row true true same plain is_there e1 e2 = rw (e1, e1) refl
  again_row path found row false true same plain is_there e1 e2 = rw (e1, e1) refl
  again_row path found row true false true plain is_there e1 e2 =
      rw (e1, e2) (touched_again path found row e2)
  again_row path found row false false true plain is_there e1 e2 =
      rw (e1, e2) (touched_again path found row e2)
  again_row path found row true false false plain is_there e1 e2 = rw (e1, e2, e1, e2) refl
  again_row path found row false false false plain is_there e1 e2 =
      rw (e1, e2, plain, is_there) (settled_skips path (hash_file disk path) found (some row))

  again_new :
      (path : String) (found : Stat) (failed : Bool)
      → slashed path ≡ path
      → disk.stat path ≡ some found
      → let seen = compare_row disk path found none in
        report (
          compare_row disk path found
            (row_after disk now (reported seen) failed (row_touched seen none)))
        ≡ (if failed then report seen else [])
  again_new path found true plain is_there = refl
  again_new path found false plain is_there =
      rw (plain, is_there) (settled_skips path (hash_file disk path) found none)

  -- The next scan reports a file again exactly where its change failed.
  pub again :
      (path : String) (found : Option Stat) (old : Option FileRow) (failed : Bool)
      → slashed path ≡ path
      → disk.stat path ≡ found
      → let seen = seen_of disk path found old in
        report (
          seen_of disk path found
            (row_after disk now (reported seen) failed (row_touched seen old)))
        ≡ (if failed then report seen else [])
  again path none old true plain is_there = refl
  again path none old false plain is_there = refl
  again path (some found) none failed plain is_there = again_new path found failed plain is_there
  again path (some found) (some row) failed plain is_there =
      again_row path found row failed _ _ plain is_there refl refl

module _ (disk : Disk) (now : ℕ) (known after : FileState) (failed : String → Bool) where
  no_front : (b : Bool) (mid : List FileChange) → mid ≡ (if b then [] else []) ++ mid
  no_front true mid = refl
  no_front false mid = refl

  split_front :
      (b : Bool) (change : FileChange) (mid : List FileChange)
      → (if b then change ∷ mid else mid) ≡ (if b then change ∷ [] else []) ++ mid
  split_front true change mid = refl
  split_front false change mid = refl

  keep-report :
      (seen : Seen) (path : String) (mid : List FileChange)
      → IsOf path seen
      → keep (λ (c : FileChange). failed c.path) (report seen ++ mid)
        ≡ (if failed path then report seen else []) ++ keep (λ (c : FileChange). failed c.path) mid
  unfolding keep
  keep-report skipped path mid h = no_front (failed path) _
  keep-report (touched mtime) path mid h = no_front (failed path) _
  keep-report (changed change) path mid h =
      subst
        (λ k.
          keep (λ (c : FileChange). failed c.path) (change ∷ mid)
          ≡ (if failed k then change ∷ [] else []) ++ keep (λ (c : FileChange). failed c.path) mid)
        h (split_front (failed change.path) change _)

  -- The row of a file behind the loop, by what was made of it and whether its change failed.
  abbrev pub IsLeft : String → Type 0
  IsLeft path =
      let seen = examine disk known path in
      get after path
      ≡ row_after disk now (reported seen) (failed path) (row_touched seen (get known path))

  examine_again :
      (path : String)
      → slashed path ≡ path
      → IsLeft path
      → report (examine disk after path)
        ≡ (if failed path then report (examine disk known path) else [])
  examine_again path plain left =
      let found = disk.stat path in
      let before = seen_of-examine disk known path found plain in
      let old = get known path in
      ap report (seen_of-examine disk after path found plain)
      ∙ ap (λ row. report (seen_of disk path found row)) left
      ∙ subst
          (λ seen.
            report (
              seen_of disk path found
                (row_after disk now (reported seen) (failed path) (row_touched seen old)))
            ≡ (if failed path then report seen else []))
          (sym before) (again disk now path found old (failed path) plain refl)

  pub found_again :
      (paths : List String)
      → All IsPlain paths
      → ((path : String) → mem path paths ≡ true → IsLeft path)
      → found_changes disk after paths
        ≡ keep (λ (c : FileChange). failed c.path) (found_changes disk known paths)
  unfolding keep
  found_again [] plain left = refl
  found_again (path ∷ paths) plain left =
      let here = examine_again path plain.0 (left path (rw (beq_refl path) refl)) in
      let rest = found_again paths plain.1 (λ j there. left j (ground (arith, there))) in
      let kept = keep (λ (c : FileChange). failed c.path) (found_changes disk known paths) in
      ap (◌++◌ (report (examine disk after path))) rest
      ∙ ap (λ front. front ++ kept) here
      ∙ sym (keep-report (examine disk known path) path _ (examine-IsOf disk known path plain.0))

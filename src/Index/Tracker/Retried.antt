-- ===== src/Index/Tracker/Retried.antt =====
-- A run of `index_codebase`, and what the scan of the next run finds on the same disk.
use omnicode_mcp.Prelude.Keep.{keep-append, All-keep}
use omnicode_mcp.Prelude.{
  ℕ, String, Bool, true, false, not, ◌||◌, List, ◌++◌, keep, map, All, All-append, ◌≡◌, refl, sym,
  ap, subst, ◌∙◌, arith,
}
use omnicode_mcp.Prelude.Eq.{string_eq}
use omnicode_mcp.Prelude.Dict.{get, keys}
use omnicode_mcp.Prelude.Names.{mem, mem-append, mem-keep, NoRepeat, NoRepeat-append, NoRepeat-keep}
use omnicode_mcp.Index.Tracker.Walk.{Disk, walk}
use omnicode_mcp.Index.Tracker.{
  FileChange, FileState, Indexer, Tracked, examine, scan, deletion, detect_changes, index_all,
  index_codebase,
}
use omnicode_mcp.Index.Tracker.Loop.{
  IsNormal, paths_of, change_at_absent, row_after, get-index_all, failed_kept,
}
use omnicode_mcp.Index.Tracker.Found.{
  IsPlain, found_changes, scan-found_changes, get-scan, paths-found_changes, is_reported,
  change_at-found,
}
use omnicode_mcp.Index.Tracker.Again.{IsLeft, found_again}
use omnicode_mcp.Index.Tracker.Gone.{gone, Fits, keys-scan, gone-index_all, keep_within}
use omnicode_mcp.Index.Tracker.Changes.{
  map-slashed, IsNormal-IsPlain, paths-append, paths-deletions, keep-deletions, Fits-deletion,
  Fits-found_changes,
}

abbrev pub changes_between : Disk → FileState → List String → List FileChange
changes_between disk known paths = found_changes disk known paths ++ map deletion (gone paths known)

pub detect_lem :
    (disk : Disk) (known : FileState)
    → All IsPlain (walk disk)
    → (detect_changes disk known).0 ≡ changes_between disk known (walk disk)
unfolding detect_changes
detect_lem disk known plain =
    rw (map-slashed (walk disk) plain, scan-found_changes disk known (walk disk) known) refl

module _ (disk : Disk) (known : FileState) (paths : List String) where
  paths-changes_between :
      All IsPlain paths
      → paths_of (changes_between disk known paths)
        ≡ keep (λ path. is_reported (examine disk known path)) paths ++ gone paths known
  paths-changes_between plain =
      paths-append (found_changes disk known paths) (map deletion (gone paths known))
      ∙ rw (paths-found_changes disk known paths plain, paths-deletions (gone paths known)) refl

  not_gone : (k : String) → mem k paths ≡ true → mem k (gone paths known) ≡ false
  not_gone k there = ground (arith, mem-keep (λ k. not (mem k paths)) k (keys known), there)

  abbrev reports : String → Bool
  reports path = is_reported (examine disk known path)

  NoRepeat-changes_between :
      All IsPlain paths
      → NoRepeat paths
      → NoRepeat (keys known)
      → NoRepeat (paths_of (changes_between disk known paths))
  NoRepeat-changes_between plain once once_known =
      subst NoRepeat (sym (paths-changes_between plain)) (
        NoRepeat-append (keep reports paths) (gone paths known) (NoRepeat-keep reports paths once)
          (NoRepeat-keep (λ k. not (mem k paths)) (keys known) once_known)
          (λ k there. not_gone k (ground (arith, mem-keep reports k paths, there))))

  pub IsNormal-changes_between :
      All IsNormal paths
      → All IsNormal (keys known)
      → All IsNormal (paths_of (changes_between disk known paths))
  IsNormal-changes_between normal normal_known =
      subst (All IsNormal) (sym (paths-changes_between (IsNormal-IsPlain paths normal))) (
        All-append IsNormal (keep reports paths) (gone paths known)
          (All-keep IsNormal IsNormal reports paths (λ k passes h. h) normal)
          (All-keep IsNormal IsNormal (λ k. not (mem k paths)) (keys known) (λ k passes h. h)
            normal_known))

  pub Fits-changes_between : All IsPlain paths → All (Fits paths) (changes_between disk known paths)
  Fits-changes_between plain =
      All-append (Fits paths) (found_changes disk known paths) (map deletion (gone paths known))
        (Fits-found_changes disk known paths paths plain (λ k there. there))
        (Fits-deletion paths (gone paths known))

  listed-gone :
      All IsPlain paths
      → (k : String) → mem k (gone paths known) ≡ true
      → mem k (paths_of (changes_between disk known paths)) ≡ true
  listed-gone plain k there =
      rw (paths-changes_between plain)
        (ground (arith, mem-append k (keep reports paths) (gone paths known), there))

  module _ {V : Type 0} (indexer : Indexer V) (now : ℕ) (index : V) where
    abbrev run : List FileChange × Tracked V
    run =
        index_all indexer disk now (changes_between disk known paths)
          ((scan disk known paths known).1, index)

    abbrev after : FileState
    after = run.1.0

    abbrev failed : String → Bool
    failed k = mem k (paths_of run.0)

    IsLeft-run :
        All IsNormal paths
        → NoRepeat paths
        → All IsNormal (keys known)
        → NoRepeat (keys known)
        → (path : String) → mem path paths ≡ true
        → IsLeft disk now known after failed path
    IsLeft-run normal once normal_known once_known path there =
        let plain = IsNormal-IsPlain paths normal in
        let cs = changes_between disk known paths in
        let lone =
          change_at_absent (map deletion (gone paths known)) path
            (rw (paths-deletions (gone paths known)) (not_gone path there)) in
        let row = get-scan disk known paths known path plain once in
        let at =
          change_at-found disk known paths (map deletion (gone paths known)) path plain once there
            lone in
        get-index_all disk now indexer cs ((scan disk known paths known).1, index) path
          (IsNormal-changes_between normal normal_known)
          (NoRepeat-changes_between plain once once_known)
        ∙ ap
            (λ change.
              row_after disk now change (failed path) (get (scan disk known paths known).1 path))
            at
        ∙ ap (row_after disk now _ (failed path)) (rw there at row)

    gone-run :
        All IsNormal paths
        → NoRepeat paths
        → All IsNormal (keys known)
        → NoRepeat (keys known)
        → gone paths after ≡ keep failed (gone paths known)
    gone-run normal once normal_known once_known =
        let plain = IsNormal-IsPlain paths normal in
        let cs = changes_between disk known paths in
        let dropped =
          gone-index_all paths indexer disk now cs ((scan disk known paths known).1, index)
            (IsNormal-changes_between normal normal_known)
            (NoRepeat-changes_between plain once once_known) (Fits-changes_between plain) in
        dropped
        ∙ ap
            (λ ks.
              keep (λ k. not (mem k (paths_of cs)) || failed k) (keep (λ k. not (mem k paths)) ks))
            (keys-scan disk known paths known)
        ∙ keep_within _ failed (gone paths known) (λ k there. rw (listed-gone plain k there) refl)

    -- The changes behind the run are those of the run that failed.
    changes-run :
        All IsNormal paths
        → NoRepeat paths
        → All IsNormal (keys known)
        → NoRepeat (keys known)
        → changes_between disk after paths ≡ run.0
    changes-run normal once normal_known once_known =
        let plain = IsNormal-IsPlain paths normal in
        let test : FileChange → Bool = λ c. failed c.path in
        let found = found_changes disk known paths in
        ap (λ front. front ++ map deletion (gone paths after))
          (found_again disk now known after failed paths plain
            (IsLeft-run normal once normal_known once_known))
        ∙ ap (λ ks. keep test found ++ map deletion ks)
            (gone-run normal once normal_known once_known)
        ∙ ap (λ back. keep test found ++ back) (keep-deletions failed (gone paths known))
        ∙ sym (keep-append test found (map deletion (gone paths known)))
        ∙ sym (
            failed_kept disk now indexer (changes_between disk known paths)
              ((scan disk known paths known).1, index)
              (NoRepeat-changes_between plain once once_known))

-- On a disk that stays as it is, with files that each come once under normalised paths, and a table
-- with one row for each of its normalised paths: the changes that the next run finds are exactly
-- those that this run logged as failed, in the same order. So a run without failures leaves nothing
-- to do, and no failed change is forgotten.
pub detect_changes-index_codebase :
    {V : Type 0} (indexer : Indexer V) (disk : Disk) (now : ℕ) (s : Tracked V)
    → All IsNormal (walk disk)
    → NoRepeat (walk disk)
    → All IsNormal (keys s.0)
    → NoRepeat (keys s.0)
    → (detect_changes disk (index_codebase indexer disk now s).1.0).0
      ≡ (index_codebase indexer disk now s).0
unfolding index_codebase detect_changes
detect_changes-index_codebase indexer disk now s normal once normal_known once_known =
    let paths = walk disk in
    let plain = IsNormal-IsPlain paths normal in
    let known = s.0 in
    let scanned = (scan disk known paths known).1 in
    subst
      (λ cs.
        (detect_changes disk (index_all indexer disk now cs (scanned, s.1)).1.0).0
        ≡ (index_all indexer disk now cs (scanned, s.1)).0)
      (sym (detect_lem disk known plain))
      (detect_lem disk (after disk known paths indexer now s.1) plain
        ∙ changes-run disk known paths indexer now s.1 normal once normal_known once_known)

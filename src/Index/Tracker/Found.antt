-- ===== src/Index/Tracker/Found.antt =====
-- What the scan of the files finds, before and after the loop over the changes.
use omnicode_mcp.Prelude.{
  ℕ, String, Bool, true, false, ◌&&◌, Option, none, some, List, [], ◌∷◌, ◌++◌, keep, All, if_either,
  Bool-cases, nat_beq, if◌then◌else◌, ◌≡◌, refl, sym, ap, subst, ◌∙◌, inl, inr, arith,
}
use omnicode_mcp.Prelude.Eq.{◌==◌, string_eq, beq_refl, eq_of_beq}
use omnicode_mcp.Prelude.Dict.{get}
use omnicode_mcp.Prelude.Names.{mem, NoRepeat}
use omnicode_mcp.Index.Tracker.Walk.{Stat, Disk, slashed, hash_file}
use omnicode_mcp.Index.Tracker.{
  modified, FileChange, FileRow, FileState, Seen, skipped, touched, changed, detected, compare_row,
  examine, examine_found, set_mtime, touch, report, scan,
}
use omnicode_mcp.Index.Tracker.Loop.{paths_of, change_at}

-- The changes that the scan reports, in its order.
abbrev pub found_changes : Disk → FileState → List String → List FileChange
found_changes disk known [] = []
found_changes disk known (path ∷ paths) =
    report (examine disk known path) ++ found_changes disk known paths

abbrev pub reported : Seen → Option FileChange
reported skipped = none
reported (touched mtime) = none
reported (changed change) = some change

abbrev pub is_reported : Seen → Bool
is_reported skipped = false
is_reported (touched mtime) = false
is_reported (changed change) = true

abbrev pub IsPlain : String → Type 0
IsPlain path = slashed path ≡ path

abbrev retimed : ℕ → Option FileRow → Option FileRow
retimed mtime none = none
retimed mtime (some row) = some (record row { mtime = mtime })

abbrev pub row_touched : Seen → Option FileRow → Option FileRow
row_touched skipped old = old
row_touched (touched mtime) old = retimed mtime old
row_touched (changed change) old = old

get-set_mtime :
    (path : String) (mtime : ℕ) (state : FileState) (k : String)
    → get (set_mtime path mtime state) k
      ≡ (if path == k then retimed mtime (get state k) else get state k)
unfolding set_mtime get
get-set_mtime path mtime [] k = ground arith
get-set_mtime path mtime ((j, row) ∷ state) k = ground (
  arith,
  string_eq.same_iff j path,
  string_eq.same_iff j k,
  string_eq.same_iff path k,
  get-set_mtime path mtime state k,
)

get-touch :
    (seen : Seen) (path : String) (state : FileState) (k : String)
    → get (touch seen path state) k
      ≡ (if path == k then row_touched seen (get state k) else get state k)
get-touch skipped path state k = ground arith
get-touch (touched mtime) path state k = get-set_mtime path mtime state k
get-touch (changed change) path state k = ground arith

module _ (disk : Disk) (known : FileState) where
  pub scan-found_changes :
      (paths : List String) (state : FileState)
      → (scan disk known paths state).0 ≡ found_changes disk known paths
  unfolding scan
  scan-found_changes [] state = refl
  scan-found_changes (path ∷ paths) state =
      ap (◌++◌ (report (examine disk known path))) (scan-found_changes paths _)

  -- The rows behind the scan, where no file comes twice.
  pub get-scan :
      (paths : List String) (state : FileState) (k : String)
      → All IsPlain paths
      → NoRepeat paths
      → get (scan disk known paths state).1 k
        ≡ (if mem k paths then row_touched (examine disk known k) (get state k) else get state k)
  unfolding scan
  get-scan [] state k plain once = refl
  get-scan (path ∷ paths) state k plain once =
      let seen = examine disk known path in
      let rest = get-scan paths (touch seen path state) k plain.1 once.1 in
      let one = get-touch seen path state k in
      elim (Bool-cases (path == k)) [
        | inl same ↦
            let absent = subst (λ j. mem j paths ≡ false) (eq_of_beq path k same) once.0 in
            rw (plain.0, same)
              (rw absent at rest
                ∙ rw same at one
                ∙ ap (λ j. row_touched (examine disk known j) (get state k))
                    (eq_of_beq path k same))
        | inr other ↦ rw (plain.0, other) (rw (rw other at one) at rest)
      ]

-- What `examine` makes of a file and its row.
abbrev pub seen_of : Disk → String → Option Stat → Option FileRow → Seen
seen_of disk path none old = skipped
seen_of disk path (some found) old = compare_row disk path found old

pub seen_of-examine :
    (disk : Disk) (known : FileState) (path : String) (found : Option Stat)
    → slashed path ≡ path
    → examine_found disk known path found ≡ seen_of disk path found (get known path)
seen_of-examine disk known path none plain = refl
seen_of-examine disk known path (some found) plain = rw plain refl

-- A reported change is one of the path.
abbrev pub IsOf : String → Seen → Type 0
IsOf path skipped = Unit
IsOf path (touched mtime) = Unit
IsOf path (changed change) = change.path ≡ path

seen_of-IsOf :
    (disk : Disk) (path : String) (found : Option Stat) (old : Option FileRow)
    → IsOf (slashed path) (seen_of disk path found old)
seen_of-IsOf disk path none old = tt
seen_of-IsOf disk path (some found) none = refl
seen_of-IsOf disk path (some found) (some row) =
    let same = hash_file disk path == row.content_hash in
    let fresh = detected disk path modified found in
    if_either (IsOf (slashed path))
      (nat_beq found.st_mtime row.mtime && nat_beq found.st_size row.size) skipped
      (if same then touched found.st_mtime else changed fresh) tt
      (if_either (IsOf (slashed path)) same (touched found.st_mtime) (changed fresh) tt refl)

pub examine-IsOf :
    (disk : Disk) (known : FileState) (path : String)
    → slashed path ≡ path
    → IsOf path (examine disk known path)
examine-IsOf disk known path plain =
    subst (λ k. IsOf k (examine disk known path)) plain
      (subst (IsOf (slashed path)) (sym (seen_of-examine disk known path (disk.stat path) plain))
        (seen_of-IsOf disk path (disk.stat path) (get known path)))

module _ (disk : Disk) (known : FileState) where
  paths-report :
      (seen : Seen) (path : String) (rest : List FileChange)
      → IsOf path seen
      → paths_of (report seen ++ rest)
        ≡ (if is_reported seen then path ∷ paths_of rest else paths_of rest)
  paths-report skipped path rest h = refl
  paths-report (touched mtime) path rest h = refl
  paths-report (changed change) path rest h = rw h refl

  change_at-report :
      (seen : Seen) (path : String) (mid rest : List FileChange) (j : String)
      → IsOf path seen
      → (path == j) ≡ false
      → change_at ((report seen ++ mid) ++ rest) j ≡ change_at (mid ++ rest) j
  change_at-report skipped path mid rest j h other = refl
  change_at-report (touched mtime) path mid rest j h other = refl
  change_at-report (changed change) path mid rest j h other = rw (h, other) refl

  change_at-report_self :
      (seen : Seen) (path : String) (mid rest : List FileChange)
      → IsOf path seen
      → change_at (mid ++ rest) path ≡ none
      → change_at ((report seen ++ mid) ++ rest) path ≡ reported seen
  change_at-report_self skipped path mid rest h lone = lone
  change_at-report_self (touched mtime) path mid rest h lone = lone
  change_at-report_self (changed change) path mid rest h lone = rw (h, beq_refl path) refl

  -- The paths that are reported, in the order of the scan.
  pub paths-found_changes :
      (paths : List String)
      → All IsPlain paths
      → paths_of (found_changes disk known paths)
        ≡ keep (λ path. is_reported (examine disk known path)) paths
  unfolding keep
  paths-found_changes [] plain = refl
  paths-found_changes (path ∷ paths) plain =
      paths-report (examine disk known path) path (found_changes disk known paths)
        (examine-IsOf disk known path plain.0)
      ∙ rw (paths-found_changes paths plain.1) refl

  change_at-found_other :
      (paths : List String) (rest : List FileChange) (j : String)
      → All IsPlain paths
      → mem j paths ≡ false
      → change_at (found_changes disk known paths ++ rest) j ≡ change_at rest j
  change_at-found_other [] rest j plain h = refl
  change_at-found_other (path ∷ paths) rest j plain h =
      change_at-report (examine disk known path) path (found_changes disk known paths) rest j
        (examine-IsOf disk known path plain.0) (ground (arith, h))
      ∙ change_at-found_other paths rest j plain.1 (ground (arith, h))

  -- The change of a file of the scan is what is made of this file.
  pub change_at-found :
      (paths : List String) (rest : List FileChange) (j : String)
      → All IsPlain paths
      → NoRepeat paths
      → mem j paths ≡ true
      → change_at rest j ≡ none
      → change_at (found_changes disk known paths ++ rest) j ≡ reported (examine disk known j)
  change_at-found [] rest j plain once h lone = cc
  change_at-found (path ∷ paths) rest j plain once h lone =
      let seen = examine disk known path in
      let mid = found_changes disk known paths in
      elim (Bool-cases (path == j)) [
        | inl same ↦
            let here = eq_of_beq path j same in
            let lone_here = subst (λ k. change_at rest k ≡ none) (sym here) lone in
            subst
              (λ k. change_at ((report seen ++ mid) ++ rest) k ≡ reported (examine disk known k))
              here
              (change_at-report_self seen path mid rest (examine-IsOf disk known path plain.0)
                (change_at-found_other paths rest path plain.1 once.0 ∙ lone_here))
        | inr other ↦
            change_at-report seen path mid rest j (examine-IsOf disk known path plain.0) other
            ∙ change_at-found paths rest j plain.1 once.1 (rw other at h) lone
      ]

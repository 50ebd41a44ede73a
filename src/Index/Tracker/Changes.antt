-- ===== src/Index/Tracker/Changes.antt =====
-- The changes that a run finds, as a list: their paths, and that each fits the disk.

use omnicode_mcp.Prelude.{
  String, Bool, true, List, [], ◌∷◌, ◌++◌, keep, map, All, All-append, Bool-cases, ◌≡◌, refl, ap,
  inl, inr, arith,
}
use omnicode_mcp.Prelude.Eq.{string_eq, beq_refl}
use omnicode_mcp.Prelude.Names.{mem}
use omnicode_mcp.Index.Tracker.Walk.{Disk, slashed}
use omnicode_mcp.Index.Tracker.{
  FileChange, FileState, Seen, skipped, touched, changed, report, examine, deletion,
}
use omnicode_mcp.Index.Tracker.Loop.{IsNormal, paths_of}
use omnicode_mcp.Index.Tracker.Found.{IsPlain, IsOf, found_changes, examine-IsOf}
use omnicode_mcp.Index.Tracker.Gone.{Fits}

pub map-slashed : (paths : List String) → All IsPlain paths → map slashed paths ≡ paths
map-slashed [] plain = refl
map-slashed (path ∷ paths) plain = rw (plain.0, map-slashed paths plain.1) refl

pub IsNormal-IsPlain : (paths : List String) → All IsNormal paths → All IsPlain paths
IsNormal-IsPlain [] normal = tt
IsNormal-IsPlain (path ∷ paths) normal = (normal.0.0, IsNormal-IsPlain paths normal.1)

pub paths-append : (a b : List FileChange) → paths_of (a ++ b) ≡ paths_of a ++ paths_of b
paths-append [] b = refl
paths-append (change ∷ a) b = ap (◌∷◌ change.path) (paths-append a b)

pub paths-deletions : (ks : List String) → paths_of (map deletion ks) ≡ ks
paths-deletions [] = refl
paths-deletions (k ∷ ks) = ap (◌∷◌ k) (paths-deletions ks)

pub keep-deletions :
    (p : String → Bool) (ks : List String)
    → map deletion (keep p ks) ≡ keep (λ (c : FileChange). p c.path) (map deletion ks)
unfolding keep
keep-deletions p [] = refl
keep-deletions p (k ∷ ks) = elim (Bool-cases (p k)) [
  | inl holds ↦ rw holds (ap (◌∷◌ (deletion k)) (keep-deletions p ks))
  | inr fails ↦ rw fails (keep-deletions p ks)
]

pub Fits-deletion : (live ks : List String) → All (Fits live) (map deletion ks)
Fits-deletion live [] = tt
Fits-deletion live (k ∷ ks) = (inl refl, Fits-deletion live ks)

module _ (disk : Disk) (known : FileState) (live : List String) where
  Fits-report :
      (seen : Seen) (path : String)
      → IsOf path seen
      → mem path live ≡ true
      → All (Fits live) (report seen)
  Fits-report skipped path h there = tt
  Fits-report (touched mtime) path h there = tt
  Fits-report (changed change) path h there = (inr (rw h there), tt)

  pub Fits-found_changes :
      (paths : List String)
      → All IsPlain paths
      → ((k : String) → mem k paths ≡ true → mem k live ≡ true)
      → All (Fits live) (found_changes disk known paths)
  Fits-found_changes [] plain within = tt
  Fits-found_changes (path ∷ paths) plain within =
      All-append (Fits live) (report (examine disk known path)) (found_changes disk known paths)
        (Fits-report (examine disk known path) path (examine-IsOf disk known path plain.0)
          (within path (rw (beq_refl path) refl)))
        (Fits-found_changes paths plain.1 (λ k there. within k (ground (arith, there))))

-- All changes between a disk and a table.

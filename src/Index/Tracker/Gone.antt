-- ===== src/Index/Tracker/Gone.antt =====
-- The rows of files that are gone, before and after the loop over the changes.
use omnicode_mcp.Prelude.Keep.{keep_congruent, keep-keep, keep_all}
use omnicode_mcp.Prelude.{
  ℕ, String, Bool, true, false, not, ◌&&◌, ◌||◌, Option, none, some, List, [], ◌∷◌, keep, All,
  Bool-cases, if◌then◌else◌, ◌≡◌, ◌⊎◌, refl, sym, ap, subst, ◌∙◌, inl, inr, arith,
}
use omnicode_mcp.Prelude.Eq.{◌==◌, string_eq, beq_refl, eq_of_beq}
use omnicode_mcp.Prelude.Dict.{put, pop, keys}
use omnicode_mcp.Prelude.Names.{mem, mem-keep, NoRepeat}
use omnicode_mcp.Index.Tracker.Walk.{Stat, Disk, slashed}
use omnicode_mcp.Index.Tracker.{
  ChangeType, new, modified, deleted, FileChange, FileRow, FileState, Indexer, Tracked, set_mtime,
  Seen, skipped, touched, changed, touch, examine, scan, mark_indexed, mark_deleted, mark_found,
  delete_both, index_one, index_all,
}
use omnicode_mcp.Index.Tracker.Loop.{IsNormal, paths_of, failed_listed}

pub keep_within :
    (p q : String → Bool) (xs : List String)
    → ((x : String) → mem x xs ≡ true → p x ≡ q x)
    → keep p xs ≡ keep q xs
unfolding keep
keep_within p q [] same = refl
keep_within p q (x ∷ xs) same =
    rw
      (
        same x (rw (beq_refl x) refl),
        keep_within p q xs (λ y there. same y (ground (arith, there))),
      )
      refl

pub keys-set_mtime :
    (path : String) (mtime : ℕ) (state : FileState) → keys (set_mtime path mtime state) ≡ keys state
unfolding set_mtime
keys-set_mtime path mtime [] = refl
keys-set_mtime path mtime ((k, row) ∷ state) = elim (Bool-cases (k == path)) [
  | inl same ↦ rw same (ap (◌∷◌ k) (keys-set_mtime path mtime state))
  | inr other ↦ rw other (ap (◌∷◌ k) (keys-set_mtime path mtime state))
]

keys-touch :
    (seen : Seen) (path : String) (state : FileState) → keys (touch seen path state) ≡ keys state
keys-touch skipped path state = refl
keys-touch (touched mtime) path state = keys-set_mtime path mtime state
keys-touch (changed change) path state = refl

-- The scan of the files adds no row and drops none.
pub keys-scan :
    (disk : Disk) (known : FileState) (paths : List String) (state : FileState)
    → keys (scan disk known paths state).1 ≡ keys state
unfolding scan
keys-scan disk known [] state = refl
keys-scan disk known (path ∷ paths) state =
    keys-scan disk known paths _ ∙ keys-touch (examine disk known path) (slashed path) state

module _ (live : List String) where
  -- The keys of files that are gone.
  abbrev pub gone : FileState → List String
  gone state = keep (λ k. not (mem k live)) (keys state)

  gone-put :
      (state : FileState) (path : String) (row : FileRow)
      → mem path live ≡ true
      → gone (put state path row) ≡ gone state
  unfolding put keep
  gone-put [] path row h = rw h refl
  gone-put ((k, old) ∷ state) path row h = elim (Bool-cases (k == path)) [
    | inl same ↦ rw same (rw (eq_of_beq k path same) refl)
    | inr other ↦ rw (other, gone-put state path row h) refl
  ]

  gone-pop :
      (state : FileState) (path : String)
      → gone (pop state path) ≡ keep (λ k. not (k == path)) (gone state)
  unfolding pop keep
  gone-pop [] path = refl
  gone-pop ((k, row) ∷ state) path = elim (Bool-cases (k == path)) [
    | inl same ↦ elim (Bool-cases (mem k live)) [
      | inl there ↦ rw (same, there) (gone-pop state path)
      | inr absent ↦ rw (same, absent, same) (gone-pop state path)
    ]
    | inr other ↦ elim (Bool-cases (mem k live)) [
      | inl there ↦ rw (other, there) (gone-pop state path)
      | inr absent ↦ rw (other, absent, other) (ap (◌∷◌ k) (gone-pop state path))
    ]
  ]

  gone_apart :
      (state : FileState) (path : String)
      → mem path live ≡ true
      → keep (λ k. not (k == path)) (gone state) ≡ gone state
  gone_apart state path h =
      keep_within (λ k. not (k == path)) (λ k. true) (gone state)
        (λ x there. elim (Bool-cases (x == path)) [
          | inl same ↦ ground (
            arith,
            mem-keep (λ k. not (mem k live)) x (keys state),
            there,
            subst (λ k. mem k live ≡ true) (sym (eq_of_beq x path same)) h,
          )
          | inr other ↦ rw other refl
        ])
      ∙ keep_all (gone state)

  module _ (disk : Disk) (now : ℕ) where
    gone_deleted :
        (ok : Bool) (path : String) (state : FileState)
        → slashed path ≡ path
        → gone (if ok then mark_deleted path state else state)
          ≡ keep (λ k. not (ok && k == path)) (gone state)
    unfolding mark_deleted
    gone_deleted true path state plain = rw plain (gone-pop state path)
    gone_deleted false path state plain = sym (keep_all (gone state))

    gone-mark_found :
        (path hash : String) (state : FileState) (found : Option Stat)
        → slashed path ≡ path
        → mem path live ≡ true
        → gone (mark_found disk now path hash state found) ≡ gone state
    gone-mark_found path hash state none plain h = refl
    gone-mark_found path hash state (some found) plain h = rw plain (gone-put state path _ h)

    gone_updated :
        (ok : Bool) (path hash : String) (state : FileState)
        → slashed path ≡ path
        → mem path live ≡ true
        → gone (if ok then mark_indexed disk now path hash state else state)
          ≡ keep (λ k. not (ok && k == path)) (gone state)
    unfolding mark_indexed
    gone_updated true path hash state plain h =
        gone-mark_found path hash state (disk.stat path) plain h ∙ sym (gone_apart state path h)
    gone_updated false path hash state plain h = sym (keep_all (gone state))

  -- Deletions may be of any path, other changes are of live files.
  abbrev pub Fits : FileChange → Type 0
  Fits change = (change.change_type ≡ deleted) ⊎ (mem change.path live ≡ true)

  dropped_here :
      (ok : Bool) (change : FileChange) (rest : List FileChange) (ps : List String) (k : String)
      → mem change.path ps ≡ false
      → mem change.path (paths_of rest) ≡ false
      → (not (ok && k == change.path) && (not (mem k ps) || mem k (paths_of rest)))
        ≡ (not (mem k (change.path ∷ ps)) || mem k (paths_of (if ok then rest else change ∷ rest)))
  dropped_here ok change rest ps k absent unlogged = elim (Bool-cases (k == change.path)) [
    | inl same ↦
        let here = sym (eq_of_beq k change.path same) in
        let absent_k = subst (λ j. mem j ps ≡ false) here absent in
        let unlogged_k = subst (λ j. mem j (paths_of rest) ≡ false) here unlogged in
        ground (
          arith,
          same,
          string_eq.same_iff k change.path,
          string_eq.same_iff change.path k,
          absent_k,
          unlogged_k,
        )
    | inr other ↦
        ground (arith, other, string_eq.same_iff k change.path, string_eq.same_iff change.path k)
  ]

  module _ {V : Type 0} (indexer : Indexer V) (disk : Disk) (now : ℕ) where
    gone-index_one :
        (kind : ChangeType) (path hash : String) (s : Tracked V)
        → slashed path ≡ path
        → (kind ≡ deleted) ⊎ (mem path live ≡ true)
        → gone ((index_one indexer disk now kind path hash s).1.0)
          ≡ keep
              (λ k. not ((index_one indexer disk now kind path hash s).0 && k == path))
              (gone s.0)
    gone-index_one deleted path hash s plain fits =
        gone_deleted disk now (delete_both indexer disk now path s.1).0 path s.0 plain
    gone-index_one new path hash s plain (inl clash) = cc
    gone-index_one new path hash s plain (inr h) =
        gone_updated disk now (indexer.update_file path s.1).0 path hash s.0 plain h
    gone-index_one modified path hash s plain (inl clash) = cc
    gone-index_one modified path hash s plain (inr h) =
        gone_updated disk now (indexer.update_file path s.1).0 path hash s.0 plain h

    -- What the loop drops: the rows of the changes that went through.
    pub gone-index_all :
        (changes : List FileChange) (s : Tracked V)
        → All IsNormal (paths_of changes)
        → NoRepeat (paths_of changes)
        → All Fits changes
        → gone ((index_all indexer disk now changes s).1.0)
          ≡ keep
              (λ k.
                not (mem k (paths_of changes))
                || mem k (paths_of (index_all indexer disk now changes s).0))
              (gone s.0)
    unfolding index_all
    gone-index_all [] s normal once fits = sym (keep_all (gone s.0))
    gone-index_all (change ∷ changes) s normal once fits = rw normal.0.1 (
        let run = index_one indexer disk now change.change_type change.path change.content_hash s in
        let rest = (index_all indexer disk now changes run.1).0 in
        let ps = paths_of changes in
        let one =
          gone-index_one change.change_type change.path change.content_hash s normal.0.0 fits.0 in
        gone-index_all changes run.1 normal.1 once.1 fits.1
        ∙ ap (keep (λ k. not (mem k ps) || mem k (paths_of rest))) one
        ∙ keep-keep (λ k. not (mem k ps) || mem k (paths_of rest))
            (λ k. not (run.0 && k == change.path)) (gone s.0)
        ∙ keep_congruent _ _ (gone s.0) (λ k.
          dropped_here run.0 change rest ps k once.0
            (failed_listed disk now indexer changes run.1 change.path once.0)))

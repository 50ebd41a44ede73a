-- ===== src/Search/Engine/Unavailable.antt =====
-- `index_codebase` on a search engine without an embedding backend.
use omnicode_mcp.Prelude.{
  ℕ, ◌≡◌, ◌⊎◌, refl, sym, ap, subst, ◌∙◌, inl, inr, String, Bool, true, not, none, List, [], ◌∷◌,
  All, if_either,
}
use omnicode_mcp.Prelude.Eq.{◌==◌, string_eq}
use omnicode_mcp.Prelude.Dict.{keys}
use omnicode_mcp.Prelude.Names.{mem, NoRepeat}
use omnicode_mcp.Prelude.Text.{replace_char}
use omnicode_mcp.Search.Faiss.{Faiss}
use omnicode_mcp.Search.Vectors.{VectorStore, delete_by_file}
use omnicode_mcp.Search.Engine.{engine_indexer, returned}
use omnicode_mcp.Search.Prepared.{Engine}
use omnicode_mcp.Index.Tracker.Names.{norm_path}
use omnicode_mcp.Index.Tracker.Walk.{Disk, walk}
use omnicode_mcp.Index.Tracker.{
  ChangeType, new, modified, deleted, FileChange, Tracked, detect_changes, index_one, index_all,
  index_codebase,
}
use omnicode_mcp.Index.Tracker.Loop.{IsNormal, paths_of}
use omnicode_mcp.Index.Tracker.Gone.{Fits}
use omnicode_mcp.Index.Tracker.Retried.{
  detect_lem, Fits-changes_between, IsNormal-changes_between, detect_changes-index_codebase,
}
use omnicode_mcp.Index.Tracker.Changes.{IsNormal-IsPlain}
use omnicode_mcp.Search.Engine.Lost.{
  Lost, Lost-delete_by_file, Lost-delete_by_file_other, IsReadable, update_file_returns,
  Lost-update_file_other, Lost-update_file,
}

module _ (faiss : Faiss) (engine : Engine faiss) (silent : engine.encode ≡ none) where
  module _ (disk : Disk) (now : ℕ) where
    index_one_returns :
        (kind : ChangeType) (path hash : String) (s : Tracked (VectorStore faiss))
        → (index_one (engine_indexer faiss engine) disk now kind path hash s).0 ≡ true
    index_one_returns deleted path hash s =
        if_either (λ (r : Bool × VectorStore faiss). r.0 ≡ true)
          (not (replace_char "/" "\\" path == path)) _ _ refl refl
    index_one_returns new path hash s =
        ap (returned faiss engine) (update_file_returns faiss engine silent path s.1)
    index_one_returns modified path hash s =
        ap (returned faiss engine) (update_file_returns faiss engine silent path s.1)

    Lost-index_one_other :
        (lost : String) (kind : ChangeType) (path hash : String) (s : Tracked (VectorStore faiss))
        → Lost faiss lost s.1
        → Lost faiss lost (index_one (engine_indexer faiss engine) disk now kind path hash s).1.1
    Lost-index_one_other lost deleted path hash s h =
        let legacy = replace_char "/" "\\" path in
        let once = Lost-delete_by_file_other faiss lost path s.1 h in
        if_either (λ (r : Bool × VectorStore faiss). Lost faiss lost r.1) (not (legacy == path)) _ _
          (Lost-delete_by_file_other faiss lost legacy (delete_by_file faiss path s.1).1 once) once
    Lost-index_one_other lost new path hash s h =
        Lost-update_file_other faiss engine silent lost path s.1 h
    Lost-index_one_other lost modified path hash s h =
        Lost-update_file_other faiss engine silent lost path s.1 h

    Lost-index_one :
        (kind : ChangeType) (path hash : String) (s : Tracked (VectorStore faiss))
        → norm_path path ≡ path
        → (kind ≡ deleted) ⊎ IsReadable faiss engine silent path
        → Lost faiss path (index_one (engine_indexer faiss engine) disk now kind path hash s).1.1
    Lost-index_one deleted path hash s normal fits =
        let legacy = replace_char "/" "\\" path in
        let once = Lost-delete_by_file faiss path s.1 in
        if_either (λ (r : Bool × VectorStore faiss). Lost faiss path r.1) (not (legacy == path)) _ _
          (Lost-delete_by_file_other faiss path legacy (delete_by_file faiss path s.1).1 once) once
    Lost-index_one new path hash s normal (inl clash) = cc
    Lost-index_one new path hash s normal (inr readable) =
        Lost-update_file faiss engine silent path s.1 normal readable
    Lost-index_one modified path hash s normal (inl clash) = cc
    Lost-index_one modified path hash s normal (inr readable) =
        Lost-update_file faiss engine silent path s.1 normal readable

    index_all_returns :
        (changes : List FileChange) (s : Tracked (VectorStore faiss))
        → (index_all (engine_indexer faiss engine) disk now changes s).0 ≡ []
    unfolding index_all
    index_all_returns [] s = refl
    index_all_returns (change ∷ changes) s =
        rw (index_one_returns change.change_type (norm_path change.path) change.content_hash s)
          (index_all_returns changes _)

    Lost-index_all_other :
        (lost : String) (changes : List FileChange) (s : Tracked (VectorStore faiss))
        → Lost faiss lost s.1
        → Lost faiss lost (index_all (engine_indexer faiss engine) disk now changes s).1.1
    unfolding index_all
    Lost-index_all_other lost [] s h = h
    Lost-index_all_other lost (change ∷ changes) s h = Lost-index_all_other lost changes _ (
        Lost-index_one_other lost change.change_type (norm_path change.path) change.content_hash s
          h)

    Lost-index_all :
        (live : List String) (changes : List FileChange) (s : Tracked (VectorStore faiss))
        → All IsNormal (paths_of changes)
        → ((path : String) → mem path live ≡ true → IsReadable faiss engine silent path)
        → All (Fits live) changes
        → All
            (λ path.
              Lost faiss path (index_all (engine_indexer faiss engine) disk now changes s).1.1)
            (paths_of changes)
    unfolding index_all
    Lost-index_all live [] s normal readable fits = tt
    Lost-index_all live (change ∷ changes) s normal readable fits =
        let one : String → Tracked (VectorStore faiss) = λ path.
          (index_one (engine_indexer faiss engine) disk now change.change_type path
            change.content_hash s).1 in
        let fit : (change.change_type ≡ deleted) ⊎ IsReadable faiss engine silent change.path =
          elim fits.0 [ inl gone ↦ inl gone | inr there ↦ inr (readable change.path there) ] in
        let lost =
          Lost-index_one change.change_type change.path change.content_hash s normal.0.1 fit in
        (
          Lost-index_all_other change.path changes (one (norm_path change.path))
              (subst (λ path. Lost faiss change.path (one path).1) (sym normal.0.1) lost),
          Lost-index_all live changes (one (norm_path change.path)) normal.1 readable fits.1,
        )

    -- A run without an embedding backend raises nothing: where the files can be read, it takes
    -- every chunk of the new, the changed and the deleted files out of the index, and marks them
    -- as indexed, so that the next run has nothing to do, even if a backend is there by then. The
    -- paths are normalised, and each comes once, on the disk and in the table.
    pub index_codebase_silent :
        (s : Tracked (VectorStore faiss))
        → ((path : String) → mem path (walk disk) ≡ true → IsReadable faiss engine silent path)
        → All IsNormal (walk disk)
        → NoRepeat (walk disk)
        → All IsNormal (keys s.0)
        → NoRepeat (keys s.0)
        → let run = index_codebase (engine_indexer faiss engine) disk now s in
          ((detect_changes disk run.1.0).0 ≡ [])
          × All (λ path. Lost faiss path run.1.1) (paths_of (detect_changes disk s.0).0)
    unfolding index_codebase
    index_codebase_silent s readable normal once normal_known once_known =
        let plain = IsNormal-IsPlain (walk disk) normal in
        let changes = detect_changes disk s.0 in
        let listed = detect_lem disk s.0 plain in
        (
          detect_changes-index_codebase (engine_indexer faiss engine) disk now s normal once
                normal_known once_known
              ∙ index_all_returns changes.0 (changes.1, s.1),
          Lost-index_all (walk disk) changes.0 (changes.1, s.1)
              (subst (λ cs. All IsNormal (paths_of cs)) (sym listed)
                (IsNormal-changes_between disk s.0 (walk disk) normal normal_known))
              readable
              (subst (All (Fits (walk disk))) (sym listed)
                (Fits-changes_between disk s.0 (walk disk) plain)),
        )

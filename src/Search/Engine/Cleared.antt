-- ===== src/Search/Engine/Cleared.antt =====
-- The start of `upsert_content`: the old chunks of the file go, and the index is prepared.
use omnicode_mcp.Prelude.{
  ℕ, ◌≡◌, refl, sym, ap, ◌∙◌, inl, inr, String, Bool, true, not, ◌&&◌, Option, none, some, List, [],
  ◌∷◌, keep, if_either, length, nat_beq, Bool-cases, arith,
}
use omnicode_mcp.Prelude.Eq.{◌==◌, string_eq, eq_of_beq}
use omnicode_mcp.Prelude.Names.{mem}
use omnicode_mcp.Prelude.Result.{Result, ok, raise}
use omnicode_mcp.Prelude.Text.{replace_char}
use omnicode_mcp.Search.Faiss.{Faiss, FaissLaws}
use omnicode_mcp.Search.Vectors.{
  Chunk, VectorStore, VectorError, delete_by_files, delete_by_file, reset_index,
}
use omnicode_mcp.Search.Vectors.Rows.{indexed, stored}
use omnicode_mcp.Search.Vectors.Synced.{IsSynced, delete_by_files-IsSynced}
use omnicode_mcp.Search.Engine.{delete_spellings}
use omnicode_mcp.Search.Prepared.{
  Engine, EngineError, embedding_unavailable, index_incompatible, reset_or_raise, prepare_with,
  prepare_for, prepare_semantic_index,
}

module _ (faiss : Faiss) where
  keep_untouched :
      (p : Chunk faiss → Bool) (chunks : List (Chunk faiss))
      → nat_beq (length (keep p chunks)) 0 ≡ true
      → keep (λ c. not (p c)) chunks ≡ chunks
  unfolding keep
  keep_untouched p [] h = refl
  keep_untouched p (c ∷ chunks) h = elim (Bool-cases (p c)) [
    | inl holds ↦ ground (arith, rw holds at h)
    | inr fails ↦ rw fails (ap (◌∷◌ c) (keep_untouched p chunks (rw fails at h)))
  ]

  pub chunks-delete_by_files :
      (paths : List String) (s : VectorStore faiss)
      → (delete_by_files faiss paths s).1.chunks
        ≡ keep (λ (c : Chunk faiss). not (mem c.file_path paths)) s.chunks
  unfolding delete_by_files
  chunks-delete_by_files paths s =
      elim (Bool-cases
        (nat_beq (length (keep (λ (c : Chunk faiss). mem c.file_path paths) s.chunks)) 0)) [
          | inl empty ↦
              rw empty
                (sym (keep_untouched (λ (c : Chunk faiss). mem c.file_path paths) s.chunks empty))
          | inr filled ↦ rw filled refl
        ]

  chunks-delete_by_file :
      (path : String) (s : VectorStore faiss)
      → (delete_by_file faiss path s).1.chunks
        ≡ keep (λ (c : Chunk faiss). not (mem c.file_path (path ∷ []))) s.chunks
  unfolding delete_by_file
  chunks-delete_by_file path s = chunks-delete_by_files (path ∷ []) s

  -- A chunk of neither spelling of the path.
  abbrev pub is_other : String → Chunk faiss → Bool
  is_other path c = not (mem c.file_path (path ∷ replace_char "/" "\\" path ∷ []))

  keep_twice :
      (path legacy : String) (chunks : List (Chunk faiss))
      → keep
          (λ (c : Chunk faiss). not (mem c.file_path (legacy ∷ [])))
          (keep (λ (c : Chunk faiss). not (mem c.file_path (path ∷ []))) chunks)
        ≡ keep (λ (c : Chunk faiss). not (mem c.file_path (path ∷ legacy ∷ []))) chunks
  unfolding keep
  keep_twice path legacy [] = refl
  keep_twice path legacy (c ∷ chunks) = elim (Bool-cases (path == c.file_path)) [
    | inl same ↦ rw same (keep_twice path legacy chunks)
    | inr other ↦ elim (Bool-cases (legacy == c.file_path)) [
      | inl old ↦ rw (other, old) (keep_twice path legacy chunks)
      | inr new ↦ rw (other, new) (ap (◌∷◌ c) (keep_twice path legacy chunks))
    ]
  ]

  keep_same :
      (path legacy : String) (chunks : List (Chunk faiss))
      → legacy ≡ path
      → keep (λ (c : Chunk faiss). not (mem c.file_path (path ∷ []))) chunks
        ≡ keep (λ (c : Chunk faiss). not (mem c.file_path (path ∷ legacy ∷ []))) chunks
  unfolding keep
  keep_same path legacy [] e = refl
  keep_same path legacy (c ∷ chunks) e = elim (Bool-cases (path == c.file_path)) [
    | inl same ↦ rw same (keep_same path legacy chunks e)
    | inr other ↦ rw (e, other) (ap (◌∷◌ c) (keep_same path legacy chunks e))
  ]

  module _ (engine : Engine faiss) (laws : FaissLaws faiss) where
    pub chunks-delete_spellings :
        (path : String) (s : VectorStore faiss)
        → (delete_spellings faiss engine path s).chunks ≡ keep (is_other path) s.chunks
    chunks-delete_spellings path s =
        let legacy = replace_char "/" "\\" path in
        let first = (delete_by_file faiss path s).1 in
        let once = chunks-delete_by_file path s in
        elim (Bool-cases (legacy == path)) [
          | inl same ↦ rw same (once ∙ keep_same path legacy s.chunks (eq_of_beq legacy path same))
          | inr other ↦ rw other (
              chunks-delete_by_file legacy first
              ∙ ap (keep (λ (c : Chunk faiss). not (mem c.file_path (legacy ∷ [])))) once
              ∙ keep_twice path legacy s.chunks)
        ]

    pub delete_spellings-IsSynced :
        (path : String) (s : VectorStore faiss)
        → IsSynced faiss s
        → IsSynced faiss (delete_spellings faiss engine path s)
    unfolding delete_by_file
    delete_spellings-IsSynced path s synced =
        let legacy = replace_char "/" "\\" path in
        let first = delete_by_files-IsSynced faiss laws (path ∷ []) s synced in
        if_either (IsSynced faiss) (legacy == path) _ _ first
          (delete_by_files-IsSynced faiss laws (legacy ∷ []) (delete_by_file faiss path s).1 first)

    -- Nothing that has chunks is reset.
    abbrev pub Prepared :
        VectorStore faiss → Result EngineError (Unit {0}) × VectorStore faiss → Type 0
    Prepared s r = (r.1.chunks ≡ s.chunks) × IsSynced faiss r.1

    no_chunks :
        (entries : List (ℕ × faiss.Vector)) (chunks : List (Chunk faiss))
        → indexed faiss entries ≡ stored faiss chunks
        → nat_beq (length entries) 0 ≡ true
        → chunks ≡ []
    no_chunks [] [] e h = refl
    no_chunks [] (c ∷ chunks) e h = cc
    no_chunks (x ∷ entries) chunks e h = ground (arith, h)

    reset-Prepared :
        (dimension : ℕ) (s : VectorStore faiss)
        → IsSynced faiss s
        → s.chunks ≡ []
        → Prepared s (reset_or_raise faiss engine (reset_index faiss dimension true s))
    unfolding reset_index
    reset-Prepared dimension s synced empty =
        if_either
          (λ (r : Result VectorError (Unit {0}) × VectorStore faiss).
            Prepared s (reset_or_raise faiss engine r))
          (nat_beq dimension 0) _ _ (refl, synced)
          (sym empty, (ap (indexed faiss) (laws.entries-empty dimension), tt, tt))

    prepare_for-Prepared :
        (dimension : ℕ) (s : VectorStore faiss)
        → IsSynced faiss s
        → Prepared s (prepare_for faiss engine dimension s)
    prepare_for-Prepared dimension s synced =
        let count = length (faiss.entries s.index) in
        let test = nat_beq count 0 && not (nat_beq (faiss.dimension s.index) dimension) in
        elim (Bool-cases test) [
          | inl holds ↦ rw holds (
              reset-Prepared dimension s synced
                (no_chunks (faiss.entries s.index) s.chunks synced.0 (ground (arith, holds))))
          | inr fails ↦ rw fails (
              if_either (Prepared s) _ (raise index_incompatible, s) (ok tt, s) (refl, synced)
                (refl, synced))
        ]

    pub prepare-Prepared :
        (s : VectorStore faiss)
        → IsSynced faiss s
        → Prepared s (prepare_semantic_index faiss engine s)
    unfolding prepare_semantic_index
    prepare-Prepared s synced = with_dimension engine.runtime.embedding_dimension
      where
        with_dimension : (d : Option ℕ) → Prepared s (prepare_with faiss engine d s)
        with_dimension none = (refl, synced)
        with_dimension (some dimension) =
            if_either (Prepared s) (nat_beq dimension 0) (raise embedding_unavailable, s) _
              (refl, synced) (prepare_for-Prepared dimension s synced)

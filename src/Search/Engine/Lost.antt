-- ===== src/Search/Engine/Lost.antt =====
-- The chunks of a file that is deleted or updated without an embedding backend.
use omnicode_mcp.Prelude.Keep.{All-keep}
use omnicode_mcp.Prelude.{
  ℕ, ◌≡◌, refl, sym, ap, subst, inl, inr, String, true, false, not, Option, none, some, List, [],
  ◌∷◌, keep, All, if_either, length, nat_beq, Bool-cases, arith,
}
use omnicode_mcp.Prelude.Eq.{◌==◌, string_eq}
use omnicode_mcp.Prelude.Names.{mem}
use omnicode_mcp.Prelude.Text.{replace_char}
use omnicode_mcp.Prelude.Result.{Result, ok}
use omnicode_mcp.Search.Faiss.{Faiss}
use omnicode_mcp.Search.Vectors.{Chunk, VectorStore, delete_by_files, delete_by_file}
use omnicode_mcp.Search.Engine.{update_file, update_read, upsert_content, delete_spellings}
use omnicode_mcp.Search.Prepared.{EngineError, Engine}
use omnicode_mcp.Index.Tracker.Names.{norm_path}

module _ (faiss : Faiss) where
  -- No chunk of the path.
  abbrev pub Lost : String → VectorStore faiss → Type 0
  Lost path s = All (λ (c : Chunk faiss). (c.file_path == path) ≡ false) s.chunks

  kept_lost :
      (path : String) (chunks : List (Chunk faiss))
      → All
          (λ (c : Chunk faiss). (c.file_path == path) ≡ false)
          (keep (λ c. not (mem c.file_path (path ∷ []))) chunks)
  unfolding keep
  kept_lost path [] = tt
  kept_lost path (c ∷ chunks) = elim (Bool-cases (path == c.file_path)) [
    | inl same ↦ rw same (kept_lost path chunks)
    | inr other ↦ rw other (
      ground
          (arith, other, string_eq.same_iff path c.file_path, string_eq.same_iff c.file_path path),
      kept_lost path chunks,
    )
  ]

  none_kept_lost :
      (path : String) (chunks : List (Chunk faiss))
      → nat_beq (length (keep (λ (c : Chunk faiss). mem c.file_path (path ∷ [])) chunks)) 0 ≡ true
      → All (λ (c : Chunk faiss). (c.file_path == path) ≡ false) chunks
  unfolding keep
  none_kept_lost path [] h = tt
  none_kept_lost path (c ∷ chunks) h = elim (Bool-cases (path == c.file_path)) [
    | inl same ↦ ground (arith, rw same at h)
    | inr other ↦ (
      ground
          (arith, other, string_eq.same_iff path c.file_path, string_eq.same_iff c.file_path path),
      none_kept_lost path chunks (rw other at h),
    )
  ]

  pub Lost-delete_by_file :
      (path : String) (s : VectorStore faiss) → Lost path (delete_by_file faiss path s).1
  unfolding delete_by_file delete_by_files
  Lost-delete_by_file path s =
      elim (Bool-cases
        (nat_beq (length (keep (λ (c : Chunk faiss). mem c.file_path (path ∷ [])) s.chunks)) 0)) [
          | inl empty ↦ rw empty (none_kept_lost path s.chunks empty)
          | inr some_rows ↦ rw some_rows (kept_lost path s.chunks)
        ]

  pub Lost-delete_by_file_other :
      (path other : String) (s : VectorStore faiss)
      → Lost path s
      → Lost path (delete_by_file faiss other s).1
  unfolding delete_by_file delete_by_files
  Lost-delete_by_file_other path other s lost =
      if_either (λ (r : ℕ × VectorStore faiss). Lost path r.1)
        (nat_beq (length (keep (λ (c : Chunk faiss). mem c.file_path (other ∷ [])) s.chunks)) 0) _ _
        lost
        (All-keep (λ (c : Chunk faiss). (c.file_path == path) ≡ false)
          (λ c. (c.file_path == path) ≡ false) (λ c. not (mem c.file_path (other ∷ []))) s.chunks
          (λ c passes h. h) lost)

  module _ (engine : Engine faiss) (silent : engine.encode ≡ none) where
    Lost-delete_spellings :
        (path : String) (s : VectorStore faiss) → Lost path (delete_spellings faiss engine path s)
    Lost-delete_spellings path s =
        let legacy = replace_char "/" "\\" path in
        let first = (delete_by_file faiss path s).1 in
        let lost = Lost-delete_by_file path s in
        if_either (Lost path) (legacy == path) first (delete_by_file faiss legacy first).1 lost
          (Lost-delete_by_file_other path legacy first lost)

    Lost-delete_spellings_other :
        (path other : String) (s : VectorStore faiss)
        → Lost path s
        → Lost path (delete_spellings faiss engine other s)
    Lost-delete_spellings_other path other s lost =
        let legacy = replace_char "/" "\\" other in
        let first = (delete_by_file faiss other s).1 in
        let once = Lost-delete_by_file_other path other s lost in
        if_either (Lost path) (legacy == other) first (delete_by_file faiss legacy first).1 once
          (Lost-delete_by_file_other path legacy first once)

    upsert_content_silent :
        (path content : String) (s : VectorStore faiss)
        → upsert_content faiss engine path content none none none s
          ≡ (ok 0, delete_spellings faiss engine (norm_path path) s)
    unfolding upsert_content
    upsert_content_silent path content s = rw silent refl

    update_read_returns :
        (path : String) (text : Option String) (s : VectorStore faiss)
        → (update_read faiss engine path text s).0 ≡ ok 0
    update_read_returns path none s = refl
    update_read_returns path (some content) s =
        ap (λ (r : Result EngineError ℕ × VectorStore faiss). r.0)
          (upsert_content_silent path content s)

    Lost-update_read :
        (lost path : String) (text : Option String) (s : VectorStore faiss)
        → Lost lost s
        → Lost lost (update_read faiss engine path text s).1
    Lost-update_read lost path none s h = h
    Lost-update_read lost path (some content) s h =
        subst (λ (r : Result EngineError ℕ × VectorStore faiss). Lost lost r.1)
          (sym (upsert_content_silent path content s))
          (Lost-delete_spellings_other lost (norm_path path) s h)

    pub update_file_returns :
        (path : String) (s : VectorStore faiss) → (update_file faiss engine path s).0 ≡ ok 0
    unfolding update_file
    update_file_returns path s =
        if_either (λ (r : Result EngineError ℕ × VectorStore faiss). r.0 ≡ ok 0)
          (not (engine.exists (norm_path path))) (ok 0, s) _ refl
          (update_read_returns (norm_path path) (engine.read (norm_path path)) s)

    pub Lost-update_file_other :
        (lost path : String) (s : VectorStore faiss)
        → Lost lost s
        → Lost lost (update_file faiss engine path s).1
    unfolding update_file
    Lost-update_file_other lost path s h =
        if_either (λ (r : Result EngineError ℕ × VectorStore faiss). Lost lost r.1)
          (not (engine.exists (norm_path path))) (ok 0, s) _ h
          (Lost-update_read lost (norm_path path) (engine.read (norm_path path)) s h)

    -- The file is there and can be read.
    abbrev pub IsReadable : String → Type 0
    IsReadable path =
        (engine.exists path ≡ true) × (content : String) × (engine.read path ≡ some content)

    pub Lost-update_file :
        (path : String) (s : VectorStore faiss)
        → norm_path path ≡ path
        → IsReadable path
        → Lost path (update_file faiss engine path s).1
    unfolding update_file
    Lost-update_file path s normal (there, content, text) =
        rw (normal, there, text)
          (subst (λ (r : Result EngineError ℕ × VectorStore faiss). Lost path r.1)
            (sym (upsert_content_silent path content s)) (rw normal (Lost-delete_spellings path s)))

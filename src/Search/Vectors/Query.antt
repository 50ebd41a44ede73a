-- ===== src/Search/Vectors/Query.antt =====
-- `search` of `VectorStore`: the hits of the FAISS index with their rows, those that pass a filter.
use omnicode_mcp.Prelude.{
  ℕ, ◌+◌, ◌*◌, String, Bool, true, false, not, ◌&&◌, Option, none, some, List, [], ◌∷◌, min, length,
  leb, nat_beq, if◌then◌else◌,
}
use omnicode_mcp.Prelude.Eq.{◌==◌, string_eq}
use omnicode_mcp.Prelude.Dict.{Dict, get}
use omnicode_mcp.Search.Faiss.{Faiss}
use omnicode_mcp.Search.Vectors.{Chunk, VectorStore}

module _ (faiss : Faiss) where
  abbrev pub has_value : Option String → String → Bool
  has_value none wanted = false
  has_value (some value) wanted = value == wanted

  -- The loop over the filter: every key is looked up in the metadata, `file_path` as well.
  unfoldable pub matches : Chunk faiss → Dict String String → Bool
  unfolding get
  matches c [] = true
  matches c ((key, wanted) ∷ wanted_rest) =
      let rest = matches c wanted_rest in
      if key == "file_path" && not (c.file_path == wanted)
      then false
      else if not (has_value (get c.metadata key) wanted)
      then false
      else rest

  abbrev pub row_at : List (Chunk faiss) → ℕ → Option (Chunk faiss)
  row_at [] id = none
  row_at (c ∷ chunks) id = if nat_beq c.faiss_id id then some c else row_at chunks id

  abbrev pub hit_row : VectorStore faiss → Option ℕ → Option (Chunk faiss)
  hit_row s none = none
  hit_row s (some id) = row_at s.chunks id

  abbrev pub passes : Dict String String → Option (Chunk faiss) → Bool
  passes filter none = false
  passes filter (some c) = matches c filter

  -- The body of the loop over the hits, by the row of one and the results behind it.
  abbrev pub with_row :
      Dict String String
      → ℕ
      → ℕ
      → faiss.Score
      → List (Chunk faiss × faiss.Score)
      → Option (Chunk faiss)
      → List (Chunk faiss × faiss.Score)
  with_row filter top_k next score rest none = rest
  with_row filter top_k next score rest (some c) =
      if not (matches c filter) then rest else (c, score) ∷ (if leb top_k next then [] else rest)

  -- The loop over the hits, `count` of which are results.
  unfoldable pub collect :
      VectorStore faiss
      → Dict String String
      → ℕ
      → ℕ
      → List (faiss.Score × Option ℕ)
      → List (Chunk faiss × faiss.Score)
  unfolding matches
  collect s filter top_k count [] = []
  collect s filter top_k count (hit ∷ hits) =
      let found = hit_row s hit.1 in
      let next = if passes filter found then count + 1 else count in
      let rest = collect s filter top_k next hits in with_row filter top_k next hit.0 rest found

  abbrev pub is_filtered : Dict String String → Bool
  is_filtered [] = false
  is_filtered (_ ∷ _) = true

  -- For one result or more, by a query of the dimension of the index.
  unfoldable pub search :
      faiss.Vector → ℕ → Dict String String → VectorStore faiss → List (Chunk faiss × faiss.Score)
  unfolding collect
  search query top_k filter s =
      let total = length (faiss.entries s.index) in
      if nat_beq total 0
      then []
      else let fetch_k = if is_filtered filter then top_k * 5 else top_k in
        collect s filter top_k 0 (faiss.search (faiss.normalize query) (min fetch_k total) s.index)

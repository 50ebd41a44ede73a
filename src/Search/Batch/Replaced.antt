-- ===== src/Search/Batch/Replaced.antt =====
-- What `upsert_contents` leaves in the table of chunks.
use omnicode_mcp.Prelude.{
  ℕ, suc, ◌≡◌, refl, sym, ap, ap₂, subst, ◌∙◌, ◌⊎◌, inl, inr, String, Bool, not, ◌||◌, Option, some,
  List, [], ◌∷◌, ◌++◌, keep, map, any, length, arith, Bool-cases,
}
use omnicode_mcp.Prelude.Eq.{◌==◌, string_eq, eq_of_beq}
use omnicode_mcp.Prelude.Dict.{Dict}
use omnicode_mcp.Prelude.Keep.{keep_congruent}
use omnicode_mcp.Prelude.Names.{mem, NoRepeat}
use omnicode_mcp.Prelude.Result.{Result, ok, raise}
use omnicode_mcp.Prelude.Text.{replace_char}
use omnicode_mcp.Search.Faiss.{Faiss, FaissLaws}
use omnicode_mcp.Search.Vectors.{Chunk, VectorStore}
use omnicode_mcp.Search.Vectors.Rows.{chunk_ids}
use omnicode_mcp.Search.Vectors.Synced.{IsSynced}
use omnicode_mcp.Search.Engine.{language_of}
use omnicode_mcp.Search.Prepared.{Engine, EngineError, Piece}
use omnicode_mcp.Search.Engine.Added.{View, view, piece_view}
use omnicode_mcp.Search.Batch.{
  Upsert, Reader, semantic_chunk_limit, limit_semantic_chunks, pieces_of, ChunkRow, chunk_rows,
  delete_paths, upsert_contents,
}
use omnicode_mcp.Search.Batch.Cut.{shortened, noted, cut_lem}
use omnicode_mcp.Search.Batch.Swapped.{left_over, Swaps, upsert_contents-Swaps}
use omnicode_mcp.Search.Batch.Items.{row_view, row_ids}
use omnicode_mcp.Index.Tracker.Names.{norm_path}

-- Whether a path is that of a file, in its normal form or with backslashes.
abbrev pub names : Upsert → String → Bool
names file path = norm_path file.path == path || replace_char "/" "\\" (norm_path file.path) == path

module _ (reader : Reader) (faiss : Faiss) (engine : Engine faiss) (laws : FaissLaws faiss) where
  -- The chunks of a file up to its limit, as rows under its normal path: each has its metadata with
  -- that of the file over it, and the vector of its content.
  abbrev pub views_of : (String → Option faiss.Vector) → Upsert → List (View faiss engine laws)
  views_of encode file =
      let path = norm_path file.path in
      let limit = semantic_chunk_limit reader file.metadata in
      let pieces = engine.chunk_file file.content path (language_of faiss engine path) in
      map
        (piece_view faiss engine laws encode path
          (noted engine.json.number limit (length pieces) file.metadata))
        (shortened limit pieces)

  abbrev pub new_views :
      (String → Option faiss.Vector) → List Upsert → List (View faiss engine laws)
  new_views encode [] = []
  new_views encode (file ∷ files) = views_of encode file ++ new_views encode files

  -- The chunks of the paths that the batch does not name.
  abbrev pub others : List Upsert → List (Chunk faiss) → List (Chunk faiss)
  others files = keep (λ (c : Chunk faiss). not (any (λ file. names file c.file_path) files))

  mem-delete_paths :
      (files : List Upsert) (path : String)
      → mem path (delete_paths reader faiss engine files) ≡ any (λ file. names file path) files
  unfolding delete_paths
  mem-delete_paths [] path = refl
  mem-delete_paths (file ∷ files) path =
      let normal = norm_path file.path in
      let legacy = replace_char "/" "\\" normal in
      elim (Bool-cases (legacy == normal)) [
        | inl same ↦
            rw (same, mem-delete_paths files path) (ground (arith, eq_of_beq legacy normal same))
        | inr other ↦ rw (other, mem-delete_paths files path) (ground arith)
      ]

  left_over-others :
      (files : List Upsert) (chunks : List (Chunk faiss))
      → left_over reader faiss engine laws files chunks ≡ others files chunks
  left_over-others files chunks =
      keep_congruent _ _ chunks (λ (c : Chunk faiss). ap not (mem-delete_paths files c.file_path))

  pieces_of-shortened :
      (encode : String → Option faiss.Vector) (file : Upsert)
      → map
          (piece_view faiss engine laws encode
            (norm_path file.path)
            (pieces_of reader faiss engine file).1)
          (pieces_of reader faiss engine file).0
        ≡ views_of encode file
  unfolding limit_semantic_chunks
  pieces_of-shortened encode file =
      let path = norm_path file.path in
      ap
        (λ (cut : List Piece × Dict String String).
          map (piece_view faiss engine laws encode path cut.1) cut.0)
        (cut_lem engine.json.number (semantic_chunk_limit reader file.metadata)
          (engine.chunk_file file.content path (language_of faiss engine path)) file.metadata)

  views-rows :
      (encode : String → Option faiss.Vector) (path : String) (metadata : Dict String String)
      (pieces : List Piece) (rows : List (ChunkRow reader faiss engine))
      → map (row_view reader faiss engine laws encode) (
          map
            (λ chunk. record { file_path = path; chunk = chunk; index_metadata = metadata })
            pieces
          ++ rows)
        ≡ map (piece_view faiss engine laws encode path metadata) pieces
          ++ map (row_view reader faiss engine laws encode) rows
  views-rows encode path metadata [] rows = refl
  views-rows encode path metadata (piece ∷ pieces) rows =
      ap (◌∷◌ (piece_view faiss engine laws encode path metadata piece))
        (views-rows encode path metadata pieces rows)

  views-chunk_rows :
      (encode : String → Option faiss.Vector) (files : List Upsert)
      → map (row_view reader faiss engine laws encode) (chunk_rows reader faiss engine files)
        ≡ new_views encode files
  unfolding chunk_rows
  views-chunk_rows encode [] = refl
  views-chunk_rows encode (file ∷ files) =
      let (pieces, metadata) = pieces_of reader faiss engine file in
      views-rows encode (norm_path file.path) metadata pieces (chunk_rows reader faiss engine files)
      ∙ ap₂ (λ a b. a ++ b) (pieces_of-shortened encode file) (views-chunk_rows encode files)

  -- The chunk ids of the rows.
  abbrev pub view_ids : List (View faiss engine laws) → List String
  view_ids = map (λ (v : View faiss engine laws). v.1)

  ids_of_views :
      (encode : String → Option faiss.Vector) (rows : List (ChunkRow reader faiss engine))
      → row_ids reader faiss engine laws rows
        ≡ view_ids (map (row_view reader faiss engine laws encode) rows)
  ids_of_views encode [] = refl
  ids_of_views encode (row ∷ rows) = ap (◌∷◌ row.chunk.chunk_id) (ids_of_views encode rows)

  length-views :
      (encode : String → Option faiss.Vector) (rows : List (ChunkRow reader faiss engine))
      → length rows ≡ length (map (row_view reader faiss engine laws encode) rows)
  length-views encode [] = refl
  length-views encode (row ∷ rows) = ap suc (length-views encode rows)

  -- A call that returns has replaced the chunks of its files. One that raises has left the table as
  -- it was, or has taken out the chunks of its files and added none.
  abbrev pub IsReplaced :
      (String → Option faiss.Vector)
      → List Upsert
      → List (Chunk faiss)
      → Result EngineError ℕ × VectorStore faiss
      → Type 0
  IsReplaced encode files chunks (raise e, t) =
      ((t.chunks ≡ chunks) ⊎ (t.chunks ≡ others files chunks)) × IsSynced faiss t
  IsReplaced encode files chunks (ok count, t) =
      ((new : List (Chunk faiss)) × (t.chunks ≡ others files chunks ++ new)
        × (map (view faiss engine laws) new ≡ new_views encode files))
      × (count ≡ length (new_views encode files))
      × IsSynced faiss t

  Swaps-IsReplaced :
      (encode : String → Option faiss.Vector) (files : List Upsert) (chunks : List (Chunk faiss))
      (r : Result EngineError ℕ × VectorStore faiss)
      → Swaps reader faiss engine laws encode files chunks r
      → IsReplaced encode files chunks r
  Swaps-IsReplaced encode files chunks (raise e, t) (inl same, synced) = (inl same, synced)
  Swaps-IsReplaced encode files chunks (raise e, t) (inr cleared, synced) =
      (inr (cleared ∙ left_over-others files chunks), synced)
  Swaps-IsReplaced encode files chunks (ok count, t) ((new, rows, views), counted, synced) = (
    (
      new,
      rows ∙ ap (λ cs. cs ++ new) (left_over-others files chunks),
      views ∙ views-chunk_rows encode files,
    ),
    counted
        ∙ length-views encode (chunk_rows reader faiss engine files)
        ∙ ap length (views-chunk_rows encode files),
    synced,
  )

  -- Behind `upsert_contents` with an embedding backend, in a store whose table and index are in
  -- step, and where the chunk ids of the files differ and are new among those of the other files:
  -- a call that returns has the rows of the other files as they were, behind them the chunks of its
  -- files in order, each file's up to its limit, with their types, contents and metadata, that of
  -- the file over that of the chunk, and the normalized vectors of their contents, and returns their
  -- number; one that raises has left the table as it was, or has taken out the chunks of its files
  -- and added none. The table and the index are in step in each case.
  pub upsert_contents-IsReplaced :
      (encode : String → Option faiss.Vector) (files : List Upsert) (s : VectorStore faiss)
      → engine.encode ≡ some encode
      → IsSynced faiss s
      → NoRepeat (chunk_ids faiss (others files s.chunks) ++ view_ids (new_views encode files))
      → IsReplaced encode files s.chunks (upsert_contents reader faiss engine files s)
  upsert_contents-IsReplaced encode files s there synced fresh =
      let rows = chunk_rows reader faiss engine files in
      let ids = ids_of_views encode rows ∙ ap view_ids (views-chunk_rows encode files) in
      Swaps-IsReplaced encode files s.chunks _ (
        upsert_contents-Swaps reader faiss engine laws encode files s there synced (
          subst NoRepeat
            (ap₂ (λ a b. chunk_ids faiss a ++ b) (sym (left_over-others files s.chunks)) (sym ids))
            fresh))

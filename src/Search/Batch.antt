-- ===== src/Search/Batch.antt =====
-- `upsert_contents` of omnicode/search/engine.py: many files at once, with one write of the vector
-- store. `encode` of a list is `encode` of each text. JSON values are texts, and what Python makes
-- of one is an argument. Left out are a snapshot_revision that is no number, and the statistics
-- `last_upsert_stats`.
pub mod Cut
pub mod Items
pub mod Swapped
pub mod Replaced
use omnicode_mcp.Prelude.{
  ℕ, String, Bool, ◌||◌, Option, none, some, List, [], ◌∷◌, ◌++◌, map, max, take, length, ◌-◌, leb,
  nat_beq, if◌then◌else◌,
}
use omnicode_mcp.Prelude.Eq.{◌==◌, string_eq}
use omnicode_mcp.Prelude.Dict.{Dict, get, put, update}
use omnicode_mcp.Prelude.Names.{mem}
use omnicode_mcp.Prelude.Result.{Result, ok, raise}
use omnicode_mcp.Prelude.Text.{replace_char}
use omnicode_mcp.Search.Faiss.{Faiss}
use omnicode_mcp.Search.Vectors.{VectorStore, VectorError, Item, add_many, delete_by_files}
use omnicode_mcp.Search.Engine.{language_of, write_metadata}
use omnicode_mcp.Search.Prepared.{
  Engine, EngineError, encode_failed, vector_error, Piece, prepare_semantic_index,
}
use omnicode_mcp.Index.Tracker.Names.{norm_path}

-- A file as `_normalize_upsert_item` gives it.
pub record Upsert : Type 0 where
  pub path : String
  pub content : String
  pub metadata : Dict String String

-- `str` of a value that is true, and `int` of a value, where Python has one; 0 for one below that.
pub record Reader : Type 0 where
  pub text_of : String → Option String
  pub int_of : String → Option ℕ

module _ (reader : Reader) where
  abbrev pub text_in : Option String → Option String
  text_in none = none
  text_in (some value) = reader.text_of value

  abbrev pub number_in : Option String → Option ℕ
  number_in none = none
  number_in (some value) = reader.int_of value

  abbrev pub add_id : Option String → List String → List String
  add_id none ids = ids
  add_id (some id) ids = if mem id ids then ids else id ∷ ids

  -- The workspaces that the files name, each once.
  unfoldable pub batch_workspace_ids : List Upsert → List String
  batch_workspace_ids [] = []
  batch_workspace_ids (file ∷ files) =
      add_id (text_in (get file.metadata "workspace_id")) (batch_workspace_ids files)

  abbrev pub only_one : List String → Option String
  only_one [] = none
  only_one (id ∷ []) = some id
  only_one (id ∷ other ∷ ids) = none

  abbrev pub larger : Option ℕ → Option ℕ → Option ℕ
  larger none highest = highest
  larger (some revision) none = some revision
  larger (some revision) (some highest) = some (max revision highest)

  unfoldable pub batch_indexed_revision : List Upsert → Option ℕ
  batch_indexed_revision [] = none
  batch_indexed_revision (file ∷ files) =
      larger (number_in (get file.metadata "snapshot_revision")) (batch_indexed_revision files)

  abbrev pub or_zero : Option ℕ → ℕ
  or_zero none = 0
  or_zero (some n) = n

  unfoldable pub semantic_chunk_limit : Dict String String → ℕ
  semantic_chunk_limit metadata = or_zero (number_in (get metadata "semantic_max_chunks_per_file"))

  module _ (faiss : Faiss) (engine : Engine faiss) where
    -- The first chunks up to the limit, and the metadata that says how many were left out.
    unfoldable pub limit_semantic_chunks :
        List Piece → Dict String String → List Piece × Dict String String
    unfolding semantic_chunk_limit
    limit_semantic_chunks chunks metadata =
        let limit = semantic_chunk_limit metadata in
        let count = length chunks in
        let applied = put metadata "semantic_chunk_limit_applied" "true" in
        let limited = put applied "semantic_chunk_limit" (engine.json.number limit) in
        let original = put limited "semantic_chunks_original" (engine.json.number count) in
        let dropped = put original "semantic_chunks_dropped" (engine.json.number (count - limit)) in
        if nat_beq limit 0 || leb count limit
        then (chunks, metadata)
        else (take limit chunks, dropped)

    pub record ChunkRow : Type 0 where
      pub file_path : String
      pub chunk : Piece
      pub index_metadata : Dict String String

    -- The chunks of one file, cut to its limit.
    abbrev pub pieces_of : Upsert → List Piece × Dict String String
    pieces_of file =
        let path = norm_path file.path in
        limit_semantic_chunks (engine.chunk_file file.content path (language_of faiss engine path))
          file.metadata

    unfoldable pub chunk_rows : List Upsert → List ChunkRow
    unfolding norm_path limit_semantic_chunks
    chunk_rows [] = []
    chunk_rows (file ∷ files) =
        map
          (λ chunk. record {
            file_path = norm_path file.path;
            chunk = chunk;
            index_metadata = (pieces_of file).1;
          })
          (pieces_of file).0
        ++ chunk_rows files

    -- The path of each file, and its old spelling where that differs.
    unfoldable pub delete_paths : List Upsert → List String
    unfolding norm_path replace_char
    delete_paths [] = []
    delete_paths (file ∷ files) =
        let path = norm_path file.path in
        let legacy = replace_char "/" "\\" path in
        path ∷ (if legacy == path then delete_paths files else legacy ∷ delete_paths files)

    abbrev pub row_item : ChunkRow → faiss.Vector → Item faiss
    row_item row vector = record {
      chunk_id = row.chunk.chunk_id;
      embedding = vector;
      file_path = row.file_path;
      chunk_type = row.chunk.chunk_type;
      content = row.chunk.content;
      metadata = update row.chunk.metadata row.index_metadata;
    }

    abbrev pub with_item :
        Option faiss.Vector → ChunkRow → Option (List (Item faiss)) → Option (List (Item faiss))
    with_item none row items = none
    with_item (some vector) row none = none
    with_item (some vector) row (some items) = some (row_item row vector ∷ items)

    -- All items, or none where some text cannot be encoded.
    unfoldable pub add_items :
        (String → Option faiss.Vector) → List ChunkRow → Option (List (Item faiss))
    add_items encode [] = some []
    add_items encode (row ∷ rows) = with_item (encode row.chunk.content) row (add_items encode rows)

    abbrev pub written :
        List Upsert
        → List ChunkRow
        → Result VectorError ℕ × VectorStore faiss
        → Result EngineError ℕ × VectorStore faiss
    written files rows (raise e, s) = (raise (vector_error e), s)
    written files rows (ok count, s) = (
      ok (length rows),
      write_metadata faiss engine (only_one (batch_workspace_ids files))
          (batch_indexed_revision files) (map (λ (row : ChunkRow). row.chunk) rows) s,
    )

    abbrev pub add_encoded :
        List Upsert
        → List ChunkRow
        → Option (List (Item faiss))
        → VectorStore faiss
        → Result EngineError ℕ × VectorStore faiss
    add_encoded files rows none s = (raise encode_failed, s)
    add_encoded files rows (some items) s = written files rows (add_many faiss items s)

    abbrev pub add_rows :
        (String → Option faiss.Vector)
        → List Upsert
        → List ChunkRow
        → VectorStore faiss
        → Result EngineError ℕ × VectorStore faiss
    add_rows encode files [] s = (ok 0, s)
    add_rows encode files (row ∷ rows) s =
        add_encoded files (row ∷ rows) (add_items encode (row ∷ rows)) s

    abbrev pub replace_files :
        (String → Option faiss.Vector)
        → List Upsert
        → Result EngineError (Unit {0}) × VectorStore faiss
        → Result EngineError ℕ × VectorStore faiss
    replace_files encode files (raise e, s) = (raise e, s)
    replace_files encode files (ok done, s) =
        add_rows encode files (chunk_rows files) (delete_by_files faiss (delete_paths files) s).1

    abbrev pub upsert_files :
        Option (String → Option faiss.Vector)
        → List Upsert
        → VectorStore faiss
        → Result EngineError ℕ × VectorStore faiss
    upsert_files none files s = (ok 0, s)
    upsert_files (some encode) files s =
        replace_files encode files (prepare_semantic_index faiss engine s)

    unfoldable pub upsert_contents :
        List Upsert → VectorStore faiss → Result EngineError ℕ × VectorStore faiss
    unfolding batch_workspace_ids batch_indexed_revision chunk_rows delete_paths add_items add_many
        delete_by_files prepare_semantic_index
    upsert_contents [] s = (ok 0, s)
    upsert_contents (file ∷ files) s = upsert_files engine.encode (file ∷ files) s

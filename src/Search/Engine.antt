-- ===== src/Search/Engine.antt =====
-- Files in the search engine of omnicode/search/engine.py: `update_file`, `upsert_content` and
-- `delete_file_index`, on the vector store. The chunker, the embedding backend and the files are
-- arguments; the statistics that are refreshed for show are left out.
pub mod Lost
pub mod Unavailable
pub mod Cleared
pub mod Added
pub mod Ran
pub mod Upserted
use omnicode_mcp.Prelude.{
  ℕ, String, Bool, true, false, not, ◌&&◌, ◌||◌, Option, none, some, List, [], ◌∷◌, ◌++◌, length,
  nat_beq, if◌then◌else◌,
}
use omnicode_mcp.Prelude.Eq.{◌==◌, string_eq}
use omnicode_mcp.Prelude.Dict.{Dict, update}
use omnicode_mcp.Prelude.Result.{Result, ok, raise}
use omnicode_mcp.Prelude.Text.{is_empty, replace_char}
use omnicode_mcp.Search.Faiss.{Faiss}
use omnicode_mcp.Search.Vectors.{VectorStore, VectorError, Item, add, delete_by_file, reset_index}
use omnicode_mcp.Search.Metadata.{Json, Runtime, set_index_metadata, is_stale, is_invalid}
use omnicode_mcp.Index.Tracker.Names.{norm_path, extension, skip_dots}
use omnicode_mcp.Index.Tracker.{Indexer}
use omnicode_mcp.Search.Prepared.{
  Engine, Piece, EngineError, prepare_semantic_index, encode_failed, vector_error,
}

module _ (faiss : Faiss) where
  module _ (engine : Engine faiss) where
    abbrev pub text_entry : String → Option String → Dict String String
    text_entry key none = []
    text_entry key (some value) = if is_empty value then [] else (key, engine.json.text value) ∷ []

    abbrev pub number_entry : String → Option ℕ → Dict String String
    number_entry key none = []
    number_entry key (some value) = (key, engine.json.number value) ∷ []

    abbrev pub index_metadata : Option String → Option ℕ → Option String → Dict String String
    index_metadata content_hash revision workspace_id =
        text_entry "content_hash" content_hash
        ++ text_entry "snapshot_hash" content_hash
        ++ number_entry "snapshot_revision" revision
        ++ text_entry "workspace_id" workspace_id

    abbrev pub item_of : String → Dict String String → Piece → faiss.Vector → Item faiss
    item_of path metadata piece vector = record {
      chunk_id = piece.chunk_id;
      embedding = vector;
      file_path = path;
      chunk_type = piece.chunk_type;
      content = piece.content;
      metadata = update piece.metadata metadata;
    }

    abbrev pub add_result :
        Result VectorError ℕ × VectorStore faiss → Result EngineError (Unit {0}) × VectorStore faiss
    add_result (ok count, s) = (ok tt, s)
    add_result (raise e, s) = (raise (vector_error e), s)

    abbrev pub add_piece :
        Option faiss.Vector
        → String
        → Dict String String
        → Piece
        → VectorStore faiss
        → Result EngineError (Unit {0}) × VectorStore faiss
    add_piece none path metadata piece s = (raise encode_failed, s)
    add_piece (some vector) path metadata piece s =
        add_result (add faiss (item_of path metadata piece vector) s)

    abbrev pub unless_raised :
        Result EngineError (Unit {0}) × VectorStore faiss
        → Result EngineError (Unit {0}) × VectorStore faiss
        → Result EngineError (Unit {0}) × VectorStore faiss
    unless_raised (raise e, s) later = (raise e, s)
    unless_raised (ok done, s) later = later

    -- The loop over the chunks: the first that cannot be encoded or added ends it.
    unfoldable pub add_pieces :
        (String → Option faiss.Vector)
        → String
        → Dict String String
        → List Piece
        → VectorStore faiss
        → Result EngineError (Unit {0}) × VectorStore faiss
    unfolding add
    add_pieces encode path metadata [] s = (ok tt, s)
    add_pieces encode path metadata (piece ∷ pieces) s =
        let one = add_piece (encode piece.content) path metadata piece s in
        unless_raised one (add_pieces encode path metadata pieces one.1)

    abbrev pub write_metadata :
        Option String → Option ℕ → List Piece → VectorStore faiss → VectorStore faiss
    write_metadata workspace_id revision [] s = s
    write_metadata workspace_id revision (_ ∷ _) s = record s {
      index_meta =
          set_index_metadata engine.json engine.runtime engine.now workspace_id revision
            s.index_meta;
    }

    abbrev pub finish :
        Option String
        → Option ℕ
        → List Piece
        → Result EngineError (Unit {0}) × VectorStore faiss
        → Result EngineError ℕ × VectorStore faiss
    finish workspace_id revision pieces (raise e, s) = (raise e, s)
    finish workspace_id revision pieces (ok done, s) =
        (ok (length pieces), write_metadata workspace_id revision pieces s)

    abbrev pub embed :
        (String → Option faiss.Vector)
        → String
        → Dict String String
        → List Piece
        → Result EngineError (Unit {0}) × VectorStore faiss
        → Result EngineError (Unit {0}) × VectorStore faiss
    embed encode path metadata pieces (raise e, s) = (raise e, s)
    embed encode path metadata pieces (ok done, s) = add_pieces encode path metadata pieces s

    -- The rows of the path, and those of the path in the old spelling.
    abbrev pub delete_spellings : String → VectorStore faiss → VectorStore faiss
    delete_spellings path s =
        let legacy = replace_char "/" "\\" path in
        let first = (delete_by_file faiss path s).1 in
        if legacy == path then first else (delete_by_file faiss legacy first).1

    -- Whether there was a row of the path or of its old spelling, and the store without them.
    unfoldable pub delete_file_index : String → VectorStore faiss → Bool × VectorStore faiss
    unfolding delete_by_file norm_path replace_char
    delete_file_index file_path s =
        let path = norm_path file_path in
        let legacy = replace_char "/" "\\" path in
        let first = delete_by_file faiss path s in
        let second = delete_by_file faiss legacy first.1 in
        let existed = not (nat_beq first.0 0) in
        if legacy == path
        then (existed, first.1)
        else (not (nat_beq second.0 0) || existed, second.1)

    abbrev pub language_of : String → String
    language_of path =
        let name = skip_dots (extension path) in if is_empty name then "python" else name

    abbrev pub upsert_with :
        Option (String → Option faiss.Vector)
        → String
        → Dict String String
        → Option String
        → Option ℕ
        → List Piece
        → VectorStore faiss
        → Result EngineError ℕ × VectorStore faiss
    upsert_with none path metadata workspace_id revision pieces s = (ok 0, s)
    upsert_with (some encode) path metadata workspace_id revision pieces s =
        finish workspace_id revision pieces
          (embed encode path metadata pieces (prepare_semantic_index faiss engine s))

    -- The metadata that is made here names no limit of chunks, so none is dropped.
    unfoldable pub upsert_content :
        String
        → String
        → Option String
        → Option ℕ
        → Option String
        → VectorStore faiss
        → Result EngineError ℕ × VectorStore faiss
    unfolding delete_by_file replace_char norm_path extension skip_dots prepare_semantic_index
        add_pieces set_index_metadata
    upsert_content file_path content content_hash revision workspace_id s =
        let path = norm_path file_path in
        let pieces = engine.chunk_file content path (language_of path) in
        upsert_with engine.encode path (index_metadata content_hash revision workspace_id)
          workspace_id revision pieces (delete_spellings path s)

    abbrev pub update_read :
        String → Option String → VectorStore faiss → Result EngineError ℕ × VectorStore faiss
    update_read path none s = (ok 0, s)
    update_read path (some content) s = upsert_content path content none none none s

    -- A file that is not there or cannot be read is skipped with a warning.
    unfoldable pub update_file :
        String → VectorStore faiss → Result EngineError ℕ × VectorStore faiss
    unfolding upsert_content norm_path
    update_file file_path s =
        let path = norm_path file_path in
        let done = update_read path (engine.read path) s in
        if not (engine.exists path) then (ok 0, s) else done

    abbrev pub returned : Result EngineError ℕ → Bool
    returned (ok count) = true
    returned (raise e) = false

    -- The engine as `index_codebase` calls it.
    abbrev pub engine_indexer : Indexer (VectorStore faiss)
    engine_indexer = record {
      update_file = λ path s. let run = update_file path s in (returned run.0, run.1);
      delete_by_file = λ path s. (true, (delete_by_file faiss path s).1);
    }

-- ===== src/Search/Engine/Upserted.antt =====
-- What `upsert_content` leaves in the table of chunks.
use omnicode_mcp.Prelude.{
  ℕ, ◌≡◌, refl, sym, subst, String, Option, some, List, [], ◌∷◌, ◌++◌, keep, map, take, length,
}
use omnicode_mcp.Prelude.Eq.{string_eq}
use omnicode_mcp.Prelude.Dict.{Dict}
use omnicode_mcp.Prelude.Names.{NoRepeat}
use omnicode_mcp.Prelude.Result.{Result, ok, raise}
use omnicode_mcp.Search.Faiss.{Faiss, FaissLaws}
use omnicode_mcp.Search.Vectors.{Chunk, VectorStore}
use omnicode_mcp.Search.Vectors.Rows.{chunk_ids}
use omnicode_mcp.Search.Vectors.Synced.{IsSynced}
use omnicode_mcp.Index.Tracker.Names.{norm_path}
use omnicode_mcp.Search.Engine.{
  delete_spellings, embed, finish, language_of, index_metadata, upsert_with, upsert_content,
}
use omnicode_mcp.Search.Prepared.{Engine, EngineError, Piece, prepare_semantic_index}
use omnicode_mcp.Search.Engine.Cleared.{
  is_other, chunks-delete_spellings, delete_spellings-IsSynced, prepare-Prepared,
}
use omnicode_mcp.Search.Engine.Ran.{Behind, Ran, embed-Ran}
use omnicode_mcp.Search.Engine.Added.{piece_ids}

module _ (faiss : Faiss) where
  module _ (engine : Engine faiss) (laws : FaissLaws faiss) where
    -- What the caller gets: the number of the chunks, all of which are in the table, or an exception.
    abbrev pub Answers : Result EngineError ℕ → ℕ → List Piece → Type 0
    Answers (ok count) k pieces = (count ≡ length pieces) × (take k pieces ≡ pieces)
    Answers (raise e) k pieces = Unit

    -- The given rows as they were, and behind them the first chunks of the file: all of them, where
    -- the call returns.
    abbrev pub IsUpserted :
        (String → Option faiss.Vector)
        → String
        → Dict String String
        → List Piece
        → List (Chunk faiss)
        → Result EngineError ℕ × VectorStore faiss
        → Type 0
    IsUpserted encode path metadata pieces chunks out =
        (k : ℕ) × Behind faiss engine laws encode path metadata (take k pieces) chunks out.1.chunks
        × Answers out.0 k pieces
        × IsSynced faiss out.1

    finish-IsUpserted :
        (workspace_id : Option String) (revision : Option ℕ) (encode : String → Option faiss.Vector)
        (path : String) (metadata : Dict String String) (pieces : List Piece)
        (chunks : List (Chunk faiss)) (r : Result EngineError (Unit {0}) × VectorStore faiss)
        → Ran faiss engine laws encode path metadata pieces chunks r
        → IsUpserted encode path metadata pieces chunks
            (finish faiss engine workspace_id revision pieces r)
    finish-IsUpserted workspace_id revision encode path metadata pieces chunks (raise e, t)
          (k, rows, ended, synced) =
        (k, rows, tt, synced)
    finish-IsUpserted workspace_id revision encode path metadata [] chunks (ok done, t)
          (k, rows, ended, synced) =
        (k, rows, (refl, ended), synced)
    finish-IsUpserted workspace_id revision encode path metadata (piece ∷ pieces) chunks
          (ok done, t) (k, rows, ended, synced) =
        (k, rows, (refl, ended), synced)

    -- Behind `upsert_content` with an embedding backend, in a store whose table and index are in
    -- step, and where the chunk ids of the file are new among those of the other files: the rows of
    -- the other paths stand as they did, and behind them, in order, the first chunks of the file,
    -- each with its type, its content, its metadata with that of the call over it, and the
    -- normalized vector of its content. If the call returns, these are all of the file's chunks, and
    -- it returns their number. The table and the index are in step in each case.
    pub upsert_content-IsUpserted :
        (encode : String → Option faiss.Vector) (file_path content : String)
        (content_hash : Option String) (revision : Option ℕ) (workspace_id : Option String)
        (s : VectorStore faiss)
        → engine.encode ≡ some encode
        → IsSynced faiss s
        → let path = norm_path file_path in
          let pieces = engine.chunk_file content path (language_of faiss engine path) in
          NoRepeat (
            chunk_ids faiss (keep (is_other faiss path) s.chunks)
            ++ map (λ (piece : Piece). piece.chunk_id) pieces)
          → IsUpserted encode
              (norm_path file_path)
              (index_metadata faiss engine content_hash revision workspace_id)
              (engine.chunk_file content
                (norm_path file_path)
                (language_of faiss engine (norm_path file_path)))
              (keep (is_other faiss (norm_path file_path)) s.chunks)
              (upsert_content faiss engine file_path content content_hash revision workspace_id s)
    unfolding upsert_content
    upsert_content-IsUpserted encode file_path content content_hash revision workspace_id s there
          synced fresh =
        let path = norm_path file_path in
        let pieces = engine.chunk_file content path (language_of faiss engine path) in
        let metadata = index_metadata faiss engine content_hash revision workspace_id in
        let cleared = delete_spellings faiss engine path s in
        let same = chunks-delete_spellings faiss engine laws path s in
        let others = keep (is_other faiss path) s.chunks in
        let prepared = prepare_semantic_index faiss engine cleared in
        let ran =
          embed-Ran faiss engine laws encode path metadata pieces cleared prepared
            (prepare-Prepared faiss engine laws cleared
              (delete_spellings-IsSynced faiss engine laws path s synced))
            (subst (λ cs. NoRepeat (chunk_ids faiss cs ++ piece_ids faiss engine laws pieces))
              (sym same) fresh) in
        let embedded = embed faiss engine encode path metadata pieces prepared in
        subst
          (λ e.
            IsUpserted encode path metadata pieces others
              (upsert_with faiss engine e path metadata workspace_id revision pieces cleared))
          (sym there)
          (finish-IsUpserted workspace_id revision encode path metadata pieces others embedded
            (subst (λ cs. Ran faiss engine laws encode path metadata pieces cs embedded) same ran))

-- ===== src/Search/Prepared.antt =====
-- The engine of omnicode/search/engine.py with what it is given, and `prepare_semantic_index`.
use omnicode_mcp.Prelude.{
  ℕ, String, Bool, true, not, ◌&&◌, ◌||◌, Option, none, some, List, length, nat_beq, if◌then◌else◌,
}
use omnicode_mcp.Prelude.Eq.{string_eq}
use omnicode_mcp.Prelude.Dict.{Dict}
use omnicode_mcp.Prelude.Result.{Result, ok, raise}
use omnicode_mcp.Search.Faiss.{Faiss}
use omnicode_mcp.Search.Vectors.{VectorStore, VectorError, reset_index}
use omnicode_mcp.Search.Metadata.{Json, Runtime, is_stale, is_invalid}

-- A chunk of a file, with what its metadata says of its lines and symbol.
pub record Piece : Type 0 where
  pub chunk_id : String
  pub chunk_type : String
  pub content : String
  pub metadata : Dict String String

pub data EngineError : Type 0 where
  embedding_unavailable index_incompatible encode_failed : EngineError
  vector_error : VectorError → EngineError

module _ (faiss : Faiss) where
  -- `encode` is there if the backend is, and may raise. `read` fails where a file cannot be read.
  pub record Engine : Type 0 where
    pub json : Json
    pub runtime : Runtime
    pub encode : Option (String → Option faiss.Vector)
    pub exists : String → Bool
    pub read : String → Option String
    pub chunk_file : String → String → String → List Piece
    pub now : String

  module _ (engine : Engine) where
    abbrev pub reset_or_raise :
        Result VectorError (Unit {0}) × VectorStore faiss
        → Result EngineError (Unit {0}) × VectorStore faiss
    reset_or_raise (ok done, s) = (ok tt, s)
    reset_or_raise (raise e, s) = (raise (vector_error e), s)

    -- The empty index of another dimension is reset, and one of another model refused.
    abbrev pub prepare_for :
        ℕ → VectorStore faiss → Result EngineError (Unit {0}) × VectorStore faiss
    prepare_for dimension s =
        let count = length (faiss.entries s.index) in
        let incompatible =
          is_stale faiss engine.json engine.runtime s
          || is_invalid faiss engine.json engine.runtime s in
        if nat_beq count 0 && not (nat_beq (faiss.dimension s.index) dimension)
        then reset_or_raise (reset_index faiss dimension true s)
        else if incompatible || (not (nat_beq count 0) && nat_beq (length s.index_meta) 0)
        then (raise index_incompatible, s)
        else (ok tt, s)

    abbrev pub prepare_with :
        Option ℕ → VectorStore faiss → Result EngineError (Unit {0}) × VectorStore faiss
    prepare_with none s = (raise embedding_unavailable, s)
    prepare_with (some dimension) s =
        if nat_beq dimension 0 then (raise embedding_unavailable, s) else prepare_for dimension s

    -- `prepare_semantic_index` without `force`, where the backend is available.
    unfoldable pub prepare_semantic_index :
        VectorStore faiss → Result EngineError (Unit {0}) × VectorStore faiss
    unfolding is_stale is_invalid reset_index
    prepare_semantic_index s = prepare_with engine.runtime.embedding_dimension s

-- ===== src/Search/Engine/Added.antt =====
-- One chunk of a file in `upsert_content`: a new row, or an exception.
use omnicode_mcp.Prelude.{
  ℕ, ◌≡◌, refl, sym, subst, String, Option, none, some, List, [], ◌∷◌, ◌++◌, map, arith,
}
use omnicode_mcp.Prelude.Eq.{string_eq}
use omnicode_mcp.Prelude.Dict.{Dict, update}
use omnicode_mcp.Prelude.Names.{NoRepeat}
use omnicode_mcp.Prelude.Result.{Result, ok, raise}
use omnicode_mcp.Search.Faiss.{Faiss, FaissLaws}
use omnicode_mcp.Search.Vectors.{
  Chunk, VectorStore, VectorError, next_faiss_id, max_id, chunk_of, with_rows, add,
}
use omnicode_mcp.Search.Vectors.Rows.{
  chunk_ids, insert_all_fresh, chunk_ids-append, Ascends, Ascends-append, below_max,
}
use omnicode_mcp.Search.Vectors.Synced.{IsSynced, add_call, after, call-IsSynced}
use omnicode_mcp.Search.Engine.{item_of, add_piece, add_result}
use omnicode_mcp.Search.Prepared.{Engine, EngineError, Piece}

module _ (faiss : Faiss) where
  module _ (engine : Engine faiss) (laws : FaissLaws faiss) where
    -- A row without its number: the path, the chunk id, the type, the content, the metadata and the
    -- embedding.
    abbrev pub View : Type 0
    View = String × String × String × String × Dict String String × Option faiss.Vector

    abbrev pub view : Chunk faiss → View
    view c = (c.file_path, c.chunk_id, c.chunk_type, c.content, c.metadata, c.embedding)

    abbrev pub unit_vector : Option faiss.Vector → Option faiss.Vector
    unit_vector none = none
    unit_vector (some vector) = some (faiss.normalize vector)

    -- The row of a chunk of a file with the vector that its content has.
    abbrev pub seen : String → Dict String String → Piece → Option faiss.Vector → View
    seen path metadata piece vector = (
      path,
      piece.chunk_id,
      piece.chunk_type,
      piece.content,
      update piece.metadata metadata,
      unit_vector vector,
    )

    abbrev pub piece_view :
        (String → Option faiss.Vector) → String → Dict String String → Piece → View
    piece_view encode path metadata piece = seen path metadata piece (encode piece.content)

    abbrev pub piece_ids : List Piece → List String
    piece_ids = map (λ (piece : Piece). piece.chunk_id)

    -- What adding one chunk does: a row behind the others, or nothing and an exception.
    abbrev pub Added :
        String
        → Dict String String
        → Piece
        → Option faiss.Vector
        → VectorStore faiss
        → Result EngineError (Unit {0}) × VectorStore faiss
        → Type 0
    Added path metadata piece vector s (raise e, after) = after ≡ s
    Added path metadata piece vector s (ok done, after) =
        (c : Chunk faiss) × (after.chunks ≡ s.chunks ++ c ∷ [])
        × (view c ≡ seen path metadata piece vector)

    with_rows-Added :
        (path : String) (metadata : Dict String String) (piece : Piece) (vector : faiss.Vector)
        (s : VectorStore faiss) (out : Option faiss.Index)
        → Ascends faiss s.chunks
        → NoRepeat (chunk_ids faiss s.chunks ++ piece.chunk_id ∷ [])
        → Added path metadata piece (some vector) s (
            add_result faiss engine (
              with_rows faiss
                (chunk_of faiss
                    (next_faiss_id faiss s.chunks)
                    (item_of faiss engine path metadata piece vector)
                  ∷ [])
                1
                out
                s))
    with_rows-Added path metadata piece vector s none up fresh = refl
    with_rows-Added path metadata piece vector s (some index) up fresh =
        let item = item_of faiss engine path metadata piece vector in
        let n = next_faiss_id faiss s.chunks in
        (
          chunk_of faiss n item,
          insert_all_fresh faiss (chunk_of faiss n item ∷ []) s.chunks
              (Ascends-append faiss s.chunks n (item ∷ []) up
                (below_max faiss s.chunks (max_id faiss s.chunks) (ground arith)))
              (subst NoRepeat (sym (chunk_ids-append faiss s.chunks (chunk_of faiss n item ∷ [])))
                fresh),
          refl,
        )

    pub add_piece-Added :
        (path : String) (metadata : Dict String String) (piece : Piece)
        (vector : Option faiss.Vector) (s : VectorStore faiss)
        → Ascends faiss s.chunks
        → NoRepeat (chunk_ids faiss s.chunks ++ piece.chunk_id ∷ [])
        → Added path metadata piece vector s (add_piece faiss engine vector path metadata piece s)
    unfolding add
    add_piece-Added path metadata piece none s up fresh = refl
    add_piece-Added path metadata piece (some vector) s up fresh =
        with_rows-Added path metadata piece vector s _ up fresh

    state-add_result :
        (r : Result VectorError ℕ × VectorStore faiss) → (add_result faiss engine r).1 ≡ r.1
    state-add_result (ok count, s) = refl
    state-add_result (raise e, s) = refl

    pub add_piece-IsSynced :
        (path : String) (metadata : Dict String String) (piece : Piece)
        (vector : Option faiss.Vector) (s : VectorStore faiss)
        → IsSynced faiss s
        → NoRepeat (chunk_ids faiss s.chunks ++ piece.chunk_id ∷ [])
        → IsSynced faiss (add_piece faiss engine vector path metadata piece s).1
    add_piece-IsSynced path metadata piece none s synced fresh = synced
    add_piece-IsSynced path metadata piece (some vector) s synced fresh =
        let item = item_of faiss engine path metadata piece vector in
        subst (IsSynced faiss) (sym (state-add_result (add faiss item s)))
          (call-IsSynced faiss laws (add_call item) s fresh synced)

-- ===== src/Search/Engine/Ran.antt =====
-- What the loop of `upsert_content` over the chunks of a file leaves in the table.
use omnicode_mcp.Prelude.Keep.{append_nil, snoc_append}
use omnicode_mcp.Prelude.{
  ℕ, suc, ◌≡◌, refl, sym, ap, ap₂, subst, ◌∙◌, String, Option, List, [], ◌∷◌, ◌++◌, map, take,
  arith,
}
use omnicode_mcp.Prelude.Eq.{string_eq}
use omnicode_mcp.Prelude.Dict.{Dict}
use omnicode_mcp.Prelude.Names.{mem-append, NoRepeat}
use omnicode_mcp.Prelude.Result.{Result, ok, raise}
use omnicode_mcp.Search.Faiss.{Faiss, FaissLaws}
use omnicode_mcp.Search.Vectors.{Chunk, VectorStore}
use omnicode_mcp.Search.Vectors.Rows.{chunk_ids, chunk_ids-append}
use omnicode_mcp.Search.Vectors.Synced.{IsSynced}
use omnicode_mcp.Search.Engine.{add_piece, unless_raised, add_pieces, embed}
use omnicode_mcp.Search.Prepared.{Engine, EngineError, Piece}
use omnicode_mcp.Search.Engine.Cleared.{Prepared}
use omnicode_mcp.Search.Engine.Added.{
  view, piece_view, piece_ids, Added, add_piece-Added, add_piece-IsSynced,
}

module _ (faiss : Faiss) where
  module _ (engine : Engine faiss) (laws : FaissLaws faiss) where
    -- How a call ended, with the first `k` of the chunks in the table.
    abbrev pub Ended : {A : Type 0} → Result EngineError A → ℕ → List Piece → Type 0
    Ended (ok done) k pieces = take k pieces ≡ pieces
    Ended (raise e) k pieces = Unit

    -- The rows behind the given ones: the first chunks of the file.
    abbrev pub Behind :
        (String → Option faiss.Vector)
        → String
        → Dict String String
        → List Piece
        → List (Chunk faiss)
        → List (Chunk faiss)
        → Type 0
    Behind encode path metadata pieces chunks rows =
        (new : List (Chunk faiss)) × (rows ≡ chunks ++ new)
        × (map (view faiss engine laws) new
            ≡ map (piece_view faiss engine laws encode path metadata) pieces)

    abbrev pub Ran :
        (String → Option faiss.Vector)
        → String
        → Dict String String
        → List Piece
        → List (Chunk faiss)
        → Result EngineError (Unit {0}) × VectorStore faiss
        → Type 0
    Ran encode path metadata pieces chunks r =
        (k : ℕ) × Behind encode path metadata (take k pieces) chunks r.1.chunks
        × Ended r.0 k pieces
        × IsSynced faiss r.1

    nothing-Behind :
        (encode : String → Option faiss.Vector) (path : String) (metadata : Dict String String)
        (chunks rows : List (Chunk faiss))
        → rows ≡ chunks
        → Behind encode path metadata [] chunks rows
    nothing-Behind encode path metadata chunks rows same =
        ([], same ∙ sym (append_nil chunks), refl)

    NoRepeat-front :
        (xs : List String) (y : String) (ys : List String)
        → NoRepeat (xs ++ y ∷ ys)
        → NoRepeat (xs ++ y ∷ [])
    NoRepeat-front [] y ys h = (refl, tt)
    NoRepeat-front (x ∷ xs) y ys h = (
      ground (arith, h.0, mem-append x xs (y ∷ ys), mem-append x xs (y ∷ [])),
      NoRepeat-front xs y ys h.1,
    )

    Ended-suc :
        (r : Result EngineError (Unit {0})) (k : ℕ) (piece : Piece) (pieces : List Piece)
        → Ended r k pieces
        → Ended r (suc k) (piece ∷ pieces)
    Ended-suc (ok done) k piece pieces h = ap (◌∷◌ piece) h
    Ended-suc (raise e) k piece pieces h = tt

    step-Ran :
        (encode : String → Option faiss.Vector) (path : String) (metadata : Dict String String)
        (piece : Piece) (pieces : List Piece) (s : VectorStore faiss)
        (one rest : Result EngineError (Unit {0}) × VectorStore faiss)
        → Added faiss engine laws path metadata piece (encode piece.content) s one
        → IsSynced faiss one.1
        → NoRepeat (chunk_ids faiss s.chunks ++ piece_ids faiss engine laws (piece ∷ pieces))
        → (NoRepeat (chunk_ids faiss one.1.chunks ++ piece_ids faiss engine laws pieces)
            → Ran encode path metadata pieces one.1.chunks rest)
        → Ran encode path metadata (piece ∷ pieces) s.chunks (unless_raised faiss engine one rest)
    step-Ran encode path metadata piece pieces s (raise e, same) rest added synced fresh later = (
      0,
      nothing-Behind encode path metadata s.chunks _
          (ap (λ (t : VectorStore faiss). t.chunks) added),
      tt,
      synced,
    )
    step-Ran encode path metadata piece pieces s (ok done, next) rest (c, chunks, shown) synced
          fresh later =
        let ids =
          ap (chunk_ids faiss) chunks
          ∙ chunk_ids-append faiss s.chunks (c ∷ [])
          ∙ ap (λ v. chunk_ids faiss s.chunks ++ v.1 ∷ []) shown in
        let (k, (new, rows, views), ended, after) = later (
          subst (λ front. NoRepeat (front ++ piece_ids faiss engine laws pieces)) (sym ids)
            (subst NoRepeat
              (sym (
                snoc_append (chunk_ids faiss s.chunks) piece.chunk_id
                  (piece_ids faiss engine laws pieces)))
              fresh)) in
        (
          suc k,
          (
            c ∷ new,
            rows ∙ ap (λ cs. cs ++ new) chunks ∙ snoc_append s.chunks c new,
            ap₂ (λ v vs. v ∷ vs) shown views,
          ),
          Ended-suc rest.0 k piece pieces ended,
          after,
        )

    add_pieces-Ran :
        (encode : String → Option faiss.Vector) (path : String) (metadata : Dict String String)
        (pieces : List Piece) (s : VectorStore faiss)
        → IsSynced faiss s
        → NoRepeat (chunk_ids faiss s.chunks ++ piece_ids faiss engine laws pieces)
        → Ran encode path metadata pieces s.chunks
            (add_pieces faiss engine encode path metadata pieces s)
    unfolding add_pieces
    add_pieces-Ran encode path metadata [] s synced fresh =
        (0, nothing-Behind encode path metadata s.chunks s.chunks refl, refl, synced)
    add_pieces-Ran encode path metadata (piece ∷ pieces) s synced fresh =
        let vector = encode piece.content in
        let one = add_piece faiss engine vector path metadata piece s in
        let front =
          NoRepeat-front (chunk_ids faiss s.chunks) piece.chunk_id
            (piece_ids faiss engine laws pieces) fresh in
        let after =
          add_piece-IsSynced faiss engine laws path metadata piece vector s synced front in
        step-Ran encode path metadata piece pieces s one
          (add_pieces faiss engine encode path metadata pieces one.1)
          (add_piece-Added faiss engine laws path metadata piece vector s synced.1 front) after
          fresh (λ later. add_pieces-Ran encode path metadata pieces one.1 after later)

    pub embed-Ran :
        (encode : String → Option faiss.Vector) (path : String) (metadata : Dict String String)
        (pieces : List Piece) (s : VectorStore faiss)
        (prepared : Result EngineError (Unit {0}) × VectorStore faiss)
        → Prepared faiss engine laws s prepared
        → NoRepeat (chunk_ids faiss s.chunks ++ piece_ids faiss engine laws pieces)
        → Ran encode path metadata pieces s.chunks
            (embed faiss engine encode path metadata pieces prepared)
    embed-Ran encode path metadata pieces s (raise e, t) (same, synced) fresh =
        (0, nothing-Behind encode path metadata s.chunks t.chunks same, tt, synced)
    embed-Ran encode path metadata pieces s (ok done, t) (same, synced) fresh =
        let ran = add_pieces-Ran encode path metadata pieces t synced (
          subst (λ cs. NoRepeat (chunk_ids faiss cs ++ piece_ids faiss engine laws pieces))
            (sym same) fresh) in
        let (k, (new, rows, views), ended, after) = ran in
        (k, (new, rows ∙ ap (λ cs. cs ++ new) same, views), ended, after)

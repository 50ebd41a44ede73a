-- ===== src/Search/Batch/Items.antt =====
-- The rows of a batch as items of `add_many`, and what that does with them.
use omnicode_mcp.Prelude.{
  ℕ, ◌+◌, ◌≡◌, refl, sym, ap, ap₂, subst, ◌∙◌, String, Option, none, some, List, [], ◌∷◌, ◌++◌, map,
  length, arith,
}
use omnicode_mcp.Prelude.Eq.{string_eq}
use omnicode_mcp.Prelude.Keep.{append_nil}
use omnicode_mcp.Prelude.Names.{NoRepeat}
use omnicode_mcp.Prelude.Result.{Result, ok, raise}
use omnicode_mcp.Search.Faiss.{Faiss, FaissLaws}
use omnicode_mcp.Search.Vectors.{
  VectorStore, VectorError, Item, next_faiss_id, max_id, rows_from, with_rows, add_many,
}
use omnicode_mcp.Search.Vectors.Rows.{
  chunk_ids, insert_all_fresh, chunk_ids-append, Ascends-append, below_max, item_ids,
  chunk_ids-rows_from,
}
use omnicode_mcp.Search.Vectors.Synced.{IsSynced}
use omnicode_mcp.Search.Prepared.{Engine}
use omnicode_mcp.Search.Engine.Added.{View, view, seen, piece_view}
use omnicode_mcp.Search.Batch.{Reader, ChunkRow, with_item, add_items}

module _ (reader : Reader) (faiss : Faiss) (engine : Engine faiss) (laws : FaissLaws faiss) where
  -- The row that a chunk of the batch gets, with the vector of its content.
  abbrev pub row_view :
      (String → Option faiss.Vector) → ChunkRow reader faiss engine → View faiss engine laws
  row_view encode row =
      piece_view faiss engine laws encode row.file_path row.index_metadata row.chunk

  abbrev pub row_ids : List (ChunkRow reader faiss engine) → List String
  row_ids = map (λ (row : ChunkRow reader faiss engine). row.chunk.chunk_id)

  -- The rows that stand for the chunks, in order.
  abbrev pub Stands :
      (String → Option faiss.Vector)
      → List (ChunkRow reader faiss engine)
      → List (Item faiss)
      → Type 0
  Stands encode rows items =
      (item_ids faiss items ≡ row_ids rows)
      × ((n : ℕ)
          → map (view faiss engine laws) (rows_from faiss n items) ≡ map (row_view encode) rows)

  abbrev pub Encoded :
      (String → Option faiss.Vector)
      → List (ChunkRow reader faiss engine)
      → Option (List (Item faiss))
      → Type 0
  Encoded encode rows none = Unit
  Encoded encode rows (some items) = Stands encode rows items

  with_item-Encoded :
      (encode : String → Option faiss.Vector) (vector : Option faiss.Vector)
      (row : ChunkRow reader faiss engine) (rows : List (ChunkRow reader faiss engine))
      (items : Option (List (Item faiss)))
      → encode row.chunk.content ≡ vector
      → Encoded encode rows items
      → Encoded encode (row ∷ rows) (with_item reader faiss engine vector row items)
  with_item-Encoded encode none row rows items same h = tt
  with_item-Encoded encode (some vector) row rows none same h = tt
  with_item-Encoded encode (some vector) row rows (some items) same h =
      let shown =
        ap (seen faiss engine laws row.file_path row.index_metadata row.chunk) (sym same) in
      (ap (◌∷◌ row.chunk.chunk_id) h.0, λ n. ap₂ (λ v vs. v ∷ vs) shown (h.1 (n + 1)))

  pub add_items-Encoded :
      (encode : String → Option faiss.Vector) (rows : List (ChunkRow reader faiss engine))
      → Encoded encode rows (add_items reader faiss engine encode rows)
  unfolding add_items
  add_items-Encoded encode [] = (refl, λ n. refl)
  add_items-Encoded encode (row ∷ rows) =
      with_item-Encoded encode (encode row.chunk.content) row rows _ refl
        (add_items-Encoded encode rows)

  -- What `add_many` does: rows behind the others, or nothing and an exception.
  abbrev pub Many :
      List (Item faiss) → VectorStore faiss → Result VectorError ℕ × VectorStore faiss → Type 0
  Many items s (raise e, t) = t ≡ s
  Many items s (ok count, t) =
      t.chunks ≡ s.chunks ++ rows_from faiss (next_faiss_id faiss s.chunks) items

  with_rows-Many :
      (items : List (Item faiss)) (s : VectorStore faiss) (out : Option faiss.Index)
      → IsSynced faiss s
      → NoRepeat (chunk_ids faiss s.chunks ++ item_ids faiss items)
      → Many items s (
          with_rows faiss
            (rows_from faiss (next_faiss_id faiss s.chunks) items)
            (length items)
            out
            s)
  with_rows-Many items s none synced fresh = refl
  with_rows-Many items s (some index) synced fresh =
      let n = next_faiss_id faiss s.chunks in
      insert_all_fresh faiss (rows_from faiss n items) s.chunks
        (Ascends-append faiss s.chunks n items synced.1
          (below_max faiss s.chunks (max_id faiss s.chunks) (ground arith)))
        (subst NoRepeat
          (sym (
            chunk_ids-append faiss s.chunks (rows_from faiss n items)
            ∙ ap (◌++◌ (chunk_ids faiss s.chunks)) (chunk_ids-rows_from faiss n items)))
          fresh)

  pub add_many-Many :
      (items : List (Item faiss)) (s : VectorStore faiss)
      → IsSynced faiss s
      → NoRepeat (chunk_ids faiss s.chunks ++ item_ids faiss items)
      → Many items s (add_many faiss items s)
  unfolding add_many
  add_many-Many [] s synced fresh = sym (append_nil s.chunks)
  add_many-Many (item ∷ items) s synced fresh = with_rows-Many (item ∷ items) s _ synced fresh

-- ===== src/Search/Batch/Swapped.antt =====
-- The steps of `upsert_contents`: rows are taken out, and others set behind the rest.
use omnicode_mcp.Prelude.{
  ℕ, ◌≡◌, refl, sym, ap, subst, ◌∙◌, ◌⊎◌, inl, inr, String, not, Option, none, some, List, [], ◌∷◌,
  ◌++◌, keep, map, length,
}
use omnicode_mcp.Prelude.Eq.{string_eq}
use omnicode_mcp.Prelude.Keep.{append_nil, keep_all}
use omnicode_mcp.Prelude.Names.{mem, NoRepeat}
use omnicode_mcp.Prelude.Result.{Result, ok, raise}
use omnicode_mcp.Search.Faiss.{Faiss, FaissLaws}
use omnicode_mcp.Search.Vectors.{
  Chunk, VectorStore, VectorError, Item, next_faiss_id, rows_from, add_many, delete_by_files,
}
use omnicode_mcp.Search.Vectors.Rows.{chunk_ids, item_ids}
use omnicode_mcp.Search.Vectors.Synced.{
  IsSynced, add_many_call, call-IsSynced, delete_by_files-IsSynced,
}
use omnicode_mcp.Search.Prepared.{Engine, EngineError, prepare_semantic_index}
use omnicode_mcp.Search.Engine.Cleared.{Prepared, prepare-Prepared, chunks-delete_by_files}
use omnicode_mcp.Search.Engine.Added.{view}
use omnicode_mcp.Search.Batch.{
  Upsert, Reader, ChunkRow, chunk_rows, delete_paths, written, add_encoded, add_rows, replace_files,
  upsert_files, upsert_contents,
}
use omnicode_mcp.Search.Batch.Items.{
  row_view, row_ids, Stands, Encoded, add_items-Encoded, Many, add_many-Many,
}

module _ (reader : Reader) (faiss : Faiss) (engine : Engine faiss) (laws : FaissLaws faiss) where
  -- The given rows, and behind them those of the chunks.
  abbrev pub Follow :
      (String → Option faiss.Vector)
      → List (ChunkRow reader faiss engine)
      → List (Chunk faiss)
      → List (Chunk faiss)
      → Type 0
  Follow encode rows old chunks =
      (new : List (Chunk faiss)) × (chunks ≡ old ++ new)
      × (map (view faiss engine laws) new ≡ map (row_view reader faiss engine laws encode) rows)

  -- The rows behind a call that adds the chunks to a store: all of them, or none and an exception.
  abbrev Filled :
      (String → Option faiss.Vector)
      → List (ChunkRow reader faiss engine)
      → VectorStore faiss
      → Result EngineError ℕ × VectorStore faiss
      → Type 0
  Filled encode rows s (raise e, t) = (t.chunks ≡ s.chunks) × IsSynced faiss t
  Filled encode rows s (ok count, t) =
      Follow encode rows s.chunks t.chunks × (count ≡ length rows) × IsSynced faiss t

  rows_behind :
      (encode : String → Option faiss.Vector) (rows : List (ChunkRow reader faiss engine))
      (items : List (Item faiss)) (s t : VectorStore faiss)
      → Stands reader faiss engine laws encode rows items
      → t.chunks ≡ s.chunks ++ rows_from faiss (next_faiss_id faiss s.chunks) items
      → Follow encode rows s.chunks t.chunks
  rows_behind encode rows items s t stands chunks =
      let n = next_faiss_id faiss s.chunks in (rows_from faiss n items, chunks, stands.1 n)

  written-Filled :
      (encode : String → Option faiss.Vector) (files : List Upsert)
      (rows : List (ChunkRow reader faiss engine)) (items : List (Item faiss))
      (s : VectorStore faiss) (r : Result VectorError ℕ × VectorStore faiss)
      → Stands reader faiss engine laws encode rows items
      → Many reader faiss engine laws items s r
      → IsSynced faiss r.1
      → Filled encode rows s (written reader faiss engine files rows r)
  written-Filled encode files rows items s (raise e, t) stands same synced =
      (ap (λ (x : VectorStore faiss). x.chunks) same, synced)
  written-Filled encode files [] items s (ok count, t) stands chunks synced =
      (rows_behind encode [] items s t stands chunks, refl, synced)
  written-Filled encode files (row ∷ rows) items s (ok count, t) stands chunks synced =
      (rows_behind encode (row ∷ rows) items s t stands chunks, refl, synced)

  add_encoded-Filled :
      (encode : String → Option faiss.Vector) (files : List Upsert)
      (rows : List (ChunkRow reader faiss engine)) (items : Option (List (Item faiss)))
      (s : VectorStore faiss)
      → Encoded reader faiss engine laws encode rows items
      → IsSynced faiss s
      → NoRepeat (chunk_ids faiss s.chunks ++ row_ids reader faiss engine laws rows)
      → Filled encode rows s (add_encoded reader faiss engine files rows items s)
  add_encoded-Filled encode files rows none s stands synced fresh = (refl, synced)
  add_encoded-Filled encode files rows (some items) s stands synced fresh =
      let new : NoRepeat (chunk_ids faiss s.chunks ++ item_ids faiss items) =
        subst (λ ids. NoRepeat (chunk_ids faiss s.chunks ++ ids)) (sym stands.0) fresh in
      written-Filled encode files rows items s (add_many faiss items s) stands
        (add_many-Many reader faiss engine laws items s synced new)
        (call-IsSynced faiss laws (add_many_call items) s new synced)

  add_rows-Filled :
      (encode : String → Option faiss.Vector) (files : List Upsert)
      (rows : List (ChunkRow reader faiss engine)) (s : VectorStore faiss)
      → IsSynced faiss s
      → NoRepeat (chunk_ids faiss s.chunks ++ row_ids reader faiss engine laws rows)
      → Filled encode rows s (add_rows reader faiss engine encode files rows s)
  add_rows-Filled encode files [] s synced fresh =
      (([], sym (append_nil s.chunks), refl), refl, synced)
  add_rows-Filled encode files (row ∷ rows) s synced fresh =
      add_encoded-Filled encode files (row ∷ rows) _ s
        (add_items-Encoded reader faiss engine laws encode (row ∷ rows)) synced fresh

  -- The chunks that the call leaves in the table.
  abbrev pub left_over : List Upsert → List (Chunk faiss) → List (Chunk faiss)
  left_over files =
      keep (λ (c : Chunk faiss). not (mem c.file_path (delete_paths reader faiss engine files)))

  -- A call that returns has replaced the chunks of its files. One that raises has left the table as
  -- it was, or has taken out the chunks of its files and added none.
  abbrev pub Swaps :
      (String → Option faiss.Vector)
      → List Upsert
      → List (Chunk faiss)
      → Result EngineError ℕ × VectorStore faiss
      → Type 0
  Swaps encode files chunks (raise e, t) =
      ((t.chunks ≡ chunks) ⊎ (t.chunks ≡ left_over files chunks)) × IsSynced faiss t
  Swaps encode files chunks (ok count, t) =
      Follow encode (chunk_rows reader faiss engine files) (left_over files chunks) t.chunks
      × (count ≡ length (chunk_rows reader faiss engine files))
      × IsSynced faiss t

  Filled-Swaps :
      (encode : String → Option faiss.Vector) (files : List Upsert) (chunks : List (Chunk faiss))
      (s : VectorStore faiss) (r : Result EngineError ℕ × VectorStore faiss)
      → s.chunks ≡ left_over files chunks
      → Filled encode (chunk_rows reader faiss engine files) s r
      → Swaps encode files chunks r
  Filled-Swaps encode files chunks s (raise e, t) left (same, synced) = (inr (same ∙ left), synced)
  Filled-Swaps encode files chunks s (ok count, t) left ((new, rows, views), counted, synced) =
      ((new, rows ∙ ap (λ cs. cs ++ new) left, views), counted, synced)

  replace_files-Swaps :
      (encode : String → Option faiss.Vector) (files : List Upsert) (s : VectorStore faiss)
      (prepared : Result EngineError (Unit {0}) × VectorStore faiss)
      → Prepared faiss engine laws s prepared
      → NoRepeat (
          chunk_ids faiss (left_over files s.chunks)
          ++ row_ids reader faiss engine laws (chunk_rows reader faiss engine files))
      → Swaps encode files s.chunks (replace_files reader faiss engine encode files prepared)
  replace_files-Swaps encode files s (raise e, t) (same, synced) fresh = (inl same, synced)
  replace_files-Swaps encode files s (ok done, t) (same, synced) fresh =
      let paths = delete_paths reader faiss engine files in
      let cleared = (delete_by_files faiss paths t).1 in
      let left = chunks-delete_by_files faiss paths t ∙ ap (left_over files) same in
      Filled-Swaps encode files s.chunks cleared _ left (
        add_rows-Filled encode files (chunk_rows reader faiss engine files) cleared
          (delete_by_files-IsSynced faiss laws paths t synced)
          (subst
            (λ cs. NoRepeat (
              chunk_ids faiss cs
              ++ row_ids reader faiss engine laws (chunk_rows reader faiss engine files)))
            (sym left) fresh))

  pub upsert_contents-Swaps :
      (encode : String → Option faiss.Vector) (files : List Upsert) (s : VectorStore faiss)
      → engine.encode ≡ some encode
      → IsSynced faiss s
      → NoRepeat (
          chunk_ids faiss (left_over files s.chunks)
          ++ row_ids reader faiss engine laws (chunk_rows reader faiss engine files))
      → Swaps encode files s.chunks (upsert_contents reader faiss engine files s)
  unfolding upsert_contents
  upsert_contents-Swaps encode [] s there synced fresh =
      (([], sym (append_nil _ ∙ keep_all s.chunks), refl), refl, synced)
  upsert_contents-Swaps encode (file ∷ files) s there synced fresh =
      subst
        (λ e.
          Swaps encode (file ∷ files) s.chunks
            (upsert_files reader faiss engine e (file ∷ files) s))
        (sym there)
        (replace_files-Swaps encode (file ∷ files) s (prepare_semantic_index faiss engine s)
          (prepare-Prepared faiss engine laws s synced) fresh)

-- ===== src/Search/Vectors/Synced.antt =====
-- The table of chunks and the FAISS index hold the same vectors under the same numbers.
use omnicode_mcp.Prelude.{
  ℕ, ◌≡◌, refl, sym, ap, subst, ◌∙◌, String, Bool, not, Option, none, some, List, [], ◌∷◌, ◌++◌,
  keep, length, nat_beq, if_either, arith,
}
use omnicode_mcp.Prelude.Eq.{string_eq}
use omnicode_mcp.Prelude.Names.{mem, NoRepeat}
use omnicode_mcp.Prelude.Result.{Result}
use omnicode_mcp.Search.Faiss.{Faiss, FaissLaws, has_number}
use omnicode_mcp.Search.Vectors.{
  VectorError, Chunk, VectorStore, Item, max_id, next_faiss_id, rows_from, entries_from, with_rows,
  add, add_many, ids_of, delete_by_files, delete_by_file, reset_index,
}
use omnicode_mcp.Search.Vectors.Rows.{
  below_max, Ascends-append, chunk_ids-append, stored-append, indexed-append, insert_all_fresh,
  indexed-entries_from, chunk_ids-rows_from, chunk_ids, stored, indexed, Ascends, item_ids,
}
use omnicode_mcp.Search.Vectors.Removed.{
  Ascends-keep, NoRepeat-chunk_ids-keep, numbers_of_kept, keep_numbers, indexed-keep,
}

module _ (faiss : Faiss) where
  -- The index has exactly the vectors of the rows, in their order, and numbers and chunk ids are
  -- unique.
  abbrev pub IsSynced : VectorStore faiss → Type 0
  IsSynced s =
      (indexed faiss (faiss.entries s.index) ≡ stored faiss s.chunks)
      × Ascends faiss s.chunks
      × NoRepeat (chunk_ids faiss s.chunks)

  module _ (laws : FaissLaws faiss) where
    with_rows-IsSynced :
        (items : List (Item faiss)) (count : ℕ) (s : VectorStore faiss) (out : Option faiss.Index)
        → let n = next_faiss_id faiss s.chunks in
          faiss.add_with_ids (entries_from faiss n items) s.index ≡ out
          → IsSynced s
          → NoRepeat (chunk_ids faiss s.chunks ++ item_ids faiss items)
          → IsSynced
              (with_rows faiss (rows_from faiss (next_faiss_id faiss s.chunks) items) count out s).1
    with_rows-IsSynced items count s none e synced fresh = synced
    with_rows-IsSynced items count s (some index) e synced fresh =
        let n = next_faiss_id faiss s.chunks in
        let rows = rows_from faiss n items in
        let up =
          Ascends-append faiss s.chunks n items synced.1
            (below_max faiss s.chunks (max_id faiss s.chunks) (ground arith)) in
        let once : NoRepeat (chunk_ids faiss (s.chunks ++ rows)) =
          subst NoRepeat
            (sym (
              chunk_ids-append faiss s.chunks rows
              ∙ ap (◌++◌ (chunk_ids faiss s.chunks)) (chunk_ids-rows_from faiss n items)))
            fresh in
        rw (insert_all_fresh faiss rows s.chunks up once) (
          ap (indexed faiss) (laws.entries-add (entries_from faiss n items) s.index index e)
              ∙ indexed-append faiss (faiss.entries s.index) (entries_from faiss n items)
              ∙ ap (λ a. a ++ indexed faiss (entries_from faiss n items)) synced.0
              ∙ ap (◌++◌ (stored faiss s.chunks)) (indexed-entries_from faiss n items)
              ∙ sym (stored-append faiss s.chunks rows),
          up,
          once,
        )

  pub data Call : Type 0 where
    add_call : Item faiss → Call
    add_many_call : List (Item faiss) → Call
    delete_call : List String → Call
    delete_file_call : String → Call
    reset_call : ℕ → Bool → Call

  -- The chunk ids that a call writes.
  abbrev pub new_ids : Call → List String
  new_ids (add_call item) = item.chunk_id ∷ []
  new_ids (add_many_call items) = item_ids faiss items
  new_ids (delete_call paths) = []
  new_ids (delete_file_call path) = []
  new_ids (reset_call dimension clear_metadata) = []

  -- The store behind a call, one that raises included.
  abbrev pub after : Call → VectorStore faiss → VectorStore faiss
  after (add_call item) s = (add faiss item s).1
  after (add_many_call items) s = (add_many faiss items s).1
  after (delete_call paths) s = (delete_by_files faiss paths s).1
  after (delete_file_call path) s = (delete_by_file faiss path s).1
  after (reset_call dimension clear_metadata) s = (reset_index faiss dimension clear_metadata s).1

  module _ (laws : FaissLaws faiss) where
    pub delete_by_files-IsSynced :
        (paths : List String) (s : VectorStore faiss)
        → IsSynced s
        → IsSynced (delete_by_files faiss paths s).1
    unfolding delete_by_files
    delete_by_files-IsSynced paths s synced =
        let p : Chunk faiss → Bool = λ c. mem c.file_path paths in
        let ids = ids_of faiss (keep p s.chunks) in
        if_either (λ (r : ℕ × VectorStore faiss). IsSynced r.1) _ _ _ synced
          (
            ap (indexed faiss) (laws.entries-remove ids s.index)
                ∙ indexed-keep faiss ids (faiss.entries s.index)
                ∙ ap (keep (λ e. not (has_number e.0 ids))) synced.0
                ∙ keep_numbers faiss p ids s.chunks (numbers_of_kept faiss p s.chunks synced.1),
            Ascends-keep faiss (λ c. not (p c)) s.chunks synced.1,
            NoRepeat-chunk_ids-keep faiss (λ c. not (p c)) s.chunks synced.2,
          )

    -- Every call of the store that adds, deletes or resets, whether it raises or not, keeps the table
    -- and the FAISS index in step, where the chunk ids that it writes are new and differ: the index
    -- has exactly the vectors of the rows, under the rows' numbers and in their order, and numbers and
    -- chunk ids are unique.
    pub call-IsSynced :
        (call : Call) (s : VectorStore faiss)
        → NoRepeat (chunk_ids faiss s.chunks ++ new_ids call)
        → IsSynced s
        → IsSynced (after call s)
    unfolding add add_many delete_by_file reset_index
    call-IsSynced (add_call item) s fresh synced =
        with_rows-IsSynced laws (item ∷ []) 1 s _ refl synced fresh
    call-IsSynced (add_many_call []) s fresh synced = synced
    call-IsSynced (add_many_call (item ∷ items)) s fresh synced =
        with_rows-IsSynced laws (item ∷ items) (length (item ∷ items)) s _ refl synced fresh
    call-IsSynced (delete_call paths) s fresh synced = delete_by_files-IsSynced paths s synced
    call-IsSynced (delete_file_call path) s fresh synced =
        delete_by_files-IsSynced (path ∷ []) s synced
    call-IsSynced (reset_call dimension clear_metadata) s fresh synced =
        if_either (λ (r : Result VectorError (Unit {0}) × VectorStore faiss). IsSynced r.1)
          (nat_beq dimension 0) _ _ synced
          (ap (indexed faiss) (laws.entries-empty dimension), tt, tt)

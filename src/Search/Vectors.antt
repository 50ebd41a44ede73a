-- ===== src/Search/Vectors.antt =====
-- `VectorStore` of omnicode/search/vector_store.py: the chunks of files in a SQLite table, in the
-- order of `faiss_id`, and their vectors in a FAISS index. JSON values are compared as texts. One
-- call is one step, as the lock makes it.
pub mod Query
pub mod Rows
pub mod Removed
pub mod Synced
pub mod Hits
pub mod Swap
pub mod Activated
use omnicode_mcp.Prelude.{
  ℕ, zero, suc, ◌+◌, ◌*◌, String, Bool, true, false, not, ◌&&◌, ◌||◌, Option, none, some, List, [],
  ◌∷◌, ◌++◌, keep, map, max, min, length, leb, nat_beq, if◌then◌else◌,
}
use omnicode_mcp.Prelude.Eq.{◌==◌, string_eq}
use omnicode_mcp.Prelude.Dict.{Dict, get}
use omnicode_mcp.Prelude.Names.{mem}
use omnicode_mcp.Prelude.Result.{Result, ok, raise}
use omnicode_mcp.Search.Faiss.{Faiss, has_number}

-- A vector that the index refuses, and the ValueError of `reset_index`.
pub data VectorError : Type 0 where
  wrong_dimension dimension_not_positive : VectorError

module _ (faiss : Faiss) where
  -- A row of `chunks`. Old rows have no embedding.
  pub record Chunk : Type 0 where
    pub faiss_id : ℕ
    pub chunk_id : String
    pub file_path : String
    pub chunk_type : String
    pub content : String
    pub metadata : Dict String String
    pub embedding : Option faiss.Vector

  -- The open store. `faiss_file` is what the file of the index holds.
  pub record VectorStore : Type 0 where
    pub chunks : List Chunk
    pub index_meta : Dict String String
    pub index : faiss.Index
    pub dimension : ℕ
    pub faiss_file : Option faiss.Index

  -- An item of `add_many`, and the arguments of `add`.
  pub record Item : Type 0 where
    pub chunk_id : String
    pub embedding : faiss.Vector
    pub file_path : String
    pub chunk_type : String
    pub content : String
    pub metadata : Dict String String

  abbrev pub persist_index : VectorStore → VectorStore
  persist_index s = record s { faiss_file = faiss.write_index s.index s.faiss_file }

  abbrev pub max_id : List Chunk → ℕ
  max_id [] = 0
  max_id (c ∷ chunks) = max c.faiss_id (max_id chunks)

  abbrev pub next_faiss_id : List Chunk → ℕ
  next_faiss_id chunks = max_id chunks + 1

  -- INSERT OR REPLACE: rows with the same `faiss_id` or `chunk_id` go.
  unfoldable pub insert_or_replace : Chunk → List Chunk → List Chunk
  unfolding keep
  insert_or_replace c chunks =
      keep (λ old. not (nat_beq old.faiss_id c.faiss_id || old.chunk_id == c.chunk_id)) chunks
      ++ c ∷ []

  abbrev pub insert_all : List Chunk → List Chunk → List Chunk
  insert_all [] chunks = chunks
  insert_all (c ∷ rows) chunks = insert_all rows (insert_or_replace c chunks)

  abbrev pub chunk_of : ℕ → Item → Chunk
  chunk_of id item = record {
    faiss_id = id;
    chunk_id = item.chunk_id;
    file_path = item.file_path;
    chunk_type = item.chunk_type;
    content = item.content;
    metadata = item.metadata;
    embedding = some (faiss.normalize item.embedding);
  }

  -- The items under numbers from `id` on.
  abbrev pub rows_from : ℕ → List Item → List Chunk
  rows_from id [] = []
  rows_from id (item ∷ items) = chunk_of id item ∷ rows_from (id + 1) items

  abbrev pub entries_from : ℕ → List Item → List (ℕ × faiss.Vector)
  entries_from id [] = []
  entries_from id (item ∷ items) =
      (id, faiss.normalize item.embedding) ∷ entries_from (id + 1) items

  abbrev pub with_rows :
      List Chunk → ℕ → Option faiss.Index → VectorStore → Result VectorError ℕ × VectorStore
  with_rows rows count none s = (raise wrong_dimension, s)
  with_rows rows count (some index) s =
      (ok count, persist_index (record s { index = index; chunks = insert_all rows s.chunks }))

  unfoldable pub add : Item → VectorStore → Result VectorError ℕ × VectorStore
  unfolding insert_or_replace
  add item s =
      let id = next_faiss_id s.chunks in
      with_rows (chunk_of id item ∷ []) 1
        (faiss.add_with_ids ((id, faiss.normalize item.embedding) ∷ []) s.index) s

  unfoldable pub add_many : List Item → VectorStore → Result VectorError ℕ × VectorStore
  unfolding insert_or_replace
  add_many [] s = (ok 0, s)
  add_many (item ∷ items) s =
      let id = next_faiss_id s.chunks in
      with_rows (rows_from id (item ∷ items)) (length (item ∷ items))
        (faiss.add_with_ids (entries_from id (item ∷ items)) s.index) s

  abbrev pub ids_of : List Chunk → List ℕ
  ids_of = map (λ (c : Chunk). c.faiss_id)

  -- The rows of the paths, with their vectors: how many went.
  unfoldable pub delete_by_files : List String → VectorStore → ℕ × VectorStore
  unfolding keep
  delete_by_files paths s =
      let rows = keep (λ (c : Chunk). mem c.file_path paths) s.chunks in
      if nat_beq (length rows) 0 then (0, s) else (
        length rows,
        persist_index (record s {
          index = faiss.remove_ids (ids_of rows) s.index;
          chunks = keep (λ (c : Chunk). not (mem c.file_path paths)) s.chunks;
        }),
      )

  unfoldable pub delete_by_file : String → VectorStore → ℕ × VectorStore
  unfolding delete_by_files
  delete_by_file path s = delete_by_files (path ∷ []) s

  unfoldable pub reset_index : ℕ → Bool → VectorStore → Result VectorError (Unit {0}) × VectorStore
  reset_index dimension clear_metadata s =
      if nat_beq dimension 0 then (raise dimension_not_positive, s) else (
        ok tt,
        persist_index (record {
          chunks = [];
          index_meta = if clear_metadata then [] else s.index_meta;
          index = faiss.empty dimension;
          dimension = dimension;
          faiss_file = s.faiss_file;
        }),
      )

  -- The stored vectors of the wanted dimension.
  abbrev pub stored_vectors : ℕ → List Chunk → List (ℕ × faiss.Vector)
  stored_vectors dimension [] = []
  stored_vectors dimension (c ∷ chunks) =
      let rest = stored_vectors dimension chunks in
      elim c.embedding [
        | none ↦ rest
        | some vector ↦
            if nat_beq (faiss.size vector) dimension
            then (c.faiss_id, faiss.normalize vector) ∷ rest
            else rest
      ]

  abbrev pub read_or_empty : ℕ → Option faiss.Index → faiss.Index
  read_or_empty dimension none = faiss.empty dimension
  read_or_empty dimension (some index) = index

  abbrev pub rebuilt : VectorStore → Option faiss.Index → Result VectorError VectorStore
  rebuilt s none = raise wrong_dimension
  rebuilt s (some index) = ok (persist_index (record s { index = index }))

  -- The self-healing of `_init_db`: chunks without any vector.
  abbrev pub heal : VectorStore → Result VectorError VectorStore
  heal s =
      let vectors = stored_vectors s.dimension s.chunks in
      if not (nat_beq (length s.chunks) 0)
        && nat_beq (length (faiss.entries s.index)) 0
        && not (nat_beq (length vectors) 0)
      then rebuilt s (faiss.add_with_ids vectors s.index)
      else ok s

  -- `VectorStore(...)` on the tables that are there, and on the file's index if it can be read.
  unfoldable pub open_store :
      ℕ → List Chunk → Dict String String → Option faiss.Index → Result VectorError VectorStore
  open_store dimension chunks index_meta faiss_file = heal (record {
    chunks = chunks;
    index_meta = index_meta;
    index = read_or_empty dimension faiss_file;
    dimension = dimension;
    faiss_file = faiss_file;
  })

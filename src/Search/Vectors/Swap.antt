-- ===== src/Search/Vectors/Swap.antt =====
-- `VectorStore.replace_from` of omnicode/search/vector_store.py: the files of a staging store are
-- moved over those of the active one, the database first and the index behind it. Each access to
-- the disk may fail. The staging store is only read, apart from its own index file.
use omnicode_mcp.Prelude.{ℕ, String, Bool, not, Option, none, some, List, if◌then◌else◌}
use omnicode_mcp.Prelude.Dict.{Dict}
use omnicode_mcp.Prelude.Result.{Result, ok, raise}
use omnicode_mcp.Search.Faiss.{Faiss}
use omnicode_mcp.Search.Vectors.{Chunk, VectorStore, VectorError, heal, open_store}

pub data SwapError : Type 0 where
  staging_is_active backup_failed index_not_written db_not_moved index_not_moved : SwapError
  index_not_read db_not_opened : SwapError
  not_healed : VectorError → SwapError

-- Whether the backup, the two `os.replace`, and the reading of the new files succeed.
pub record Moves : Type 0 where
  pub backs_up : Bool
  pub moves_db : Bool
  pub moves_index : Bool
  pub reads_index : Bool
  pub opens_db : Bool

module _ (faiss : Faiss) where
  -- The two files of a store.
  pub record Files : Type 0 where
    pub chunks : List (Chunk faiss)
    pub index_meta : Dict String String
    pub faiss_file : Option faiss.Index

  abbrev pub store_files : VectorStore faiss → Files
  store_files s = record { chunks = s.chunks; index_meta = s.index_meta; faiss_file = s.faiss_file }

  -- The active store behind the call, none where it is closed or only partly mounted, and the files.
  pub record Swapped : Type 0 where
    pub result : Result SwapError (Unit {0})
    pub active : Option (VectorStore faiss)
    pub files : Files

  abbrev pub refused : SwapError → VectorStore faiss → Swapped
  refused e active = record { result = raise e; active = some active; files = store_files active }

  abbrev pub left_closed : SwapError → Files → Swapped
  left_closed e files = record { result = raise e; active = none; files = files }

  abbrev pub mounted : Files → Result VectorError (VectorStore faiss) → Swapped
  mounted files (raise e) = left_closed (not_healed e) files
  mounted files (ok s) = record { result = ok tt; active = some s; files = store_files s }

  -- From the closed connection on, with the index as its temporary file has it.
  abbrev pub swap_files : Moves → faiss.Index → VectorStore faiss → VectorStore faiss → Swapped
  swap_files moves index staging active =
      let old : Files = store_files active in
      let moved : Files = record old { chunks = staging.chunks; index_meta = staging.index_meta } in
      let new : VectorStore faiss = record {
        chunks = staging.chunks;
        index_meta = staging.index_meta;
        index = index;
        dimension = faiss.dimension staging.index;
        faiss_file = some index;
      } in
      if not moves.moves_db
      then left_closed db_not_moved old
      else if not moves.moves_index
      then left_closed index_not_moved moved
      else if not moves.reads_index
      then left_closed index_not_read (store_files new)
      else if not moves.opens_db
      then left_closed db_not_opened (store_files new)
      else mounted (store_files new) (heal faiss new)

  abbrev pub swap_written :
      Moves → Option faiss.Index → VectorStore faiss → VectorStore faiss → Swapped
  swap_written moves none staging active = refused index_not_written active
  swap_written moves (some index) staging active = swap_files moves index staging active

  -- What becomes of the active store and its files; `is_active` is whether the staging store is the
  -- active one.
  unfoldable pub replace_from : Moves → Bool → VectorStore faiss → VectorStore faiss → Swapped
  replace_from moves is_active staging active =
      let written = faiss.write_index staging.index none in
      if is_active
      then refused staging_is_active active
      else if not moves.backs_up
      then refused backup_failed active
      else swap_written moves written staging active

  -- The next process opens the files.
  abbrev pub reopen : ℕ → Files → Result VectorError (VectorStore faiss)
  reopen dimension files = open_store faiss dimension files.chunks files.index_meta files.faiss_file

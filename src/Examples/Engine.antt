-- ===== src/Examples/Engine.antt =====
-- The search engine on a vector store of which the FAISS index is a list.
use omnicode_mcp.Prelude.{
  ℕ, ◌≡◌, refl, String, true, Option, none, some, List, [], ◌∷◌, keep, map, All,
}
use omnicode_mcp.Prelude.Eq.{string_eq}
use omnicode_mcp.Prelude.Dict.{get, put}
use omnicode_mcp.Prelude.Text.{replace_char, split, lower, ◌+++◌}
use omnicode_mcp.Search.Vectors.{
  Chunk, VectorStore, insert_or_replace, add, add_many, delete_by_file, delete_by_files, open_store,
}
use omnicode_mcp.Search.Metadata.{Json, Runtime, is_stale, is_invalid, set_index_metadata}
use omnicode_mcp.Search.Engine.{engine_indexer, upsert_content, add_pieces}
use omnicode_mcp.Search.Prepared.{Engine, prepare_semantic_index}
use omnicode_mcp.Search.Engine.Upserted.{IsUpserted, upsert_content-IsUpserted}
use omnicode_mcp.Search.Engine.Cleared.{is_other}
use omnicode_mcp.Search.Engine.Lost.{Lost}
use omnicode_mcp.Search.Engine.Unavailable.{index_codebase_silent}
use omnicode_mcp.Index.Tracker.Names.{norm_path, skip_here, extension, skip_dots, from_last_dot}
use omnicode_mcp.Index.Tracker.Walk.{walk, walk_folders, indexed_files}
use omnicode_mcp.Index.Tracker.{Tracked, detect_changes, index_codebase}
use omnicode_mcp.Index.Tracker.Loop.{paths_of}
use omnicode_mcp.Examples.Tracker.{disk, state}
use omnicode_mcp.Examples.Vectors.{list_faiss, fresh, store, list_laws, store-IsSynced}
use omnicode_mcp.Search.Batch.{
  Upsert, Reader, batch_workspace_ids, batch_indexed_revision, semantic_chunk_limit,
  limit_semantic_chunks, chunk_rows, delete_paths, add_items, upsert_contents,
}
use omnicode_mcp.Search.Batch.Replaced.{IsReplaced, upsert_contents-IsReplaced}

abbrev json : Json
json = record { text = λ value. value; number = λ value. "1"; null = "null" }

abbrev runtime : Runtime
runtime = record {
  embedding_model = "model";
  embedding_revision = none;
  embedding_dimension = some 1;
  embedding_backend = "local";
  chunker_version = "ast-chunker.v1";
  normalization = "l2";
}

-- An engine that cuts no file, with the backend that it is given.
abbrev engine : Option (String → Option ℕ) → Engine list_faiss
engine encode = record {
  json = json;
  runtime = runtime;
  encode = encode;
  exists = λ path. true;
  read = λ path. some "def f";
  chunk_file = λ content path language.
      record {
        chunk_id = path +++ ":overview";
        chunk_type = "overview";
        content = content;
        metadata = [];
      }
      ∷ [];
  now = "now";
}

-- With a backend, the changed file gets its chunk.
upserted :
    map
      (λ (c : Chunk list_faiss). c.chunk_id)
      (upsert_content list_faiss
        (engine (some (λ text. some 8)))
        "a.py"
        "def f"
        none
        none
        none
        fresh).1.chunks
    ≡ "a.py:overview" ∷ []
unfolding open_store upsert_content delete_by_file delete_by_files norm_path skip_here replace_char
    extension skip_dots split prepare_semantic_index is_stale is_invalid add_pieces add
    insert_or_replace keep get from_last_dot
upserted = refl

-- The store with the metadata that a write of the engine leaves.
abbrev served : VectorStore list_faiss
served = record store { index_meta = set_index_metadata json runtime "now" none none [] }

abbrev tracked : Tracked (VectorStore list_faiss)
tracked = (state, store)

index_codebase_silent_example :
    let run = index_codebase (engine_indexer list_faiss (engine none)) disk 9 tracked in
    ((detect_changes disk run.1.0).0 ≡ [])
    × All (λ path. Lost list_faiss path run.1.1) (paths_of (detect_changes disk state).0)
unfolding walk walk_folders indexed_files keep extension from_last_dot skip_dots split lower
    replace_char skip_here norm_path
index_codebase_silent_example =
    index_codebase_silent list_faiss (engine none) refl disk 9 tracked
      (λ path there. (refl, "def f", refl)) ((refl, refl), ((refl, refl), ((refl, refl), tt)))
      (refl, (refl, (refl, tt))) ((refl, refl), ((refl, refl), ((refl, refl), tt)))
      (refl, (refl, (refl, tt)))

upsert_content-IsUpserted_example :
    IsUpserted list_faiss
      (engine (some (λ text. some 8)))
      list_laws
      (λ text. some 8)
      "a.py"
      []
      ((engine none).chunk_file "def f" "a.py" "py")
      (keep (is_other list_faiss "a.py") served.chunks)
      (upsert_content list_faiss
        (engine (some (λ text. some 8)))
        "a.py"
        "def f"
        none
        none
        none
        served)
unfolding open_store set_index_metadata put add insert_or_replace keep norm_path skip_here
    replace_char extension skip_dots from_last_dot split
upsert_content-IsUpserted_example =
    upsert_content-IsUpserted list_faiss (engine (some (λ text. some 8))) list_laws (λ text. some 8)
      "a.py" "def f" none none none served refl store-IsSynced (refl, (refl, tt))

abbrev upsert : String → String → Upsert
upsert path content = record { path = path; content = content; metadata = [] }

abbrev reader : Reader
reader = record { text_of = λ value. some value; int_of = λ value. none }

abbrev batch : List Upsert
batch = upsert "a.py" "def f" ∷ upsert "./c.py" "def g" ∷ []

-- The rows of a.py are replaced, c.py comes behind it, and b.py stays.
batch_ids :
    map
      (λ (c : Chunk list_faiss). c.chunk_id)
      (upsert_contents reader list_faiss (engine (some (λ text. some 8))) batch served).1.chunks
    ≡ "b.py:f:1:0" ∷ "a.py:overview" ∷ "c.py:overview" ∷ []
unfolding open_store set_index_metadata put add insert_or_replace delete_by_files add_many keep
    upsert_contents chunk_rows delete_paths add_items limit_semantic_chunks semantic_chunk_limit
    prepare_semantic_index is_stale is_invalid norm_path skip_here replace_char extension skip_dots
    split get from_last_dot batch_workspace_ids batch_indexed_revision
batch_ids = refl

upsert_contents-IsReplaced_example :
    IsReplaced reader list_faiss
      (engine (some (λ text. some 8)))
      list_laws
      (λ text. some 8)
      batch
      served.chunks
      (upsert_contents reader list_faiss (engine (some (λ text. some 8))) batch served)
unfolding open_store set_index_metadata put add insert_or_replace keep chunk_rows delete_paths
    limit_semantic_chunks semantic_chunk_limit norm_path skip_here replace_char extension skip_dots
    split get from_last_dot
upsert_contents-IsReplaced_example =
    upsert_contents-IsReplaced reader list_faiss (engine (some (λ text. some 8))) list_laws
      (λ text. some 8) batch served refl store-IsSynced (refl, (refl, (refl, tt)))

-- ===== src/Search/Metadata.antt =====
-- The table `index_meta` of omnicode/search/vector_store.py: which model the vectors are from, and
-- whether that is the one in use. Values are JSON texts.
use omnicode_mcp.Prelude.{ℕ, String, Bool, false, not, ◌&&◌, ◌||◌, Option, none, some, nat_beq}
use omnicode_mcp.Prelude.Eq.{◌==◌, string_eq}
use omnicode_mcp.Prelude.Dict.{Dict, get, put}
use omnicode_mcp.Prelude.Text.{is_empty}
use omnicode_mcp.Search.Faiss.{Faiss}
use omnicode_mcp.Search.Vectors.{VectorStore}

-- JSON of a text, of a number and of `None`.
pub record Json : Type 0 where
  pub text : String → String
  pub number : ℕ → String
  pub null : String

-- What `_semantic_runtime` says of the model in use.
pub record Runtime : Type 0 where
  pub embedding_model : String
  pub embedding_revision : Option String
  pub embedding_dimension : Option ℕ
  pub embedding_backend : String
  pub chunker_version : String
  pub normalization : String

abbrev pub text_or_null : Json → Option String → String
text_or_null json none = json.null
text_or_null json (some value) = json.text value

abbrev pub number_or_null : Json → Option ℕ → String
number_or_null json none = json.null
number_or_null json (some value) = json.number value

-- `set_index_metadata` at the time `created_at`.
unfoldable pub set_index_metadata :
    Json → Runtime → String → Option String → Option ℕ → Dict String String → Dict String String
unfolding put
set_index_metadata json runtime created_at workspace_id indexed_revision meta =
    let one = put meta "embedding_model" (json.text runtime.embedding_model) in
    let two = put one "embedding_revision" (text_or_null json runtime.embedding_revision) in
    let three = put two "embedding_dimension" (number_or_null json runtime.embedding_dimension) in
    let four = put three "embedding_backend" (json.text runtime.embedding_backend) in
    let five = put four "chunker_version" (json.text runtime.chunker_version) in
    let six = put five "normalization" (json.text runtime.normalization) in
    let seven = put six "created_at" (json.text created_at) in
    let eight = put seven "workspace_id" (text_or_null json workspace_id) in
    put eight "indexed_revision" (number_or_null json indexed_revision)

-- metadata.get(key) not in {None, wanted}
abbrev pub differs : Json → Option String → String → Bool
differs json none wanted = false
differs json (some value) wanted = not (value == json.null) && not (value == wanted)

-- The same for a text that is asked for, and is not empty.
abbrev pub differs_text : Json → Option String → Option String → Bool
differs_text json value none = false
differs_text json value (some wanted) =
    not (is_empty wanted) && differs json value (json.text wanted)

module _ (faiss : Faiss) (json : Json) (runtime : Runtime) where
  -- The reasons of `semantic_metadata_status` for an index that is stale, without a minimum of the
  -- revision.
  unfoldable pub is_stale : VectorStore faiss → Bool
  unfolding get
  is_stale s =
      differs_text json (get s.index_meta "embedding_model") (some runtime.embedding_model)
      || differs_text json (get s.index_meta "embedding_revision") runtime.embedding_revision
      || differs_text json (get s.index_meta "chunker_version") (some runtime.chunker_version)

  abbrev pub invalid_for : Option ℕ → VectorStore faiss → Bool
  invalid_for none s = false
  invalid_for (some dimension) s =
      not (nat_beq (faiss.dimension s.index) dimension)
      || differs json (get s.index_meta "embedding_dimension") (json.number dimension)

  -- Its reasons for one that is invalid: another dimension is mounted, or written down.
  unfoldable pub is_invalid : VectorStore faiss → Bool
  unfolding get
  is_invalid s = invalid_for runtime.embedding_dimension s

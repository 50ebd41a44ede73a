-- ===== src/Examples/Vectors.antt =====
-- A vector store on a FAISS index that is a list: vectors are numbers of one dimension, and all of
-- them score the same.
use omnicode_mcp.Prelude.{
  ℕ, zero, suc, ◌≤◌, ◌≡◌, refl, sym, ap, String, true, false, not, Option, none, some, List, [],
  ◌∷◌, ◌++◌, keep, any, map, take, length, All, nat_beq, arith,
}
use omnicode_mcp.Prelude.Eq.{string_eq}
use omnicode_mcp.Prelude.Dict.{get}
use omnicode_mcp.Prelude.Text.{nat_beq_refl}
use omnicode_mcp.Prelude.Result.{Result, ok, raise}
use omnicode_mcp.Search.Faiss.{Faiss, FaissLaws, has_number}
use omnicode_mcp.Search.Vectors.{
  VectorStore, VectorError, Item, insert_or_replace, add, delete_by_file, delete_by_files,
  open_store,
}
use omnicode_mcp.Search.Vectors.Query.{matches, collect, search}
use omnicode_mcp.Search.Vectors.Synced.{IsSynced, add_call, delete_file_call, after, call-IsSynced}
use omnicode_mcp.Search.Vectors.Hits.{as_hit, search_by_file}
use omnicode_mcp.Search.Vectors.Swap.{Moves, replace_from, reopen}
use omnicode_mcp.Search.Vectors.Activated.{
  only_db_moves, Outcome, replace_from-Outcome, half_moved_opens,
}

abbrev ListIndex : Type 0
ListIndex = ℕ × List (ℕ × ℕ)

abbrev pub list_faiss : Faiss
list_faiss = record {
  Vector = ℕ;
  Score = ℕ;
  Index = ListIndex;
  size = λ vector. 1;
  normalize = λ vector. vector;
  empty = λ d. (d, []);
  dimension = λ index. index.0;
  entries = λ index. index.1;
  add_with_ids = λ added index. some (index.0, index.1 ++ added);
  remove_ids = λ ids index. (index.0, keep (λ e. not (has_number e.0 ids)) index.1);
  search = λ query k index. map (λ e. (7, some e.0)) (take k index.1);
  write_index = λ index file. some index;
}

abbrev some_index : Option ListIndex → ListIndex → ListIndex
some_index none other = other
some_index (some index) other = index

abbrev as_pair : ℕ × ℕ → ℕ × Option ℕ
as_pair e = (7, some e.0)

length-take :
    (k : ℕ) (entries : List (ℕ × ℕ))
    → k ≤ length entries
    → length (map as_pair (take k entries)) ≡ k
length-take zero entries h = refl
length-take (suc k) [] h = ground (arith, h)
length-take (suc k) (e ∷ entries) h = ap suc (length-take k entries (ground (arith, h)))

abbrev Hit : List (ℕ × ℕ) → ℕ × Option ℕ → Type 0
Hit entries hit = (n : ℕ) × (hit.1 ≡ some n) × (any (λ (e : ℕ × ℕ). nat_beq e.0 n) entries ≡ true)

taken_there :
    (k : ℕ) (all entries : List (ℕ × ℕ))
    → All (λ (e : ℕ × ℕ). any (λ (x : ℕ × ℕ). nat_beq x.0 e.0) all ≡ true) entries
    → All (Hit all) (map as_pair (take k entries))
taken_there zero all entries h = tt
taken_there (suc k) all [] h = tt
taken_there (suc k) all (e ∷ entries) h = ((e.0, refl, h.0), taken_there k all entries h.1)

any_more :
    (e : ℕ × ℕ) (all entries : List (ℕ × ℕ))
    → All (λ (x : ℕ × ℕ). any (λ (y : ℕ × ℕ). nat_beq y.0 x.0) all ≡ true) entries
    → All (λ (x : ℕ × ℕ). any (λ (y : ℕ × ℕ). nat_beq y.0 x.0) (e ∷ all) ≡ true) entries
any_more e all [] h = tt
any_more e all (x ∷ entries) h = (ground (arith, h.0), any_more e all entries h.1)

all_there :
    (entries : List (ℕ × ℕ))
    → All (λ (x : ℕ × ℕ). any (λ (y : ℕ × ℕ). nat_beq y.0 x.0) entries ≡ true) entries
all_there [] = tt
all_there (e ∷ entries) =
    (rw (nat_beq_refl e.0) refl, any_more e entries entries (all_there entries))

pub list_laws : FaissLaws list_faiss
list_laws = record {
  entries-empty = λ d. refl;
  entries-add = λ added index next e. sym (ap (λ (o : Option ListIndex). (some_index o next).1) e);
  entries-remove = λ ids index. refl;
  search_all = λ query k index one h. length-take k index.1 h;
  search_numbers = λ query k index one h. taken_there k index.1 index.1 (all_there index.1);
}

abbrev item : String → String → ℕ → Item list_faiss
item chunk_id path vector = record {
  chunk_id = chunk_id;
  embedding = vector;
  file_path = path;
  chunk_type = "function";
  content = "def f";
  metadata = ("symbol_name", "f") ∷ [];
}

abbrev opened : Result VectorError (VectorStore list_faiss) → VectorStore list_faiss
opened (ok s) = s
opened (raise e) = record {
  chunks = [];
  index_meta = [];
  index = (0, []);
  dimension = 0;
  faiss_file = none;
}

abbrev pub fresh : VectorStore list_faiss
fresh = opened (open_store list_faiss 1 [] [] none)

-- Three chunks of two files.
abbrev pub store : VectorStore list_faiss
store = after list_faiss (add_call (item "b.py:f:1:0" "b.py" 5)) (
    after list_faiss (add_call (item "a.py:g:9:1" "a.py" 4))
      (after list_faiss (add_call (item "a.py:f:1:0" "a.py" 3)) fresh))

numbers : store.index.1 ≡ (1, 3) ∷ (2, 4) ∷ (3, 5) ∷ []
unfolding open_store add insert_or_replace keep
numbers = refl

pub store-IsSynced : IsSynced list_faiss store
unfolding open_store add insert_or_replace keep
store-IsSynced = (
  refl,
  ((omega arith, (omega arith, tt)), ((omega arith, tt), (tt, tt))),
  (refl, (refl, (refl, tt))),
)

-- The numbers of a deleted file are gone from the index.
deleted_numbers : (after list_faiss (delete_file_call "a.py") store).index.1 ≡ (3, 5) ∷ []
unfolding open_store add insert_or_replace keep delete_by_file delete_by_files
deleted_numbers = refl

call-IsSynced_example :
    IsSynced list_faiss (after list_faiss (add_call (item "c.py:f:1:0" "c.py" 6)) store)
unfolding open_store add insert_or_replace keep
call-IsSynced_example =
    call-IsSynced list_faiss list_laws (add_call (item "c.py:f:1:0" "c.py" 6)) store
      (refl, (refl, (refl, (refl, tt)))) store-IsSynced

two_hits : map (as_hit list_faiss) (search list_faiss 3 2 [] store) ≡ (7, some 1) ∷ (7, some 2) ∷ []
unfolding open_store add insert_or_replace keep search collect matches
two_hits = refl

-- The file has chunks, and the search for them finds nothing.
search_by_file_example : search list_faiss 3 2 (("file_path", "a.py") ∷ []) store ≡ []
unfolding get open_store add insert_or_replace keep
search_by_file_example =
    search_by_file list_faiss store 3 2 (("file_path", "a.py") ∷ []) "a.py" refl
      (refl, (refl, (refl, tt)))

abbrev all_moves : Moves
all_moves = record {
  backs_up = true;
  moves_db = true;
  moves_index = true;
  reads_index = true;
  opens_db = true;
}

-- A staging store with one chunk, that is made again from the start.
abbrev staging : VectorStore list_faiss
staging = after list_faiss (add_call (item "c.py:f:1:0" "c.py" 6)) fresh

staging-IsSynced : IsSynced list_faiss staging
unfolding open_store add insert_or_replace keep
staging-IsSynced = (refl, (tt, tt), (refl, tt))

replace_from-Outcome_example :
    Outcome list_faiss all_moves staging store
      (replace_from list_faiss all_moves false staging store)
replace_from-Outcome_example =
    replace_from-Outcome list_faiss all_moves false staging store
      (λ index e. sym (ap (λ (o : Option ListIndex). (some_index o index).1) e)) staging-IsSynced

half_moved_opens_example :
    reopen list_faiss 1 (replace_from list_faiss only_db_moves false staging store).files
    ≡ ok (record {
      chunks = staging.chunks;
      index_meta = staging.index_meta;
      index = store.index;
      dimension = 1;
      faiss_file = some store.index;
    })
unfolding open_store add insert_or_replace keep
half_moved_opens_example =
    half_moved_opens list_faiss staging store staging.index store.index 1 refl refl refl

-- ===== src/Search/Faiss.antt =====
-- What omnicode/search/vector_store.py uses of FAISS and NumPy: vectors, and an index of them under
-- numbers (`IndexIDMap` over `IndexFlatIP`) with its file.
use omnicode_mcp.Prelude.{
  ℕ, ◌≡◌, ◌≤◌, Bool, true, not, Option, some, List, [], ◌++◌, keep, any, length, All, nat_beq,
}

abbrev pub has_number : ℕ → List ℕ → Bool
has_number n = any (λ k. nat_beq k n)

pub record Faiss : Type 1 where
  pub Vector : Type 0
  pub Score : Type 0
  pub Index : Type 0
  pub size : Vector → ℕ
  pub normalize : Vector → Vector
  -- IndexIDMap(IndexFlatIP(d))
  pub empty : ℕ → Index
  pub dimension : Index → ℕ
  -- The vectors with their numbers, in the order in which they were added.
  pub entries : Index → List (ℕ × Vector)
  -- The index behind the call, or an AssertionError where a vector has another dimension.
  pub add_with_ids : List (ℕ × Vector) → Index → Option Index
  pub remove_ids : List ℕ → Index → Index
  pub search : Vector → ℕ → Index → List (Score × Option ℕ)
  -- The file behind the call, which may fail and leave what there was.
  pub write_index : Index → Option Index → Option Index

-- What the code relies on.
pub record FaissLaws (faiss : Faiss) : Type 0 where
  pub entries-empty : (d : ℕ) → faiss.entries (faiss.empty d) ≡ []
  pub entries-add :
      (added : List (ℕ × faiss.Vector)) (index next : faiss.Index)
      → faiss.add_with_ids added index ≡ some next
      → faiss.entries next ≡ faiss.entries index ++ added
  pub entries-remove :
      (ids : List ℕ) (index : faiss.Index)
      → faiss.entries (faiss.remove_ids ids index)
        ≡ keep (λ e. not (has_number e.0 ids)) (faiss.entries index)
  -- For one hit or more, and up to as many as there are vectors, each one is there.
  pub search_all :
      (query : faiss.Vector) (k : ℕ) (index : faiss.Index)
      → 1 ≤ k
      → k ≤ length (faiss.entries index)
      → length (faiss.search query k index) ≡ k
  pub search_numbers :
      (query : faiss.Vector) (k : ℕ) (index : faiss.Index)
      → 1 ≤ k
      → k ≤ length (faiss.entries index)
      → All
          (λ (hit : faiss.Score × Option ℕ).
            (n : ℕ) × (hit.1 ≡ some n)
            × (any (λ (e : ℕ × faiss.Vector). nat_beq e.0 n) (faiss.entries index) ≡ true))
          (faiss.search query k index)

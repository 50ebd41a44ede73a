-- ===== src/Search/Vectors/Hits.antt =====
-- What a search returns, by the hits of the FAISS index.
use omnicode_mcp.Prelude.{
  ℕ, ◌+◌, ◌*◌, ◌≡◌, refl, sym, subst, ◌∙◌, inl, inr, String, Bool, true, false, not, ◌&&◌, Option,
  none, some, List, [], ◌∷◌, any, min, All, length, nat_beq, Bool-cases, if_either, arith,
  if◌then◌else◌,
}
use omnicode_mcp.Prelude.Eq.{◌==◌, string_eq, eq_of_beq}
use omnicode_mcp.Prelude.Dict.{Dict, get}
use omnicode_mcp.Search.Faiss.{Faiss}
use omnicode_mcp.Search.Vectors.{Chunk, VectorStore}
use omnicode_mcp.Search.Vectors.Query.{
  row_at, hit_row, with_row, passes, matches, collect, is_filtered, search,
}

module _ (faiss : Faiss) where
  -- A result as a hit: its score, and the number of its row.
  abbrev pub as_hit : Chunk faiss × faiss.Score → faiss.Score × Option ℕ
  as_hit r = (r.1, some r.0.faiss_id)

  abbrev has_entry : ℕ → List (ℕ × Option faiss.Vector) → Bool
  has_entry n = any (λ e. nat_beq e.0 n)

  -- The hit is of a vector that is there.
  abbrev IsThere : List (ℕ × faiss.Vector) → faiss.Score × Option ℕ → Type 0
  IsThere entries hit =
      (n : ℕ) × (hit.1 ≡ some n) × (any (λ (e : ℕ × faiss.Vector). nat_beq e.0 n) entries ≡ true)

  lacks_file :
      (c : Chunk faiss) (filter : Dict String String) (wanted : String)
      → get filter "file_path" ≡ some wanted
      → get c.metadata "file_path" ≡ none
      → matches faiss c filter ≡ false
  unfolding matches get
  lacks_file c [] wanted asked lacks = cc
  lacks_file c ((key, value) ∷ filter) wanted asked lacks = elim (Bool-cases (key == "file_path")) [
    | inl same ↦
        let missing =
          subst (λ k. get c.metadata k ≡ none) (sym (eq_of_beq key "file_path" same)) lacks in
        rw missing (
          if_either (λ b. b ≡ false) (key == "file_path" && not (c.file_path == value)) false false
            refl refl)
    | inr other ↦
        let rest = lacks_file c filter wanted (rw other at asked) lacks in
        rw (other, rest) (ground arith)
  ]

  abbrev Lacks : Chunk faiss → Type 0
  Lacks c = get c.metadata "file_path" ≡ none

  row_at-Lacks :
      (chunks : List (Chunk faiss)) (n : ℕ) (c : Chunk faiss)
      → All Lacks chunks
      → row_at faiss chunks n ≡ some c
      → Lacks c
  row_at-Lacks [] n c h e = cc
  row_at-Lacks (d ∷ chunks) n c h e = elim (Bool-cases (nat_beq d.faiss_id n)) [
    | inl same ↦
        subst (λ (o : Option (Chunk faiss)). elim o [ none ↦ Unit | some x ↦ Lacks x ])
          (rw same at e) h.0
    | inr other ↦ row_at-Lacks chunks n c h.1 (rw other at e)
  ]

  with_row_skips :
      (s : VectorStore faiss) (filter : Dict String String) (wanted : String) (top_k next : ℕ)
      (score : faiss.Score) (rest : List (Chunk faiss × faiss.Score)) (found : Option (Chunk faiss))
      → get filter "file_path" ≡ some wanted
      → ((c : Chunk faiss) → found ≡ some c → Lacks c)
      → with_row faiss filter top_k next score rest found ≡ rest
  with_row_skips s filter wanted top_k next score rest none asked lacks = refl
  with_row_skips s filter wanted top_k next score rest (some c) asked lacks =
      rw (lacks_file c filter wanted asked (lacks c refl)) refl

  hit_row-Lacks :
      (s : VectorStore faiss) (n : Option ℕ) (c : Chunk faiss)
      → All Lacks s.chunks
      → hit_row faiss s n ≡ some c
      → Lacks c
  hit_row-Lacks s none c lacks e = cc
  hit_row-Lacks s (some n) c lacks e = row_at-Lacks s.chunks n c lacks e

  collect_none :
      (s : VectorStore faiss) (filter : Dict String String) (wanted : String) (top_k count : ℕ)
      (hits : List (faiss.Score × Option ℕ))
      → get filter "file_path" ≡ some wanted
      → All Lacks s.chunks
      → collect faiss s filter top_k count hits ≡ []
  unfolding collect
  collect_none s filter wanted top_k count [] asked lacks = refl
  collect_none s filter wanted top_k count (hit ∷ hits) asked lacks =
      let found = hit_row faiss s hit.1 in
      let next = if passes faiss filter found then count + 1 else count in
      with_row_skips s filter wanted top_k next hit.0 (collect faiss s filter top_k next hits) found
        asked (λ c e. hit_row-Lacks s hit.1 c lacks e)
      ∙ collect_none s filter wanted top_k (if passes faiss filter found then count + 1 else count)
          hits asked lacks

  -- A search that filters by `file_path` returns nothing, whatever the chunks' paths, where no chunk
  -- has the path in its metadata as well.
  pub search_by_file :
      (s : VectorStore faiss) (query : faiss.Vector) (top_k : ℕ) (filter : Dict String String)
      (wanted : String)
      → get filter "file_path" ≡ some wanted
      → All Lacks s.chunks
      → search faiss query top_k filter s ≡ []
  unfolding search
  search_by_file s query top_k filter wanted asked lacks =
      let total = length (faiss.entries s.index) in
      let fetch_k = if is_filtered faiss filter then top_k * 5 else top_k in
      let hits = faiss.search (faiss.normalize query) (min fetch_k total) s.index in
      if_either (λ r. r ≡ []) (nat_beq total 0) [] (collect faiss s filter top_k 0 hits) refl
        (collect_none s filter wanted top_k 0 hits asked lacks)

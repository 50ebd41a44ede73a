-- ===== src/Search/Vectors/Removed.antt =====
-- Lists of rows with ascending numbers: rows taken out.
use omnicode_mcp.Prelude.{
  ℕ, ◌≡◌, refl, ap, ◌∙◌, inl, inr, String, Bool, true, false, not, Option, some, List, [], ◌∷◌,
  keep, All, if_either, Bool-cases, arith, if◌then◌else◌,
}
use omnicode_mcp.Prelude.Eq.{string_eq}
use omnicode_mcp.Prelude.Names.{mem, NoRepeat}
use omnicode_mcp.Search.Faiss.{Faiss, has_number}
use omnicode_mcp.Search.Vectors.{Chunk, ids_of}
use omnicode_mcp.Search.Vectors.Rows.{chunk_ids, stored, indexed, Above, Ascends}

module _ (faiss : Faiss) where
  pub Above-keep :
      (p : Chunk faiss → Bool) (k : ℕ) (chunks : List (Chunk faiss))
      → Above faiss k chunks
      → Above faiss k (keep p chunks)
  unfolding keep
  Above-keep p k [] h = tt
  Above-keep p k (c ∷ chunks) h =
      if_either (Above faiss k) (p c) (c ∷ keep p chunks) (keep p chunks)
        (h.0, Above-keep p k chunks h.1) (Above-keep p k chunks h.1)

  pub Ascends-keep :
      (p : Chunk faiss → Bool) (chunks : List (Chunk faiss))
      → Ascends faiss chunks
      → Ascends faiss (keep p chunks)
  unfolding keep
  Ascends-keep p [] h = tt
  Ascends-keep p (c ∷ chunks) h =
      if_either (Ascends faiss) (p c) (c ∷ keep p chunks) (keep p chunks)
        (Above-keep p c.faiss_id chunks h.0, Ascends-keep p chunks h.1) (Ascends-keep p chunks h.1)

  pub mem-chunk_ids-keep :
      (p : Chunk faiss → Bool) (x : String) (chunks : List (Chunk faiss))
      → mem x (chunk_ids faiss chunks) ≡ false
      → mem x (chunk_ids faiss (keep p chunks)) ≡ false
  unfolding keep
  mem-chunk_ids-keep p x [] h = h
  mem-chunk_ids-keep p x (c ∷ chunks) h = ground (arith, h, mem-chunk_ids-keep p x chunks)

  pub NoRepeat-chunk_ids-keep :
      (p : Chunk faiss → Bool) (chunks : List (Chunk faiss))
      → NoRepeat (chunk_ids faiss chunks)
      → NoRepeat (chunk_ids faiss (keep p chunks))
  unfolding keep
  NoRepeat-chunk_ids-keep p [] h = tt
  NoRepeat-chunk_ids-keep p (c ∷ chunks) h =
      if_either (λ cs. NoRepeat (chunk_ids faiss cs)) (p c) (c ∷ keep p chunks) (keep p chunks)
        (mem-chunk_ids-keep p c.chunk_id chunks h.0, NoRepeat-chunk_ids-keep p chunks h.1)
        (NoRepeat-chunk_ids-keep p chunks h.1)

  pub has_number-ids :
      (n : ℕ) (chunks : List (Chunk faiss))
      → Above faiss n chunks
      → has_number n (ids_of faiss chunks) ≡ false
  has_number-ids n [] h = refl
  has_number-ids n (c ∷ chunks) h = ground (arith, h.0, has_number-ids n chunks h.1)

  pub numbers_head :
      (b : Bool) (c : Chunk faiss) (kept : List (Chunk faiss))
      → has_number c.faiss_id (ids_of faiss kept) ≡ false
      → has_number c.faiss_id (ids_of faiss (if b then c ∷ kept else kept)) ≡ b
  numbers_head true c kept h = ground arith
  numbers_head false c kept h = h

  pub numbers_tail :
      (p : Chunk faiss → Bool) (b : Bool) (c : Chunk faiss) (kept chunks : List (Chunk faiss))
      → Above faiss c.faiss_id chunks
      → All (λ (d : Chunk faiss). has_number d.faiss_id (ids_of faiss kept) ≡ p d) chunks
      → All
          (λ (d : Chunk faiss).
            has_number d.faiss_id (ids_of faiss (if b then c ∷ kept else kept)) ≡ p d)
          chunks
  numbers_tail p b c kept [] up h = tt
  numbers_tail p true c kept (d ∷ chunks) up h =
      (ground (arith, up.0, h.0), numbers_tail p true c kept chunks up.1 h.1)
  numbers_tail p false c kept (d ∷ chunks) up h = h

  -- Among the rows, the numbers of those that pass a test are exactly their own.
  pub numbers_of_kept :
      (p : Chunk faiss → Bool) (chunks : List (Chunk faiss))
      → Ascends faiss chunks
      → All (λ (d : Chunk faiss). has_number d.faiss_id (ids_of faiss (keep p chunks)) ≡ p d) chunks
  unfolding keep
  numbers_of_kept p [] up = tt
  numbers_of_kept p (c ∷ chunks) up = (
    numbers_head (p c) c (keep p chunks)
        (has_number-ids c.faiss_id (keep p chunks) (Above-keep p c.faiss_id chunks up.0)),
    numbers_tail p (p c) c (keep p chunks) chunks up.0 (numbers_of_kept p chunks up.1),
  )

  pub keep_numbers :
      (p : Chunk faiss → Bool) (ids : List ℕ) (chunks : List (Chunk faiss))
      → All (λ (c : Chunk faiss). has_number c.faiss_id ids ≡ p c) chunks
      → keep (λ (e : ℕ × Option faiss.Vector). not (has_number e.0 ids)) (stored faiss chunks)
        ≡ stored faiss (keep (λ c. not (p c)) chunks)
  unfolding keep
  keep_numbers p ids [] h = refl
  keep_numbers p ids (c ∷ chunks) h = elim (Bool-cases (p c)) [
    | inl goes ↦ rw (h.0 ∙ goes, goes) (keep_numbers p ids chunks h.1)
    | inr stays ↦
        rw (h.0 ∙ stays, stays) (ap (◌∷◌ (c.faiss_id, c.embedding)) (keep_numbers p ids chunks h.1))
  ]

  pub indexed-keep :
      (ids : List ℕ) (entries : List (ℕ × faiss.Vector))
      → indexed faiss (keep (λ e. not (has_number e.0 ids)) entries)
        ≡ keep (λ (e : ℕ × Option faiss.Vector). not (has_number e.0 ids)) (indexed faiss entries)
  unfolding keep
  indexed-keep ids [] = refl
  indexed-keep ids (e ∷ entries) = elim (Bool-cases (has_number e.0 ids)) [
    | inl there ↦ rw there (indexed-keep ids entries)
    | inr away ↦ rw away (ap (◌∷◌ (e.0, some e.1)) (indexed-keep ids entries))
  ]

-- ===== src/Search/Vectors/Rows.antt =====
-- Lists of rows with ascending numbers: new rows behind them.
use omnicode_mcp.Prelude.Keep.{append_nil, snoc_append}
use omnicode_mcp.Prelude.{
  ℕ, ◌+◌, ◌≤◌, ◌<◌, ◌≡◌, refl, sym, ap, subst, ◌∙◌, String, false, not, ◌||◌, Option, some, List,
  [], ◌∷◌, ◌++◌, keep, map, All, All-append, nat_beq, arith,
}
use omnicode_mcp.Prelude.Eq.{◌==◌, string_eq}
use omnicode_mcp.Prelude.Names.{mem, NoRepeat}
use omnicode_mcp.Search.Faiss.{Faiss}
use omnicode_mcp.Search.Vectors.{
  Chunk, Item, max_id, insert_or_replace, insert_all, rows_from, entries_from,
}

module _ (faiss : Faiss) where
  abbrev pub chunk_ids : List (Chunk faiss) → List String
  chunk_ids = map (λ (c : Chunk faiss). c.chunk_id)

  abbrev pub stored : List (Chunk faiss) → List (ℕ × Option faiss.Vector)
  stored = map (λ (c : Chunk faiss). (c.faiss_id, c.embedding))

  abbrev pub indexed : List (ℕ × faiss.Vector) → List (ℕ × Option faiss.Vector)
  indexed = map (λ (e : ℕ × faiss.Vector). (e.0, some e.1))

  abbrev pub Above : ℕ → List (Chunk faiss) → Type 0
  Above n = All (λ (c : Chunk faiss). n < c.faiss_id)

  abbrev pub Ascends : List (Chunk faiss) → Type 0
  Ascends [] = Unit
  Ascends (c ∷ chunks) = Above c.faiss_id chunks × Ascends chunks

  pub below_max :
      (chunks : List (Chunk faiss)) (m : ℕ)
      → max_id faiss chunks ≤ m
      → All (λ (c : Chunk faiss). c.faiss_id < m + 1) chunks
  below_max [] m h = tt
  below_max (c ∷ chunks) m h = (ground (arith, h), below_max chunks m (ground (arith, h)))

  pub Above-rows_from :
      (k n : ℕ) (items : List (Item faiss)) → k < n → Above k (rows_from faiss n items)
  Above-rows_from k n [] h = tt
  Above-rows_from k n (item ∷ items) h = (h, Above-rows_from k (n + 1) items (omega (arith, h)))

  pub Ascends-rows_from : (n : ℕ) (items : List (Item faiss)) → Ascends (rows_from faiss n items)
  Ascends-rows_from n [] = tt
  Ascends-rows_from n (item ∷ items) =
      (Above-rows_from n (n + 1) items (omega arith), Ascends-rows_from (n + 1) items)

  pub Ascends-append :
      (chunks : List (Chunk faiss)) (n : ℕ) (items : List (Item faiss))
      → Ascends chunks
      → All (λ (c : Chunk faiss). c.faiss_id < n) chunks
      → Ascends (chunks ++ rows_from faiss n items)
  Ascends-append [] n items up below = Ascends-rows_from n items
  Ascends-append (c ∷ chunks) n items up below = (
    All-append (λ (d : Chunk faiss). c.faiss_id < d.faiss_id) chunks (rows_from faiss n items) up.0
        (Above-rows_from c.faiss_id n items below.0),
    Ascends-append chunks n items up.1 below.1,
  )

  pub chunk_ids-append :
      (a b : List (Chunk faiss)) → chunk_ids (a ++ b) ≡ chunk_ids a ++ chunk_ids b
  chunk_ids-append [] b = refl
  chunk_ids-append (c ∷ a) b = ap (◌∷◌ c.chunk_id) (chunk_ids-append a b)

  pub stored-append : (a b : List (Chunk faiss)) → stored (a ++ b) ≡ stored a ++ stored b
  stored-append [] b = refl
  stored-append (c ∷ a) b = ap (◌∷◌ (c.faiss_id, c.embedding)) (stored-append a b)

  pub indexed-append : (a b : List (ℕ × faiss.Vector)) → indexed (a ++ b) ≡ indexed a ++ indexed b
  indexed-append [] b = refl
  indexed-append (e ∷ a) b = ap (◌∷◌ (e.0, some e.1)) (indexed-append a b)

  pub lt-later :
      (k : ℕ) (chunks rest : List (Chunk faiss)) (c : Chunk faiss)
      → Above k (chunks ++ c ∷ rest)
      → k < c.faiss_id
  lt-later k [] rest c h = h.0
  lt-later k (d ∷ chunks) rest c h = lt-later k chunks rest c h.1

  pub absent_later :
      (x : String) (chunks rest : List (Chunk faiss)) (c : Chunk faiss)
      → mem x (chunk_ids (chunks ++ c ∷ rest)) ≡ false
      → (x == c.chunk_id) ≡ false
  absent_later x [] rest c h =
      ground (arith, h, string_eq.same_iff x c.chunk_id, string_eq.same_iff c.chunk_id x)
  absent_later x (d ∷ chunks) rest c h = absent_later x chunks rest c (ground (arith, h))

  -- A new row with a new number and a new chunk id replaces nothing.
  pub kept_all :
      (chunks rest : List (Chunk faiss)) (c : Chunk faiss)
      → Ascends (chunks ++ c ∷ rest)
      → NoRepeat (chunk_ids (chunks ++ c ∷ rest))
      → keep
          (λ (old : Chunk faiss).
            not (nat_beq old.faiss_id c.faiss_id || old.chunk_id == c.chunk_id))
          chunks
        ≡ chunks
  unfolding keep
  kept_all [] rest c up once = refl
  kept_all (old ∷ chunks) rest c up once =
      let number : nat_beq old.faiss_id c.faiss_id ≡ false =
        ground (arith, lt-later old.faiss_id chunks rest c up.0) in
      rw (number, absent_later old.chunk_id chunks rest c once.0)
        (ap (◌∷◌ old) (kept_all chunks rest c up.1 once.1))

  -- New rows are set behind the old ones.
  pub insert_all_fresh :
      (rows chunks : List (Chunk faiss))
      → Ascends (chunks ++ rows)
      → NoRepeat (chunk_ids (chunks ++ rows))
      → insert_all faiss rows chunks ≡ chunks ++ rows
  unfolding insert_or_replace
  insert_all_fresh [] chunks up once = sym (append_nil chunks)
  insert_all_fresh (c ∷ rows) chunks up once =
      let moved = snoc_append chunks c rows in
      ap (λ old. insert_all faiss rows (old ++ c ∷ [])) (kept_all chunks rows c up once)
      ∙ insert_all_fresh rows (chunks ++ c ∷ []) (subst Ascends (sym moved) up)
          (subst (λ cs. NoRepeat (chunk_ids cs)) (sym moved) once)
      ∙ moved

  pub indexed-entries_from :
      (n : ℕ) (items : List (Item faiss))
      → indexed (entries_from faiss n items) ≡ stored (rows_from faiss n items)
  indexed-entries_from n [] = refl
  indexed-entries_from n (item ∷ items) =
      ap (◌∷◌ (n, some (faiss.normalize item.embedding))) (indexed-entries_from (n + 1) items)

  abbrev pub item_ids : List (Item faiss) → List String
  item_ids = map (λ (item : Item faiss). item.chunk_id)

  pub chunk_ids-rows_from :
      (n : ℕ) (items : List (Item faiss)) → chunk_ids (rows_from faiss n items) ≡ item_ids items
  chunk_ids-rows_from n [] = refl
  chunk_ids-rows_from n (item ∷ items) = ap (◌∷◌ item.chunk_id) (chunk_ids-rows_from (n + 1) items)

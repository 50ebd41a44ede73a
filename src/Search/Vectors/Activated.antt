-- ===== src/Search/Vectors/Activated.antt =====
-- What `replace_from` leaves in memory and on the disk, and what the next process reads.
use omnicode_mcp.Prelude.{
  ℕ, ◌≡◌, refl, ap, ◌∙◌, ◌⊎◌, inl, inr, Bool, true, false, not, ◌&&◌, Bool-cases, Option, none,
  some, List, [], ◌∷◌, length, nat_beq, arith,
}
use omnicode_mcp.Prelude.Result.{ok, raise}
use omnicode_mcp.Search.Faiss.{Faiss}
use omnicode_mcp.Search.Vectors.{Chunk, VectorStore, heal, open_store}
use omnicode_mcp.Search.Vectors.Rows.{stored, indexed}
use omnicode_mcp.Search.Vectors.Synced.{IsSynced}
use omnicode_mcp.Search.Vectors.Swap.{
  Moves, Files, store_files, Swapped, swap_files, swap_written, replace_from, reopen,
}

-- The database is moved and the index is not.
abbrev pub only_db_moves : Moves
only_db_moves = record {
  backs_up = true;
  moves_db = true;
  moves_index = false;
  reads_index = true;
  opens_db = true;
}

module _ (faiss : Faiss) where
  no_vector_lost :
      (entries : List (ℕ × faiss.Vector)) (chunks : List (Chunk faiss))
      → indexed faiss entries ≡ stored faiss chunks
      → not (nat_beq (length chunks) 0) && nat_beq (length entries) 0 ≡ false
  no_vector_lost [] [] e = refl
  no_vector_lost [] (c ∷ chunks) e = cc
  no_vector_lost (x ∷ entries) [] e = refl
  no_vector_lost (x ∷ entries) (c ∷ chunks) e = ground arith

  -- A store in step is not healed.
  heal_synced : (s : VectorStore faiss) → IsSynced faiss s → heal faiss s ≡ ok s
  heal_synced s synced =
      let complete = no_vector_lost (faiss.entries s.index) s.chunks synced.0 in
      ground (arith, complete)

  -- The rows of the staging store beside the index of the active one.
  abbrev pub half_moved : VectorStore faiss → VectorStore faiss → Files faiss
  half_moved staging active = record {
    chunks = staging.chunks;
    index_meta = staging.index_meta;
    faiss_file = active.faiss_file;
  }

  -- The files are those of a store with the rows of the staging store, in step with its vectors,
  -- which the next process opens.
  abbrev pub Activated : VectorStore faiss → Files faiss → VectorStore faiss → Type 0
  Activated staging files t =
      (files ≡ store_files faiss t)
      × (t.chunks ≡ staging.chunks)
      × (t.dimension ≡ faiss.dimension staging.index)
      × IsSynced faiss t
      × (reopen faiss t.dimension files ≡ ok t)

  abbrev pub Outcome : Moves → VectorStore faiss → VectorStore faiss → Swapped faiss → Type 0
  Outcome moves staging active out = elim out.result [
    | ok done ↦ (t : VectorStore faiss) × (out.active ≡ some t) × Activated staging out.files t
    | raise e ↦
        (out.files ≡ store_files faiss active)
        ⊎ (((out.files ≡ half_moved staging active)
              × (out.active ≡ none)
              × (moves.moves_db ≡ true)
              × (moves.moves_index ≡ false))
            ⊎ ((t : VectorStore faiss) × (out.active ≡ none)
                × (moves.reads_index && moves.opens_db ≡ false)
                × Activated staging out.files t))
  ]

  abbrev taken_over : VectorStore faiss → faiss.Index → VectorStore faiss
  taken_over staging index = record {
    chunks = staging.chunks;
    index_meta = staging.index_meta;
    index = index;
    dimension = faiss.dimension staging.index;
    faiss_file = some index;
  }

  swap_files-Outcome :
      (moves : Moves) (index : faiss.Index) (staging active : VectorStore faiss)
      → faiss.entries index ≡ faiss.entries staging.index
      → IsSynced faiss staging
      → Outcome moves staging active (swap_files faiss moves index staging active)
  unfolding open_store
  swap_files-Outcome moves index staging active same synced =
      let new = taken_over staging index in
      let kept : IsSynced faiss new = (ap (indexed faiss) same ∙ synced.0, synced.1, synced.2) in
      let healed = heal_synced new kept in
      elim (Bool-cases moves.moves_db) [
        | inr stays ↦ rw stays (inl refl)
        | inl moved ↦ elim (Bool-cases moves.moves_index) [
          | inr stays ↦ rw (moved, stays) (inr (inl (refl, refl, refl, refl)))
          | inl moved' ↦ elim (Bool-cases moves.reads_index) [
            | inr fails ↦
                rw (moved, moved', fails)
                  (inr (inr (new, refl, refl, (refl, refl, refl, kept, healed))))
            | inl reads ↦ elim (Bool-cases moves.opens_db) [
              | inr fails ↦
                  rw (moved, moved', reads, fails)
                    (inr (inr (new, refl, refl, (refl, refl, refl, kept, healed))))
              | inl opens ↦
                  rw (moved, moved', reads, opens, healed)
                    (new, refl, (refl, refl, refl, kept, healed))
            ]
          ]
        ]
      ]

  swap_written-Outcome :
      (moves : Moves) (written : Option faiss.Index) (staging active : VectorStore faiss)
      → ((index : faiss.Index)
          → written ≡ some index
          → faiss.entries index ≡ faiss.entries staging.index)
      → IsSynced faiss staging
      → Outcome moves staging active (swap_written faiss moves written staging active)
  swap_written-Outcome moves none staging active same synced = inl refl
  swap_written-Outcome moves (some index) staging active same synced =
      swap_files-Outcome moves index staging active (same index refl) synced

  -- Where the temporary file of the index, once written, has the vectors of the staging index, and
  -- the staging store is in step: a `replace_from` that returns mounts the rows of the staging store
  -- with its vectors, and the next process opens just that store. One that raises leaves the two
  -- files of the active store as they were, with two exceptions. Where the database was moved and
  -- the index was not, the files have the rows of the staging store beside the old index. Where both
  -- were moved, but the index could not be read or the database not be opened, they are the new
  -- files, and no store is mounted until a process opens them.
  pub replace_from-Outcome :
      (moves : Moves) (is_active : Bool) (staging active : VectorStore faiss)
      → ((index : faiss.Index)
          → faiss.write_index staging.index none ≡ some index
          → faiss.entries index ≡ faiss.entries staging.index)
      → IsSynced faiss staging
      → Outcome moves staging active (replace_from faiss moves is_active staging active)
  unfolding replace_from
  replace_from-Outcome moves true staging active same synced = inl refl
  replace_from-Outcome moves false staging active same synced = elim (Bool-cases moves.backs_up) [
    | inr fails ↦ rw fails (inl refl)
    | inl holds ↦ rw holds (
        swap_written-Outcome moves (faiss.write_index staging.index none) staging active same
          synced)
  ]

  -- Where the database is moved and the index is not, and the old index has a vector, the next
  -- process opens the rows of the staging store with the vectors of the old one, and heals nothing.
  pub half_moved_opens :
      (staging active : VectorStore faiss) (written index : faiss.Index) (dimension : ℕ)
      → faiss.write_index staging.index none ≡ some written
      → active.faiss_file ≡ some index
      → nat_beq (length (faiss.entries index)) 0 ≡ false
      → reopen faiss dimension (replace_from faiss only_db_moves false staging active).files
        ≡ ok (record {
          chunks = staging.chunks;
          index_meta = staging.index_meta;
          index = index;
          dimension = dimension;
          faiss_file = some index;
        })
  unfolding replace_from open_store
  half_moved_opens staging active written index dimension w there filled =
      rw (w, there, filled) (ground arith)

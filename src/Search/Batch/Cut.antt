-- ===== src/Search/Batch/Cut.antt =====
-- What `_limit_semantic_chunks` of omnicode/search/engine.py leaves of the chunks of a file and of
-- its metadata.
use omnicode_mcp.Prelude.{
  ℕ, zero, suc, ◌≤◌, ◌≡◌, refl, sym, ap, inl, inr, String, false, ◌||◌, List, [], ◌∷◌, take, length,
  ◌-◌, arith, Bool-cases, leb, leb→le, nat_beq, if◌then◌else◌,
}
use omnicode_mcp.Prelude.Eq.{string_eq}
use omnicode_mcp.Prelude.Dict.{Dict, update}
use omnicode_mcp.Search.Prepared.{Piece}

-- The first chunks up to a limit, and all where there is none.
abbrev pub shortened : ℕ → List Piece → List Piece
shortened zero pieces = pieces
shortened (suc n) pieces = take (suc n) pieces

take_all : (n : ℕ) (pieces : List Piece) → length pieces ≤ n → take n pieces ≡ pieces
take_all zero [] l = refl
take_all (suc n) [] l = refl
take_all zero (piece ∷ pieces) l = absurd (omega (arith, l))
take_all (suc n) (piece ∷ pieces) l = ap (◌∷◌ piece) (take_all n pieces (omega (arith, l)))

-- The metadata of a file of `count` chunks under a limit: with a note of what was left out, if
-- something was.
abbrev pub noted : (ℕ → String) → ℕ → ℕ → Dict String String → Dict String String
noted number zero count metadata = metadata
noted number (suc n) count metadata =
    if leb count (suc n)
    then metadata
    else (update metadata (
        ("semantic_chunk_limit_applied", "true")
        ∷ ("semantic_chunk_limit", number (suc n))
        ∷ ("semantic_chunks_original", number count)
        ∷ ("semantic_chunks_dropped", number (count - suc n))
        ∷ []))

pub cut_lem :
    (number : ℕ → String) (n : ℕ) (pieces : List Piece) (metadata : Dict String String)
    → (if◌then◌else◌ {A = List Piece × Dict String String}
        (nat_beq n 0 || leb (length pieces) n)
        (pieces, metadata)
        (
          take n pieces,
          update metadata (
              ("semantic_chunk_limit_applied", "true")
              ∷ ("semantic_chunk_limit", number n)
              ∷ ("semantic_chunks_original", number (length pieces))
              ∷ ("semantic_chunks_dropped", number (length pieces - n))
              ∷ []),
        ))
      ≡ (shortened n pieces, noted number n (length pieces) metadata)
cut_lem number zero pieces metadata = refl
cut_lem number (suc n) pieces metadata =
    let limited : nat_beq (suc n) 0 ≡ false = ground arith in
    elim (Bool-cases (leb (length pieces) (suc n))) [
      | inl short ↦
          rw (limited, short)
            (ap (λ first. (first, metadata))
              (sym (take_all (suc n) pieces (leb→le (length pieces) (suc n) short))))
      | inr long ↦ rw (limited, long) refl
    ]

-- ===== src/Llm/Router/Candidates.antt =====
-- Who takes part in a race: built providers of the chain, each once.
use omnicode_mcp.Prelude.{
  ℕ, zero, suc, max, ◌≡◌, refl, ap, ◌∙◌, ◌⊎◌, inl, inr, String, true, not, ◌&&◌, ◌||◌, List, [],
  ◌∷◌, take, length, Bool-cases, arith,
}
use omnicode_mcp.Prelude.Eq.{◌==◌, string_eq, beq_refl, eq_of_beq}
use omnicode_mcp.Prelude.Names.{NoRepeat}
use omnicode_mcp.Llm.Router.{Router, mem, built_once, race_candidates}

mem-built_once :
    (x : String) (seen names : List String) (s : Router)
    → mem x (built_once seen names s) ≡ (mem x names && (not (mem x seen) && mem x s.providers))
unfolding built_once
mem-built_once x seen [] s = refl
mem-built_once x seen (name ∷ names) s =
    let passed = mem-built_once x seen names s in
    let taken = mem-built_once x (name ∷ seen) names s in
    elim (Bool-cases (name == x)) [
      | inl same ↦
          let seen_same = ap (λ z. mem z seen) (eq_of_beq name x same) in
          let built_same = ap (λ z. mem z s.providers) (eq_of_beq name x same) in
          ground (arith, passed, taken, same, seen_same, built_same)
      | inr other ↦ ground (arith, passed, taken, other)
    ]

NoRepeat-built_once : (seen names : List String) (s : Router) → NoRepeat (built_once seen names s)
unfolding built_once
NoRepeat-built_once seen [] s = tt
NoRepeat-built_once seen (name ∷ names) s =
    elim (Bool-cases (mem name seen || not (mem name s.providers))) [
      | inl passed ↦ rw passed (NoRepeat-built_once seen names s)
      | inr taken ↦ rw taken (
        ground (arith, mem-built_once name (name ∷ seen) names s, beq_refl name),
        NoRepeat-built_once (name ∷ seen) names s,
      )
    ]

mem-take : (n : ℕ) (x : String) (xs : List String) → mem x (take n xs) ≡ true → mem x xs ≡ true
mem-take zero x xs h = cc
mem-take (suc n) x [] h = h
mem-take (suc n) x (y ∷ ys) h = ground (arith, h, mem-take n x ys)

NoRepeat-take : (n : ℕ) (xs : List String) → NoRepeat xs → NoRepeat (take n xs)
NoRepeat-take zero xs h = tt
NoRepeat-take (suc n) [] h = tt
NoRepeat-take (suc n) (x ∷ xs) h = (ground (arith, h.0, mem-take n x xs), NoRepeat-take n xs h.1)

take_cases : (n : ℕ) (xs : List String) → (length (take n xs) ≡ n) ⊎ (take n xs ≡ xs)
take_cases zero xs = inl refl
take_cases (suc n) [] = inr refl
take_cases (suc n) (x ∷ xs) = elim (take_cases n xs) [
  | inl full ↦ inl (ap suc full)
  | inr all ↦ inr (ap (◌∷◌ x) all)
]

-- The candidates are built providers of the chain, each once, and as many as are asked for, or all
-- that there are.
pub record IsField (n : ℕ) (chain : List String) (s : Router) (names : List String) : Type 0 where
  pub members : (x : String) → mem x names ≡ true → (mem x chain && mem x s.providers) ≡ true
  pub once : NoRepeat names
  pub enough :
      (length names ≡ max n 1) ⊎ ((x : String) → mem x names ≡ (mem x chain && mem x s.providers))

pub race_candidates-IsField :
    (n : ℕ) (chain : List String) (s : Router) → IsField n chain s (race_candidates n chain s)
race_candidates-IsField n chain s =
    let built = built_once [] chain s in
    record {
      members =
          λ x there. ground (arith, mem-take (max n 1) x built there, mem-built_once x [] chain s);
      once = NoRepeat-take (max n 1) built (NoRepeat-built_once [] chain s);
      enough = elim (take_cases (max n 1) built) [
        | inl full ↦ inl full
        | inr all ↦ inr (λ x. ap (mem x) all ∙ mem-built_once x [] chain s)
      ];
    }

-- ===== src/Llm/Router/Chain.antt =====
-- The provider chain of a request.
use omnicode_mcp.Prelude.{
  ◌≡◌, refl, String, Bool, true, false, not, ◌&&◌, Bool-cases, inl, inr, Option, List, [], ◌∷◌,
  ◌++◌, keep, All, arith,
}
use omnicode_mcp.Prelude.Eq.{string_eq, beq_refl}
use omnicode_mcp.Prelude.Names.{mem-append, mem-keep, NoRepeat, NoRepeat-append, NoRepeat-keep}
use omnicode_mcp.Llm.Router.{
  Strategy, Router, mem, given, effective, explicit_first, auto_chain, ordered, is_healthy,
  provider_chain,
}

mem-ordered :
    (providers seen names : List String) (x : String)
    → mem x (ordered providers seen names) ≡ ((mem x names && not (mem x seen)) && mem x providers)
unfolding ordered
mem-ordered providers seen [] x = refl
mem-ordered providers seen (n ∷ names) x = ground (
  arith,
  mem-ordered providers seen names x,
  mem-ordered providers (n ∷ seen) names x,
  string_eq.same_iff n x,
)

turn-NoRepeat :
    (n : String) (skipped taken : List String) (b : Bool)
    → NoRepeat skipped
    → mem n taken ≡ false
    → NoRepeat taken
    → NoRepeat (elim b [ true ↦ skipped | false ↦ n ∷ taken ])
turn-NoRepeat n skipped taken true hs new ht = hs
turn-NoRepeat n skipped taken false hs new ht = (new, ht)

ordered-NoRepeat : (providers seen names : List String) → NoRepeat (ordered providers seen names)
unfolding ordered
ordered-NoRepeat providers seen [] = tt
ordered-NoRepeat providers seen (n ∷ names) =
    turn-NoRepeat n (ordered providers seen names) (ordered providers (n ∷ seen) names) _
      (ordered-NoRepeat providers seen names)
      (ground (arith, mem-ordered providers (n ∷ seen) names n, beq_refl n))
      (ordered-NoRepeat providers (n ∷ seen) names)

-- A chain for the names that are wanted: what is in it, without repetitions, the healthy providers
-- before the others.
pub record IsChain (s : Router) (wanted chain : List String) : Type 0 where
  pub members : (x : String) → mem x chain ≡ (mem x wanted && mem x s.providers)
  pub distinct : NoRepeat chain
  pub front : List String
  pub back : List String
  pub parts : chain ≡ front ++ back
  pub front_healthy : All (λ n. is_healthy s n ≡ true) front
  pub back_unhealthy : All (λ n. is_healthy s n ≡ false) back

keep-All : (p : String → Bool) (xs : List String) → All (λ n. p n ≡ true) (keep p xs)
unfolding keep
keep-All p [] = tt
keep-All p (x ∷ xs) = elim (Bool-cases (p x)) [
  | inl holds ↦ rw holds (holds, keep-All p xs)
  | inr fails ↦ rw fails (keep-All p xs)
]

dropped_All :
    (p : String → Bool) (xs : List String) → All (λ n. p n ≡ false) (keep (λ n. not (p n)) xs)
unfolding keep
dropped_All p [] = tt
dropped_All p (x ∷ xs) = elim (Bool-cases (p x)) [
  | inl holds ↦ rw holds (dropped_All p xs)
  | inr fails ↦ rw fails (fails, dropped_All p xs)
]

partition-NoRepeat :
    (p : String → Bool) (xs : List String)
    → NoRepeat xs
    → NoRepeat (keep p xs ++ keep (λ n. not (p n)) xs)
partition-NoRepeat p xs h =
    NoRepeat-append (keep p xs) (keep (λ n. not (p n)) xs) (NoRepeat-keep p xs h)
      (NoRepeat-keep (λ n. not (p n)) xs h)
      (λ x there. ground (arith, there, mem-keep p x xs, mem-keep (λ n. not (p n)) x xs))

-- The chain of a request has exactly the built providers among those that the selection and the
-- strategy name, each once, the healthy ones before the unhealthy ones.
pub provider_chain-IsChain :
    (s : Router) (strategy : Strategy) (task : Option String)
    → IsChain s
        (explicit_first s strategy task ++ auto_chain s (effective strategy (given task)))
        (provider_chain s strategy task)
unfolding provider_chain
provider_chain-IsChain s strategy task =
    let wanted = explicit_first s strategy task ++ auto_chain s (effective strategy (given task)) in
    let names = ordered s.providers [] wanted in
    record {
      members = λ x. ground (
        arith,
        mem-append x (keep (is_healthy s) names) (keep (λ n. not (is_healthy s n)) names),
        mem-keep (is_healthy s) x names,
        mem-keep (λ n. not (is_healthy s n)) x names,
        mem-ordered s.providers [] wanted x,
      );
      distinct = partition-NoRepeat (is_healthy s) names (ordered-NoRepeat s.providers [] wanted);
      front = keep (is_healthy s) names;
      back = keep (λ n. not (is_healthy s n)) names;
      parts = refl;
      front_healthy = keep-All (is_healthy s) names;
      back_unhealthy = dropped_All (is_healthy s) names;
    }

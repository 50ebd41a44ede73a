-- ===== src/Llm/Router/Fallback.antt =====
-- A request without a race: the first provider of the chain that answers.
use omnicode_mcp.Prelude.{
  ℕ, ◌≡◌, refl, ap, ◌∙◌, ◌⊎◌, inl, inr, String, true, false, Option, none, some, List, [], ◌∷◌,
  ◌++◌, All, ltb, arith,
}
use omnicode_mcp.Prelude.Eq.{string_eq, beq_refl}
use omnicode_mcp.Prelude.Result.{Result, ok, raise}
use omnicode_mcp.Llm.Router.{
  Strategy, CallLabel, plain, Selector, Response, Router, World, RouteError, no_providers,
  all_failed, mem, provider_chain, record_call, ask, ask_all, try_turn, try_chain, run_chain,
  complete,
}
use omnicode_mcp.Llm.Router.Chain.{provider_chain-IsChain}

-- The provider raises.
abbrev pub Fails : World → String → Type 0
Fails w name = (error : String) × (w.reply name ≡ raise error)

module _ (w : World) (label : CallLabel) where
  -- The answer of the first provider of the list that answers; those before it were asked, in order,
  -- and no other.
  pub record Answered (names : List String) (s : Router) (out : Result RouteError Response × Router)
      : Type 0 where
    pub front : List String
    pub name : String
    pub back : List String
    pub response : Response
    pub parts : names ≡ front ++ name ∷ back
    pub failed : All (Fails w) front
    pub replied : w.reply name ≡ ok response
    pub result : out.0 ≡ ok response
    pub state : out.1 ≡ ask w label name (ask_all w label front s)

  -- Every provider was asked, in order, and failed.
  pub record Exhausted (names : List String) (s : Router)
      (out : Result RouteError Response × Router) : Type 0 where
    pub failed : All (Fails w) names
    pub last : Option String
    pub result : out.0 ≡ raise (all_failed last)
    pub state : out.1 ≡ ask_all w label names s

  ask-providers : (name : String) (s : Router) → (ask w label name s).providers ≡ s.providers
  unfolding ask record_call
  ask-providers name s = refl

  still_known :
      (name : String) (s : Router) (names : List String)
      → All (λ n. mem n s.providers ≡ true) names
      → All (λ n. mem n (ask w label name s).providers ≡ true) names
  still_known name s [] h = tt
  still_known name s (n ∷ ns) h =
      (ap (mem n) (ask-providers name s) ∙ h.0, still_known name s ns h.1)

  try_known :
      (name : String) (names : List String) (last : Option String) (s : Router)
      (answer : Result String Response)
      → mem name s.providers ≡ true
      → w.reply name ≡ answer
      → try_chain w label last (name ∷ names) s
        ≡ try_turn w label last name (λ l t. try_chain w label l names t) s true answer
  unfolding try_chain
  try_known name names last s answer known e =
      ap (λ b. try_turn w label last name (λ l t. try_chain w label l names t) s b (w.reply name))
        known
      ∙ ap (λ a. try_turn w label last name (λ l t. try_chain w label l names t) s true a) e

  pub try_chain_cases :
      (names : List String) (last : Option String) (s : Router)
      → All (λ n. mem n s.providers ≡ true) names
      → Answered names s (try_chain w label last names s)
        ⊎ Exhausted names s (try_chain w label last names s)
  unfolding ask_all try_chain
  try_chain_cases [] last s known =
      inr (record { failed = tt; last = last; result = refl; state = refl })
  try_chain_cases (name ∷ names) last s known =
      go (w.reply name) refl (λ l t k. try_chain_cases names l t k)
    where
      go :
          (answer : Result String Response)
          → w.reply name ≡ answer
          → ((l : Option String) (t : Router)
              → All (λ n. mem n t.providers ≡ true) names
              → Answered names t (try_chain w label l names t)
                ⊎ Exhausted names t (try_chain w label l names t))
          → Answered (name ∷ names) s (try_chain w label last (name ∷ names) s)
            ⊎ Exhausted (name ∷ names) s (try_chain w label last (name ∷ names) s)
      go (ok response) e ih =
          let run = try_known name names last s (ok response) known.0 e in
          inl (record {
            front = [];
            name = name;
            back = names;
            response = response;
            parts = refl;
            failed = tt;
            replied = e;
            result = ap (λ (o : Result RouteError Response × Router). o.0) run;
            state = ap (λ (o : Result RouteError Response × Router). o.1) run;
          })
      go (raise error) e ih =
          let run = try_known name names last s (raise error) known.0 e in
          let first = ap (λ (o : Result RouteError Response × Router). o.0) run in
          let second = ap (λ (o : Result RouteError Response × Router). o.1) run in
          elim (ih (some error) (ask w label name s) (still_known name s names known.1)) [
            | inl a ↦ inl (record {
              front = name ∷ a.front;
              name = a.name;
              back = a.back;
              response = a.response;
              parts = ap (λ (ns : List String). name ∷ ns) a.parts;
              failed = ((error, e), a.failed);
              replied = a.replied;
              result = first ∙ a.result;
              state = second ∙ a.state;
            })
            | inr x ↦ inr (record {
              failed = ((error, e), x.failed);
              last = x.last;
              result = first ∙ x.result;
              state = second ∙ x.state;
            })
          ]

  All-of_mem :
      (P : String → Type 0) (xs : List String) → ((x : String) → mem x xs ≡ true → P x) → All P xs
  All-of_mem P [] h = tt
  All-of_mem P (x ∷ xs) h =
      (h x (ground (arith, beq_refl x)), All-of_mem P xs (λ y there. h y (ground (arith, there))))

module _ (w : World) (strategy : Strategy) where
  run_cases :
      (selector : Selector) (n : ℕ) (chain : List String) (s : Router)
      → ltb 1 n ≡ false
      → All (λ x. mem x s.providers ≡ true) chain
      → ((chain ≡ []) × (run_chain w strategy selector n chain s ≡ (raise no_providers, s)))
        ⊎ (Answered w (plain strategy) chain s (run_chain w strategy selector n chain s)
            ⊎ Exhausted w (plain strategy) chain s (run_chain w strategy selector n chain s))
  run_cases selector n [] s single known = inl (refl, refl)
  run_cases selector n (name ∷ names) s single known =
      inr (rw single (try_chain_cases w (plain strategy) (name ∷ names) none s known))

  -- A request without a race ends in one of three ways. The chain is empty, and the call raises and
  -- changes nothing; or the answer is that of the first provider of the chain that answers, and
  -- it and those before it were asked; or every provider of the chain was asked and failed, and the
  -- call raises.
  pub complete_cases :
      (task : Option String) (selector : Selector) (n : ℕ) (s : Router)
      → ltb 1 n ≡ false
      → ((provider_chain s strategy task ≡ [])
          × (complete w strategy task selector n s ≡ (raise no_providers, s)))
        ⊎ (Answered w
              (plain strategy)
              (provider_chain s strategy task)
              s
              (complete w strategy task selector n s)
            ⊎ Exhausted w
                (plain strategy)
                (provider_chain s strategy task)
                s
                (complete w strategy task selector n s))
  unfolding complete
  complete_cases task selector n s single =
      let chain = provider_chain-IsChain s strategy task in
      run_cases selector n (provider_chain s strategy task) s single (
        All-of_mem w (plain strategy) (λ x. mem x s.providers ≡ true)
          (provider_chain s strategy task) (λ x there. ground (arith, chain.members x, there)))

-- ===== src/Examples/Llm.antt =====
-- A router with two providers, one of which fails.
use omnicode_mcp.Prelude.{◌≡◌, refl, ◌⊎◌, none, some, [], ◌∷◌, ◌++◌, arith, if◌then◌else◌}
use omnicode_mcp.Prelude.Eq.{◌==◌, string_eq}
use omnicode_mcp.Prelude.Dict.{get}
use omnicode_mcp.Prelude.Result.{ok, raise}
use omnicode_mcp.Llm.Router.{
  quality_first, plain, Router, World, no_providers, given, effective, explicit_first, auto_chain,
  provider_chain, complete,
}
use omnicode_mcp.Llm.Router.Chain.{IsChain, provider_chain-IsChain}
use omnicode_mcp.Llm.Router.Stats.{IsCounted, complete-IsCounted}
use omnicode_mcp.Llm.Router.Fallback.{Answered, Exhausted, complete_cases}

abbrev router : Router
router = record {
  providers = "claude" ∷ "openai" ∷ [];
  quality_chain = "claude" ∷ [];
  cost_chain = "openai" ∷ [];
  assignments = [];
  stats = [];
  recent_size = 32;
  recent_calls = [];
}

abbrev world : World
world = record {
  reply = λ name.
      if name == "claude"
      then raise "overloaded"
      else ok (record {
        content = "pong";
        prompt_tokens = 1;
        completion_tokens = 1;
        total_tokens = 2;
        cost = 3;
      });
  duration = λ name. 10;
}

provider_chain-IsChain_example :
    IsChain router
      (explicit_first router quality_first (some "edit")
        ++ auto_chain router (effective quality_first (given (some "edit"))))
      (provider_chain router quality_first (some "edit"))
provider_chain-IsChain_example = provider_chain-IsChain router quality_first (some "edit")

counted : IsCounted router
unfolding get
counted = record { each = λ n stats e. cc; recent = omega arith }

complete-IsCounted_example : IsCounted (complete world quality_first none none 1 router).1
complete-IsCounted_example = complete-IsCounted world quality_first none none 1 router counted

complete_cases_example :
    ((provider_chain router quality_first none ≡ [])
      × (complete world quality_first none none 1 router ≡ (raise no_providers, router)))
    ⊎ (Answered world
          (plain quality_first)
          (provider_chain router quality_first none)
          router
          (complete world quality_first none none 1 router)
        ⊎ Exhausted world
            (plain quality_first)
            (provider_chain router quality_first none)
            router
            (complete world quality_first none none 1 router))
complete_cases_example = complete_cases world quality_first none none 1 router refl

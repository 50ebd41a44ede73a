-- ===== src/Llm/Router/Best.antt =====
-- The race of several providers: the longest answer wins.
use omnicode_mcp.Prelude.{◌≤◌, ◌≡◌, ◌≢◌, ◌⊎◌, String, true, none, List, [], ◌∷◌, All, arith}
use omnicode_mcp.Prelude.Eq.{string_eq}
use omnicode_mcp.Prelude.Result.{Result, ok, raise}
use omnicode_mcp.Llm.Router.{
  Strategy, Response, Router, World, all_failed, no_candidates, RouteError, mem, content_length,
}
use omnicode_mcp.Llm.Router.Fallback.{Fails}

abbrev Longest : Response → List (String × Response) → Type 0
Longest best entries = All (λ e. content_length e.1 ≤ content_length best) entries

weaken :
    (a b : Response) (entries : List (String × Response))
    → content_length a ≤ content_length b
    → Longest a entries
    → Longest b entries
weaken a b [] l h = tt
weaken a b (e ∷ es) l h = (omega (arith, l, h.0), weaken a b es l h.1)

module _ (w : World) (strategy : Strategy) where
  -- The provider is in the list and gave the answer.
  abbrev pub GaveIt : List String → Response → Type 0
  GaveIt names response = (name : String) × (mem name names ≡ true) × (w.reply name ≡ ok response)

  -- How a race of the candidates ends under the default selector.
  abbrev pub Race : List String → Result RouteError Response → Type 0
  Race names result =
      ((response : Response) × (result ≡ ok response)
        × GaveIt names response
        × ((name : String) (other : Response)
            → mem name names ≡ true
            → w.reply name ≡ ok other
            → content_length other ≤ content_length response))
      ⊎ (((result ≡ raise (all_failed none)) × (names ≢ []) × All (Fails w) names)
          ⊎ ((result ≡ raise no_candidates) × (names ≡ [])))

-- ===== src/Llm/Router.antt =====
-- `LLMRouter` of omnicode/llm/router.py: the chain of providers for a request, the fallback along it,
-- the best of several answers, and the statistics of each provider. Durations and costs are
-- counted in whole units, where the code has floats.
mod State
mod Order
mod Calls
pub mod Chain
pub mod Stats
pub mod Fallback
pub mod Candidates
pub mod Best
use omnicode_mcp.Prelude.{
  ℕ, zero, suc, ◌+◌, ◌-◌, max, min, String, Bool, true, false, not, ◌&&◌, ◌||◌, Option, none, some,
  List, [], ◌∷◌, ◌++◌, length, keep, any, take, map, ltb, leb, if◌then◌else◌,
}
use omnicode_mcp.Prelude.Eq.{◌==◌, string_eq}
use omnicode_mcp.Prelude.Dict.{Dict, get, has, put, keys}
use omnicode_mcp.Prelude.Result.{Result, ok, raise}
pub use omnicode_mcp.Prelude.Names.{mem}
use omnicode_mcp.Prelude.Text.{strip, lower, is_empty, count_chars}
unfoldable pub use State.*
unfoldable pub use Order.*
unfoldable pub use Calls.*

pub data RouteError : Type 0 where
  no_providers no_candidates : RouteError
  all_failed : Option String → RouteError

module _ (w : World) (label : CallLabel) where
  unfoldable pub ask : String → Router → Router
  ask name s = record_call name (w.duration name) label (w.reply name) s

  -- One turn of the loop of `complete`, by whether the provider is built and what it answers.
  abbrev pub try_turn :
      Option String
      → String
      → (Option String → Router → Result RouteError Response × Router)
      → Router
      → Bool
      → Result String Response
      → Result RouteError Response × Router
  try_turn last name next s false answer = next last s
  try_turn last name next s true (ok response) = (ok response, ask name s)
  try_turn last name next s true (raise error) = next (some error) (ask name s)

  -- The loop over the chain, with the last error so far.
  unfoldable pub try_chain :
      Option String → List String → Router → Result RouteError Response × Router
  try_chain last [] s = (raise (all_failed last), s)
  try_chain last (name ∷ names) s =
      try_turn last name (λ l t. try_chain l names t) s (mem name s.providers) (w.reply name)

  -- The candidates of the best of n, and the calls in their order.
  unfoldable pub ask_all : List String → Router → Router
  ask_all [] s = s
  ask_all (name ∷ names) s = ask_all names (ask name s)

unfoldable pub successes : World → List String → List (String × Response)
successes w [] = []
successes w (name ∷ names) = elim (w.reply name) [
  | ok response ↦ (name, response) ∷ successes w names
  | raise error ↦ successes w names
]

-- len((resp.content or "").strip())
unfoldable pub content_length : Response → ℕ
content_length response = count_chars (strip response.content)

-- The loop of the default selector, from the best answer so far: a later one has to be longer.
unfoldable pub longest_from : Response → List (String × Response) → Response
longest_from best [] = best
longest_from best ((name, response) ∷ rest) =
    longest_from (if ltb (content_length best) (content_length response) then response else best)
      rest

-- The answer at an index, the last one where the index is too large.
abbrev pub answer_at : ℕ → Response → List (String × Response) → Response
answer_at n response [] = response
answer_at zero response (_ ∷ _) = response
answer_at (suc n) response ((name, next) ∷ rest) = answer_at n next rest

-- The selector that a caller may pass; an index below 0 counts as 0.
abbrev pub Selector : Type 0
Selector = Option (List (String × Response) → ℕ)

abbrev pub select :
    Selector → Response → List (String × Response) → List (String × Response) → Response
select none response rest entries = longest_from response rest
select (some selector) response rest entries = answer_at (selector entries) response rest

abbrev pub winner : Selector → List (String × Response) → Result RouteError Response
winner selector [] = raise (all_failed none)
winner selector ((name, response) ∷ rest) =
    ok (select selector response rest ((name, response) ∷ rest))

-- The names of the chain that are built, each once: `seen` are those that were taken.
unfoldable pub built_once : List String → List String → Router → List String
built_once seen [] s = []
built_once seen (name ∷ names) s =
    let taken = built_once (name ∷ seen) names s in
    let passed = built_once seen names s in
    if mem name seen || not (mem name s.providers) then passed else name ∷ taken

-- The loop ends behind the candidate that makes them `n`.
abbrev pub race_candidates : ℕ → List String → Router → List String
race_candidates n chain s = take (max n 1) (built_once [] chain s)

abbrev pub race :
    World → Strategy → Selector → ℕ → List String → Router → Result RouteError Response × Router
race w strategy selector n [] s = (raise no_candidates, s)
race w strategy selector n (name ∷ names) s = (
  winner selector (successes w (name ∷ names)),
  ask_all w (best_of_label strategy n) (name ∷ names) s,
)

-- `_run_best_of_n`
unfoldable pub best_of :
    World → Strategy → Selector → ℕ → List String → Router → Result RouteError Response × Router
unfolding built_once
best_of w strategy selector n chain s = race w strategy selector n (race_candidates n chain s) s

abbrev pub run_chain :
    World → Strategy → Selector → ℕ → List String → Router → Result RouteError Response × Router
run_chain w strategy selector n [] s = (raise no_providers, s)
run_chain w strategy selector n (name ∷ names) s =
    if ltb 1 n
    then best_of w strategy selector n (name ∷ names) s
    else try_chain w (plain strategy) none (name ∷ names) s

-- `complete`
unfoldable pub complete :
    World → Strategy → Option String → Selector → ℕ → Router → Result RouteError Response × Router
complete w strategy task selector n s =
    run_chain w strategy selector n (provider_chain s strategy task) s

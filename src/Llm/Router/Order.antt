-- ===== src/Llm/Router/Order.antt =====
-- The role of a request and the order of its providers: `_resolve_role` and
-- `_get_provider_chain` of omnicode/llm/router.py.
use omnicode_mcp.Prelude.{
  String, Bool, true, false, not, ◌||◌, Option, none, some, List, [], ◌∷◌, ◌++◌, keep,
  if◌then◌else◌,
}
use omnicode_mcp.Prelude.Eq.{string_eq}
use omnicode_mcp.Prelude.Dict.{Dict, get}
use omnicode_mcp.Prelude.Names.{mem}
use omnicode_mcp.Prelude.Text.{strip, lower, is_empty}
use omnicode_mcp.Llm.Router.State.{
  Strategy, cost_optimized, quality_first, fastest, task_based, new_stats, healthy, Router,
}

abbrev pub valid_roles : List String
valid_roles =
    "default" ∷ "quality" ∷ "cost" ∷ "fastest" ∷ "edit" ∷ "scan" ∷ "review" ∷ "summary" ∷ "chat"
    ∷ []

abbrev pub task_hints : Dict String Strategy
task_hints =
    ("edit", quality_first)
    ∷ ("refactor", quality_first)
    ∷ ("review", quality_first)
    ∷ ("scan", cost_optimized)
    ∷ ("index", cost_optimized)
    ∷ ("embed", cost_optimized)
    ∷ ("summary", fastest)
    ∷ ("chat", fastest)
    ∷ []

-- if task: the task where it is a text with characters
abbrev pub given : Option String → Option String
given none = none
given (some task) = if is_empty task then none else some task

abbrev pub hinted : Option String → Option Strategy
hinted none = none
hinted (some task) = get task_hints (lower task)

abbrev pub role_of : Option Strategy → Option String
role_of (some quality_first) = some "quality"
role_of (some cost_optimized) = some "cost"
role_of (some fastest) = some "fastest"
role_of _ = none

abbrev pub role_of_strategy : Strategy → Option String → Option String
role_of_strategy task_based task = role_of (hinted task)
role_of_strategy strategy task = role_of (some strategy)

abbrev pub named_role : Option String → Option String
named_role none = none
named_role (some task) = let t = strip (lower task) in if mem t valid_roles then some t else none

abbrev pub first_of : Option String → Option String → Option String
first_of (some a) b = some a
first_of none b = b

-- `_resolve_role`
unfoldable pub resolve_role : Strategy → Option String → Option String
resolve_role strategy task =
    first_of (named_role (given task)) (role_of_strategy strategy (given task))

-- The provider that the selection has for a role, if it is built.
abbrev pub assigned : Router → Option String → List String
assigned s none = []
assigned s (some role) = elim (get s.assignments role) [
  | none ↦ []
  | some name ↦ if mem name s.providers then name ∷ [] else []
]

unfoldable pub explicit_first : Router → Strategy → Option String → List String
explicit_first s strategy task =
    let chosen = assigned s (resolve_role strategy task) in
    chosen ++ keep (λ n. not (mem n chosen)) (assigned s (some "default"))

-- The strategy behind a task.
abbrev pub effective : Strategy → Option String → Strategy
effective task_based (some task) = elim (get task_hints (lower task)) [
  | none ↦ quality_first
  | some strategy ↦ strategy
]
effective strategy task = strategy

abbrev pub auto_chain : Router → Strategy → List String
auto_chain s cost_optimized = s.cost_chain ++ s.quality_chain
auto_chain s fastest = s.cost_chain
auto_chain s _ = s.quality_chain ++ s.cost_chain

-- The loop that drops what is unknown and what was seen.
unfoldable pub ordered : List String → List String → List String → List String
ordered providers seen [] = []
ordered providers seen (n ∷ names) = elim (mem n seen || not (mem n providers)) [
  | true ↦ ordered providers seen names
  | false ↦ n ∷ ordered providers (n ∷ seen) names
]

-- self.stats.get(n, ProviderStats()).healthy
unfoldable pub is_healthy : Router → String → Bool
is_healthy s n = elim (get s.stats n) [ none ↦ healthy new_stats | some stats ↦ healthy stats ]

-- `_get_provider_chain`: `sorted` by a Boolean key keeps the order on both sides.
unfoldable pub provider_chain : Router → Strategy → Option String → List String
provider_chain s strategy task =
    let names =
      ordered s.providers []
        (explicit_first s strategy task ++ auto_chain s (effective strategy (given task))) in
    keep (is_healthy s) names ++ keep (λ n. not (is_healthy s n)) names

-- ===== src/Llm/Router/State.antt =====
-- The state of `LLMRouter` of omnicode/llm/router.py and the records that it keeps.
use omnicode_mcp.Prelude.{ℕ, String, Bool, Option, none, List, ltb}
use omnicode_mcp.Prelude.Eq.{string_eq}
use omnicode_mcp.Prelude.Dict.{Dict}

pub data Strategy : Type 0 where
  cost_optimized quality_first fastest task_based : Strategy

-- How a call is labelled: by the strategy, or by the strategy and "+best_of_" with a number.
pub data CallLabel : Type 0 where
  plain : Strategy → CallLabel
  best_of_label : Strategy → ℕ → CallLabel

pub record Response : Type 0 where
  pub content : String
  pub prompt_tokens : ℕ
  pub completion_tokens : ℕ
  pub total_tokens : ℕ
  pub cost : ℕ

pub record CallRecord : Type 0 where
  pub provider : String
  pub duration : ℕ
  pub total_tokens : ℕ
  pub cost : ℕ
  pub success : Bool
  pub error : Option String
  pub strategy : CallLabel

pub record ProviderStats : Type 0 where
  pub total_calls : ℕ
  pub success_count : ℕ
  pub failure_count : ℕ
  pub total_tokens : ℕ
  pub total_cost : ℕ
  pub total_latency : ℕ
  pub last_error : Option String
  pub consecutive_failures : ℕ

abbrev pub new_stats : ProviderStats
new_stats = record {
  total_calls = 0;
  success_count = 0;
  failure_count = 0;
  total_tokens = 0;
  total_cost = 0;
  total_latency = 0;
  last_error = none;
  consecutive_failures = 0;
}

unfoldable pub healthy : ProviderStats → Bool
healthy stats = ltb stats.consecutive_failures 3

-- `providers` has the names of the providers that are built, `assignments` the selection by role.
pub record Router : Type 0 where
  pub providers : List String
  pub quality_chain : List String
  pub cost_chain : List String
  pub assignments : Dict String String
  pub stats : Dict String ProviderStats
  pub recent_size : ℕ
  pub recent_calls : List CallRecord

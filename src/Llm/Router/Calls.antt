-- ===== src/Llm/Router/Calls.antt =====
-- What a call leaves in the statistics: `_record` of omnicode/llm/router.py.
use omnicode_mcp.Prelude.{ℕ, ◌+◌, String, true, false, none, some, ◌∷◌, take}
use omnicode_mcp.Prelude.Eq.{string_eq}
use omnicode_mcp.Prelude.Dict.{get, put}
use omnicode_mcp.Prelude.Result.{Result, ok, raise}
use omnicode_mcp.Llm.Router.State.{
  CallLabel, Response, CallRecord, ProviderStats, new_stats, Router,
}

-- What a provider answers, or the text of its exception, and how long it takes.
pub record World : Type 0 where
  pub reply : String → Result String Response
  pub duration : String → ℕ

-- self.stats.setdefault(name, ProviderStats())
abbrev pub stats_of : Router → String → ProviderStats
stats_of s name = elim (get s.stats name) [ none ↦ new_stats | some stats ↦ stats ]

abbrev pub after_answer : ProviderStats → ℕ → Result String Response → ProviderStats
after_answer stats duration (ok response) = record stats {
  total_calls = stats.total_calls + 1;
  total_latency = stats.total_latency + duration;
  success_count = stats.success_count + 1;
  consecutive_failures = 0;
  total_tokens = stats.total_tokens + response.total_tokens;
  total_cost = stats.total_cost + response.cost;
}
after_answer stats duration (raise error) = record stats {
  total_calls = stats.total_calls + 1;
  total_latency = stats.total_latency + duration;
  failure_count = stats.failure_count + 1;
  consecutive_failures = stats.consecutive_failures + 1;
  last_error = some error;
}

abbrev pub call_record : String → ℕ → CallLabel → Result String Response → CallRecord
call_record name duration label (ok response) = record {
  provider = name;
  duration = duration;
  total_tokens = response.total_tokens;
  cost = response.cost;
  success = true;
  error = none;
  strategy = label;
}
call_record name duration label (raise error) = record {
  provider = name;
  duration = duration;
  total_tokens = 0;
  cost = 0;
  success = false;
  error = some error;
  strategy = label;
}

-- `_record`; the deque of recent calls has a maximal length
unfoldable pub record_call : String → ℕ → CallLabel → Result String Response → Router → Router
record_call name duration label answer s = record s {
  stats = put s.stats name (after_answer (stats_of s name) duration answer);
  recent_calls = take s.recent_size (call_record name duration label answer ∷ s.recent_calls);
}

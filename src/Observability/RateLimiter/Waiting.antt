-- ===== src/Observability/RateLimiter/Waiting.antt =====
-- Whether the time to wait that a refusal names is enough.
use omnicode_mcp.Prelude.Eq.{string_eq, pair_eq}
use omnicode_mcp.Prelude.Dict.{Dict}

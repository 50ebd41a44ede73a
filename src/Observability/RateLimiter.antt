-- ===== src/Observability/RateLimiter.antt =====
-- `RateLimiter` of omnicode_core/observability/rate_limiter.py. Tokens and times are counted in whole
-- units, where the code has floats: `rate` is what a tick of the monotonic clock adds.
pub mod Budget
pub mod Waiting
use omnicode_mcp.Prelude.{
  ℕ, ◌+◌, ◌-◌, ◌*◌, min, String, Bool, true, false, Option, none, some, List, [], ◌∷◌, leb, length,
  if◌then◌else◌,
}
use omnicode_mcp.Prelude.Eq.{◌==◌, string_eq, pair_eq}
use omnicode_mcp.Prelude.Dict.{Dict, get, put}
use omnicode_mcp.Prelude.Text.{is_empty}

pub record Bucket : Type 0 where
  pub tokens : ℕ
  pub last_refill_ts : ℕ

pub record Limiter : Type 0 where
  pub rate : ℕ
  pub burst : ℕ
  pub cap : ℕ
  pub buckets : Dict (String × String) Bucket

-- (True, 0.0), or False with the time to wait as what is missing over the rate.
pub data Answer : Type 0 where
  allowed : Answer
  denied : ℕ → ℕ → Answer

pub record Request : Type 0 where
  pub scope : String
  pub identity : String
  pub cost : ℕ
  pub now : ℕ

abbrev pub key_of : Request → String × String
key_of r = (r.scope, if is_empty r.identity then "anonymous" else r.identity)

-- self._buckets.pop(next(iter(self._buckets)))
abbrev pub drop_oldest : Dict (String × String) Bucket → Dict (String × String) Bucket
drop_oldest [] = []
drop_oldest (oldest ∷ rest) = rest

abbrev pub make_room : Limiter → Option Bucket → Dict (String × String) Bucket
make_room s none = if leb s.cap (length s.buckets) then drop_oldest s.buckets else s.buckets
make_room s (some bucket) = s.buckets

abbrev pub refilled : Limiter → ℕ → Option Bucket → ℕ
refilled s now none = s.burst
refilled s now (some bucket) = min s.burst (bucket.tokens + (now - bucket.last_refill_ts) * s.rate)

abbrev pub put_bucket : Limiter → String × String → Dict (String × String) Bucket → ℕ → ℕ → Limiter
put_bucket s key buckets tokens now = record s {
  buckets = put buckets key (record { tokens = tokens; last_refill_ts = now });
}

abbrev pub spend : Limiter → Request → Dict (String × String) Bucket → ℕ → Bool → Answer × Limiter
spend s r buckets tokens true = (allowed, put_bucket s (key_of r) buckets (tokens - r.cost) r.now)
spend s r buckets tokens false =
    (denied (r.cost - tokens) s.rate, put_bucket s (key_of r) buckets tokens r.now)

unfoldable pub check : Request → Limiter → Answer × Limiter
check r s =
    let found = get s.buckets (key_of r) in
    let tokens = refilled s r.now found in spend s r (make_room s found) tokens (leb r.cost tokens)

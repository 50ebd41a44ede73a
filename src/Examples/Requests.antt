-- ===== src/Examples/Requests.antt =====
-- Requests that are sent twice, and requests faster than the rate.
use omnicode_mcp.Prelude.{
  ℕ, ◌+◌, ◌-◌, ◌*◌, ◌≤◌, List, ap, ◌≡◌, ◌≢◌, refl, String, true, some, [], ◌∷◌, arith,
  if◌then◌else◌,
}
use omnicode_mcp.Prelude.Eq.{◌==◌, string_eq}
use omnicode_mcp.Prelude.Result.{ok, raise}
use omnicode_mcp.Prelude.Dict.{get, put}
use omnicode_mcp.Observability.RateLimiter.{Limiter, Request, check}
use omnicode_mcp.Observability.RateLimiter.Budget.{total_granted, total_granted-le}
use omnicode_mcp.Observability.Idempotency.{Host, conflict, lookup, store, hash_payload}
use omnicode_mcp.Observability.Idempotency.Replay.{Call, looked_up, stored, calls, lookup-store}

abbrev texts : Host String String
texts = record {
  payload_json = λ payload. some payload;
  payload_repr = λ payload. payload;
  sha256 = λ blob. blob;
  dumps = λ answer. some answer;
  loads = λ json. some json;
}

abbrev between : List (Call String String)
between = stored true 20 "k2" "other" "fine" ∷ looked_up true 30 "k2" "other" ∷ []

k2_is_other : ◌≢◌ {A = String} "k2" "k1"
k2_is_other e = cc (ap (λ (k : String). k == "k2") e)

lookup-store_example :
    (lookup texts true 40 "k1" "patch"
      (calls texts between (store texts true 10 "k1" "patch" "done" []))).0
    ≡ (if hash_payload texts "patch" == hash_payload texts "patch"
        then ok (some "done")
        else raise (conflict "k1" (hash_payload texts "patch") (hash_payload texts "patch")))
lookup-store_example =
    lookup-store texts "k1" "patch" "patch" "done" "done" 10 40 between [] refl refl
      (k2_is_other, (omega arith, tt)) (omega arith)

abbrev limiter : Limiter
limiter = record { rate = 1; burst = 2; cap = 10; buckets = [] }

abbrev asked : ℕ → Request
asked now = record { scope = "admin"; identity = "client"; cost = 2; now = now }

abbrev requests : List Request
requests = asked 0 ∷ asked 1 ∷ asked 2 ∷ []

-- The second of the three is refused.
granted_four : total_granted ("admin", "client") requests limiter ≡ 4
unfolding total_granted check get put
granted_four = refl

total_granted-le_example : total_granted ("admin", "client") requests limiter ≤ 2 + (2 - 0) * 1
total_granted-le_example =
    total_granted-le ("admin", "client") requests limiter 0 2 (omega arith)
      (omega arith, (omega arith, (omega arith, omega arith)))

abbrev drained : Limiter
drained = record limiter {
  buckets = (("admin", "client"), record { tokens = 0; last_refill_ts = 0 }) ∷ [];
}

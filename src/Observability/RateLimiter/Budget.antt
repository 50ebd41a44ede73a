-- ===== src/Observability/RateLimiter/Budget.antt =====
-- What a client is granted in a span of time.
use omnicode_mcp.Prelude.{
  ℕ, ◌+◌, ◌-◌, ◌*◌, ◌≤◌, ◌≡◌, refl, sym, ap, ◌∙◌, ◌<◌, subst, String, Bool, true, false, Option,
  none, some, List, [], ◌∷◌, arith, Bool-cases, inl, inr, leb, length, if◌then◌else◌,
}
use native.Mathlib.Nat.{add-mul, min-le_left, min-le_right}
use omnicode_mcp.Prelude.Eq.{◌==◌, string_eq, pair_eq, eq_of_beq}
use omnicode_mcp.Prelude.Dict.{Dict, get, put, get-put, length-put, get-put_self}
use omnicode_mcp.Observability.RateLimiter.{
  Bucket, Limiter, Answer, allowed, denied, Request, key_of, make_room, refilled, spend, check,
}

-- The requests are in the order of the clock, from one time to another.
abbrev pub Within : ℕ → ℕ → List Request → Type 0
Within start end [] = start ≤ end
Within start end (r ∷ rs) = (start ≤ r.now) × Within r.now end rs

abbrev pub granted : ℕ → Answer → ℕ
granted cost allowed = cost
granted cost (denied missing rate) = 0

-- The costs of the requests of a key that were allowed.
unfoldable pub total_granted : String × String → List Request → Limiter → ℕ
total_granted key [] s = 0
total_granted key (r ∷ rs) s =
    let rest = total_granted key rs (check r s).1 in
    if key_of r == key then granted r.cost (check r s).0 + rest else rest

spans : (a b c rate : ℕ) → a ≤ b → b ≤ c → (b - a) * rate + (c - b) * rate ≡ (c - a) * rate
spans a b c rate l m = sym (add-mul (b - a) (c - b) rate) ∙ ap (λ n. n * rate) (omega (arith, l, m))

Within-le : (start end : ℕ) (rs : List Request) → Within start end rs → start ≤ end
Within-le start end [] h = h
Within-le start end (r ∷ rs) (l, h) = omega (arith, l, Within-le r.now end rs h)

-- What a check leaves.
pub record Checked (r : Request) (s : Limiter) (out : Answer × Limiter) : Type 0 where
  pub tokens : ℕ
  pub found :
      get out.1.buckets (key_of r) ≡ some (record { tokens = tokens; last_refill_ts = r.now })
  pub paid : granted r.cost out.0 + tokens ≡ refilled s r.now (get s.buckets (key_of r))
  pub rate : out.1.rate ≡ s.rate
  pub burst : out.1.burst ≡ s.burst
  pub cap : out.1.cap ≡ s.cap
  pub others :
      (key : String × String)
      → (key_of r == key) ≡ false
      → length s.buckets < s.cap
      → get out.1.buckets key ≡ get s.buckets key
  pub size : length s.buckets < s.cap → length out.1.buckets ≤ length s.buckets + 1

room_same :
    (s : Limiter) (found : Option Bucket) → length s.buckets < s.cap → make_room s found ≡ s.buckets
room_same s none l = ground (arith, l)
room_same s (some b) l = refl

put_size :
    (d : Dict (String × String) Bucket) (k : String × String) (b : Bucket)
    → length (put d k b) ≤ length d + 1
put_size d k b = ground (arith, length-put d k b)

spend-Checked :
    (r : Request) (s : Limiter) (b : Bool)
    → leb r.cost (refilled s r.now (get s.buckets (key_of r))) ≡ b
    → Checked r s (
        spend s r
          (make_room s (get s.buckets (key_of r)))
          (refilled s r.now (get s.buckets (key_of r)))
          b)
spend-Checked r s true e = record {
  tokens = refilled s r.now (get s.buckets (key_of r)) - r.cost;
  found = get-put_self _ (key_of r) _;
  paid = ground (arith, e);
  rate = refl;
  burst = refl;
  cap = refl;
  others = λ key n l. rw (get-put, n, room_same s _ l) refl;
  size = λ l. rw (room_same s _ l) (put_size s.buckets (key_of r) _);
}
spend-Checked r s false e = record {
  tokens = refilled s r.now (get s.buckets (key_of r));
  found = get-put_self _ (key_of r) _;
  paid = omega arith;
  rate = refl;
  burst = refl;
  cap = refl;
  others = λ key n l. rw (get-put, n, room_same s _ l) refl;
  size = λ l. rw (room_same s _ l) (put_size s.buckets (key_of r) _);
}

pub check-Checked : (r : Request) (s : Limiter) → Checked r s (check r s)
unfolding check
check-Checked r s = spend-Checked r s _ refl

step_sum :
    (g t tokens before now end rate rest : ℕ)
    → g + t ≤ tokens + (now - before) * rate
    → rest ≤ t + (end - now) * rate
    → before ≤ now
    → now ≤ end
    → g + rest ≤ tokens + (end - before) * rate
step_sum g t tokens before now end rate rest paid h l m =
    omega (arith, spans before now end rate l m, paid, h)

at_rate :
    (total tokens span : ℕ) (old new : ℕ)
    → new ≡ old
    → total ≤ tokens + span * new
    → total ≤ tokens + span * old
at_rate total tokens span old new same h = subst (λ q. total ≤ tokens + span * q) same h

refilled_le :
    (s : Limiter) (now : ℕ) (b : Bucket)
    → refilled s now (some b) ≤ b.tokens + (now - b.last_refill_ts) * s.rate
refilled_le s now b = min-le_right s.burst _

refilled-le-burst : (s : Limiter) (now : ℕ) (b : Option Bucket) → refilled s now b ≤ s.burst
refilled-le-burst s now none = omega arith
refilled-le-burst s now (some b) = min-le_left s.burst _

-- The key has a bucket, refilled at the given time.
budget_from :
    (key : String × String) (rs : List Request) (s : Limiter) (b : Bucket) (now end : ℕ)
    → get s.buckets key ≡ some b
    → length s.buckets + length rs ≤ s.cap
    → b.last_refill_ts ≤ now
    → Within now end rs
    → total_granted key rs s ≤ b.tokens + (end - b.last_refill_ts) * s.rate
unfolding total_granted
budget_from key [] s b now end held room before clock = omega arith
budget_from key (r ∷ rs) s b now end held room before (l, clock) =
    let c = check-Checked r s in
    let size = c.size (omega (arith, room)) in
    let room' : length (check r s).1.buckets + length rs ≤ (check r s).1.cap =
      omega (arith, c.cap, size, room) in
    elim (Bool-cases (key_of r == key)) [
      | inl same ↦
          let own = eq_of_beq (key_of r) key same in
          let rest =
            budget_from key rs (check r s).1 (record { tokens = c.tokens; last_refill_ts = r.now })
              r.now end
              (subst
                (λ k.
                  get (check r s).1.buckets k
                  ≡ some (record { tokens = c.tokens; last_refill_ts = r.now }))
                own c.found)
              room' (omega arith) clock in
          let held' = ap (get s.buckets) own ∙ held in
          rw same (
            step_sum (granted r.cost (check r s).0) c.tokens b.tokens b.last_refill_ts r.now end
              s.rate _
              (subst (λ n. n ≤ b.tokens + (r.now - b.last_refill_ts) * s.rate)
                (sym (c.paid ∙ ap (refilled s r.now) held')) (refilled_le s r.now b))
              (at_rate _ _ _ s.rate _ c.rate rest) (omega (arith, before, l))
              (Within-le r.now end rs clock))
      | inr other ↦
          let rest =
            budget_from key rs (check r s).1 b r.now end
              (c.others key other (omega (arith, room)) ∙ held) room' (omega (arith, before, l))
              clock in
          rw other (at_rate _ _ _ s.rate _ c.rate rest)
    ]

-- While the limiter drops no bucket, the costs that a client is granted in a span of time are at
-- most the burst and what the rate adds in that span, whatever the limiter holds at the start and
-- whatever others ask in between.
pub total_granted-le :
    (key : String × String) (rs : List Request) (s : Limiter) (start end : ℕ)
    → length s.buckets + length rs ≤ s.cap
    → Within start end rs
    → total_granted key rs s ≤ s.burst + (end - start) * s.rate
unfolding total_granted
total_granted-le key [] s start end room clock = omega arith
total_granted-le key (r ∷ rs) s start end room (l, clock) =
    let c = check-Checked r s in
    let size = c.size (omega (arith, room)) in
    let room' : length (check r s).1.buckets + length rs ≤ (check r s).1.cap =
      omega (arith, c.cap, size, room) in
    let m = Within-le r.now end rs clock in
    let longer = spans start r.now end s.rate l m in
    elim (Bool-cases (key_of r == key)) [
      | inl same ↦
          let own = eq_of_beq (key_of r) key same in
          let after : Bucket = record { tokens = c.tokens; last_refill_ts = r.now } in
          let rest = at_rate _ _ _ s.rate _ c.rate (
            budget_from key rs (check r s).1 after r.now end
              (subst (λ k. get (check r s).1.buckets k ≡ some after) own c.found) room'
              (omega arith) clock) in
          rw same (
            omega
              (arith, rest, longer, c.paid, refilled-le-burst s r.now (get s.buckets (key_of r))))
      | inr other ↦
          let rest =
            at_rate _ _ _ s.rate _ c.rate
              (total_granted-le key rs (check r s).1 r.now end room' clock) in
          rw other (omega (arith, rest, longer, c.burst))
    ]

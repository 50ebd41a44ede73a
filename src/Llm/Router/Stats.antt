-- ===== src/Llm/Router/Stats.antt =====
-- The statistics add up.
use omnicode_mcp.Prelude.{
  ℕ, ◌+◌, ◌≤◌, ◌≡◌, refl, subst, Bool-cases, ltb, inl, inr, String, Bool, true, false, Option, none,
  some, List, [], ◌∷◌, length, length-take-le, arith,
}
use omnicode_mcp.Prelude.Eq.{string_eq}
use omnicode_mcp.Prelude.Dict.{get, get-put_cases}
use omnicode_mcp.Prelude.Result.{Result, ok, raise}
use omnicode_mcp.Llm.Router.{
  Strategy, CallLabel, plain, best_of_label, Selector, race, Response, ProviderStats, new_stats,
  Router, World, stats_of, after_answer, record_call, ask, RouteError, try_turn, try_chain, ask_all,
  best_of, run_chain, complete, mem, provider_chain,
}

-- The calls are the successes and the failures, and the failures in a row are among the failures.
pub record AddsUp (stats : ProviderStats) : Type 0 where
  pub calls : stats.total_calls ≡ stats.success_count + stats.failure_count
  pub row : stats.consecutive_failures ≤ stats.failure_count

-- Every provider's statistics add up, and the recent calls are no more than are kept.
pub record IsCounted (s : Router) : Type 0 where
  pub each : (n : String) (stats : ProviderStats) → get s.stats n ≡ some stats → AddsUp stats
  pub recent : length s.recent_calls ≤ s.recent_size

after_answer-AddsUp :
    (stats : ProviderStats) (duration : ℕ) (answer : Result String Response)
    → AddsUp stats
    → AddsUp (after_answer stats duration answer)
after_answer-AddsUp stats duration (ok response) h = record {
  calls = omega (arith, h.calls);
  row = omega arith;
}
after_answer-AddsUp stats duration (raise error) h = record {
  calls = omega (arith, h.calls);
  row = omega (arith, h.row);
}

stats_of-AddsUp :
    (s : Router) (n : String)
    → IsCounted s
    → (found : Option ProviderStats) → get s.stats n ≡ found
    → AddsUp (elim found [ none ↦ new_stats | some stats ↦ stats ])
stats_of-AddsUp s n h none e = record { calls = refl; row = omega arith }
stats_of-AddsUp s n h (some stats) e = h.each n stats e

ask-IsCounted :
    (w : World) (label : CallLabel) (name : String) (s : Router)
    → IsCounted s
    → IsCounted (ask w label name s)
unfolding ask record_call
ask-IsCounted w label name s h = record {
  each = λ n stats e. elim (get-put_cases s.stats name n _ stats e) [
    | inl (same, kept) ↦ subst AddsUp kept (
        after_answer-AddsUp (stats_of s name) (w.duration name) (w.reply name)
          (stats_of-AddsUp s name h (get s.stats name) refl))
    | inr before ↦ h.each n stats before
  ];
  recent = length-take-le s.recent_size _;
}

module _ (w : World) (label : CallLabel) where
  turn-IsCounted :
      (last : Option String) (name : String)
      (next : Option String → Router → Result RouteError Response × Router) (s : Router)
      (known : Bool) (answer : Result String Response)
      → ((l : Option String) (t : Router) → IsCounted t → IsCounted (next l t).1)
      → IsCounted s
      → IsCounted (try_turn w label last name next s known answer).1
  turn-IsCounted last name next s false answer ih h = ih last s h
  turn-IsCounted last name next s true (ok response) ih h = ask-IsCounted w label name s h
  turn-IsCounted last name next s true (raise error) ih h =
      ih (some error) (ask w label name s) (ask-IsCounted w label name s h)

  try_chain-IsCounted :
      (names : List String) (last : Option String) (s : Router)
      → IsCounted s
      → IsCounted (try_chain w label last names s).1
  unfolding try_chain
  try_chain-IsCounted [] last s h = h
  try_chain-IsCounted (name ∷ names) last s h =
      turn-IsCounted last name (λ l t. try_chain w label l names t) s (mem name s.providers)
        (w.reply name) (λ l t g. try_chain-IsCounted names l t g) h

  ask_all-IsCounted :
      (names : List String) (s : Router) → IsCounted s → IsCounted (ask_all w label names s)
  unfolding ask_all
  ask_all-IsCounted [] s h = h
  ask_all-IsCounted (name ∷ names) s h =
      ask_all-IsCounted names (ask w label name s) (ask-IsCounted w label name s h)

module _ (w : World) (strategy : Strategy) where
  race-IsCounted :
      (selector : Selector) (n : ℕ) (names : List String) (s : Router)
      → IsCounted s
      → IsCounted (race w strategy selector n names s).1
  race-IsCounted selector n [] s h = h
  race-IsCounted selector n (name ∷ names) s h =
      ask_all-IsCounted w (best_of_label strategy n) (name ∷ names) s h

  run_chain-IsCounted :
      (selector : Selector) (n : ℕ) (chain : List String) (s : Router)
      → IsCounted s
      → IsCounted (run_chain w strategy selector n chain s).1
  unfolding best_of
  run_chain-IsCounted selector n [] s h = h
  run_chain-IsCounted selector n (name ∷ names) s h = elim (Bool-cases (ltb 1 n)) [
    | inl holds ↦ rw holds (race-IsCounted selector n _ s h)
    | inr fails ↦ rw fails (try_chain-IsCounted w (plain strategy) (name ∷ names) none s h)
  ]

  -- A request keeps the books, whether it is answered or fails: for every provider the calls are the
  -- successes and the failures, the failures in a row are among the failures, and the recent
  -- calls are no more than are kept.
  pub complete-IsCounted :
      (task : Option String) (selector : Selector) (n : ℕ) (s : Router)
      → IsCounted s
      → IsCounted (complete w strategy task selector n s).1
  unfolding complete
  complete-IsCounted task selector n s h =
      run_chain-IsCounted selector n (provider_chain s strategy task) s h

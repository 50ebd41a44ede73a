-- ===== src/Graph/Impact/Search.antt =====
-- The search finds exactly the symbols within its depth.
use omnicode_mcp.Prelude.{
  ℕ, zero, suc, ◌+◌, ◌≤◌, ◌≡◌, ◌≢◌, refl, subst, ◌↔◌, ◌⊎◌, inl, inr, String, true, false, not, ◌&&◌,
  ◌||◌, Bool-cases, List, [], ◌∷◌, arith,
}
use omnicode_mcp.Prelude.Eq.{◌==◌, string_eq, beq_refl, eq_of_beq, ne_of_beq, beq_false}
use omnicode_mcp.Graph.Impact.{mem, Adjacency, next_to, visit_frontier, rounds, bfs}
use omnicode_mcp.Graph.Impact.Visits.{
  seen, near, near_cases, near-mem, frontier_visited, frontier_next,
}

-- A walk of `n` edges.
pub data Walk (adjacency : Adjacency) (start : String) : String → ℕ → Type 0 where
  stay : Walk adjacency start start 0
  onward :
      (u w : String) (n : ℕ)
      → Walk adjacency start u n
      → mem w (next_to adjacency u) ≡ true
      → Walk adjacency start w (suc n)

abbrev pub Within : Adjacency → String → ℕ → String → Type 0
Within adjacency start depth x = (n : ℕ) × (n ≤ depth) × Walk adjacency start x n

module _ (start : String) (adjacency : Adjacency) where
  -- The state of the search after `depth` rounds.
  record Progress (depth : ℕ) (visited frontier : List String) : Type 0 where
    found :
        (x : String)
        → mem x visited ≡ true
        → ((x == start) ≡ false) × Within adjacency start depth x
    edge_of_search : (x : String) → mem x frontier ≡ true → Within adjacency start depth x
    complete : (x : String) → Within adjacency start depth x → seen start visited x ≡ true
    closed :
        (u x : String)
        → seen start visited u ≡ true
        → mem u frontier ≡ false
        → mem x (next_to adjacency u) ≡ true
        → seen start visited x ≡ true

  further :
      (depth : ℕ) (x : String)
      → Within adjacency start depth x
      → Within adjacency start (suc depth) x
  further depth x (n, l, walk) = (n, omega arith, walk)

  module _ (depth : ℕ) (visited frontier : List String) (p : Progress depth visited frontier) where
    near_Within :
        (x : String) → near adjacency x frontier ≡ true → Within adjacency start (suc depth) x
    near_Within x h =
        let (u, there, edge) = near_cases adjacency x frontier h in
        let (n, l, walk) = p.edge_of_search u there in (suc n, omega arith, onward u x n walk edge)

    near_or_seen :
        (u x : String)
        → seen start visited u ≡ true
        → mem x (next_to adjacency u) ≡ true
        → (seen start visited x ≡ true) ⊎ (near adjacency x frontier ≡ true)
    near_or_seen u x h e = elim (Bool-cases (mem u frontier)) [
      | inl holds ↦ inr (near-mem adjacency u x frontier holds e)
      | inr fails ↦ inl (p.closed u x h fails e)
    ]

    abbrev visited_after : List String
    visited_after = (visit_frontier start adjacency visited [] frontier).0

    abbrev frontier_after : List String
    frontier_after = (visit_frontier start adjacency visited [] frontier).1

    seen_after :
        (x : String)
        → seen start visited_after x ≡ (seen start visited x || near adjacency x frontier)
    seen_after x = ground (arith, frontier_visited start adjacency frontier visited [] x)

    next_after :
        (x : String)
        → mem x frontier_after ≡ (near adjacency x frontier && not (seen start visited x))
    next_after x = ground (arith, frontier_next start adjacency frontier visited [] x)

    seen_now :
        (x : String)
        → (seen start visited x ≡ true) ⊎ (near adjacency x frontier ≡ true)
        → seen start visited_after x ≡ true
    seen_now x (inl h) = ground (arith, seen_after x, h)
    seen_now x (inr h) = ground (arith, seen_after x, h)

    complete_after :
        (x : String) (n : ℕ)
        → n ≤ suc depth
        → Walk adjacency start x n
        → seen start visited_after x ≡ true
    complete_after _ _ l stay = ground (arith, beq_refl start)
    complete_after _ _ l (onward u x m walk edge) =
        seen_now x (near_or_seen u x (p.complete u (m, omega arith, walk)) edge)

    found_after :
        (x : String)
        → mem x visited_after ≡ true
        → ((x == start) ≡ false) × Within adjacency start (suc depth) x
    found_after x h = elim (Bool-cases (mem x visited)) [
      | inl holds ↦ let (other, within) = p.found x holds in (other, further depth x within)
      | inr fails ↦ (
        ground (arith, frontier_visited start adjacency frontier visited [] x, h, fails),
        near_Within x
            (ground (arith, frontier_visited start adjacency frontier visited [] x, h, fails)),
      )
    ]

    round-Progress : Progress (suc depth) visited_after frontier_after
    round-Progress = record {
      found = found_after;
      edge_of_search = λ x h. near_Within x (ground (arith, next_after x, h));
      complete = λ x (n, l, walk). complete_after x n l walk;
      closed = λ u x h n e.
          seen_now x (near_or_seen u x (ground (arith, seen_after u, next_after u, h, n)) e);
    }

  -- Where the frontier is empty, nothing further is within any depth.
  done_complete :
      (depth : ℕ) (visited : List String)
      → Progress depth visited []
      → (x : String) (n : ℕ) → Walk adjacency start x n
      → seen start visited x ≡ true
  done_complete depth visited p _ _ stay = ground (arith, beq_refl start)
  done_complete depth visited p _ _ (onward u x m walk edge) =
      p.closed u x (done_complete depth visited p u m walk) refl edge

  -- What the search has to return for a depth.
  record Answers (depth : ℕ) (out : List String) : Type 0 where
    sound :
        (x : String) → mem x out ≡ true → ((x == start) ≡ false) × Within adjacency start depth x
    complete : (x : String) → Within adjacency start depth x → seen start out x ≡ true

  widen : (a b : ℕ) (x : String) → a ≤ b → Within adjacency start a x → Within adjacency start b x
  widen a b x l (n, m, walk) = (n, omega arith, walk)

  rounds_answer :
      (left done : ℕ) (visited frontier : List String)
      → Progress done visited frontier
      → Answers (done + left) (rounds start adjacency left visited frontier)
  unfolding rounds
  rounds_answer zero done visited frontier p = record {
    sound =
        λ x h. let (other, within) = p.found x h in (other, widen done _ x (omega arith) within);
    complete = λ x w. p.complete x (widen _ done x (omega arith) w);
  }
  rounds_answer (suc left) done visited frontier p =
      go (visit_frontier start adjacency visited [] frontier).1
        (round-Progress done visited frontier p)
        (λ x xs q.
          rounds_answer left (suc done) (visit_frontier start adjacency visited [] frontier).0
            (x ∷ xs) q)
    where
      go :
          (next : List String)
          → Progress (suc done) (visit_frontier start adjacency visited [] frontier).0 next
          → ((x : String) (xs : List String)
              → Progress (suc done) (visit_frontier start adjacency visited [] frontier).0 (x ∷ xs)
              → Answers (suc done + left) (
                  rounds start adjacency left
                    (visit_frontier start adjacency visited [] frontier).0
                    (x ∷ xs)))
          → Answers (done + suc left) (elim next [
            | [] ↦ (visit_frontier start adjacency visited [] frontier).0
            | x ∷ xs ↦
                rounds start adjacency left
                  (visit_frontier start adjacency visited [] frontier).0
                  (x ∷ xs)
          ])
      go [] q ih = record {
        sound = λ x h.
            let (other, within) = q.found x h in (other, widen (suc done) _ x (omega arith) within);
        complete = λ x (n, l, walk). done_complete (suc done) _ q x n walk;
      }
      go (x ∷ xs) q ih =
          subst
            (λ d. Answers d (
              rounds start adjacency left (visit_frontier start adjacency visited [] frontier).0
                (x ∷ xs)))
            (omega arith) (ih x xs q)

  start_seen : (x : String) (n : ℕ) → n ≤ 0 → Walk adjacency start x n → seen start [] x ≡ true
  start_seen _ _ l stay = ground (arith, beq_refl start)
  start_seen _ _ l (onward u x m walk edge) = absurd (omega (arith, l))

  start_Progress : Progress 0 [] (start ∷ [])
  start_Progress = record {
    found = λ x h. cc;
    edge_of_search = λ x h.
        subst (Within adjacency start 0) (eq_of_beq start x (ground (arith, h)))
          (0, omega arith, stay);
    complete = λ x (n, l, walk). start_seen x n l walk;
    closed =
        λ u x h n e. ground (arith, string_eq.same_iff u start, string_eq.same_iff start u, h, n);
  }

  -- The search from a symbol returns exactly the other symbols that a walk of at most `depth` edges
  -- leads to.
  pub mem-bfs :
      (depth : ℕ) (x : String)
      → (mem x (bfs start depth adjacency) ≡ true)
        ↔ ((x ≢ start) × ((n : ℕ) × (n ≤ depth) × Walk adjacency start x n))
  unfolding bfs
  mem-bfs depth x =
      let answer = rounds_answer depth 0 [] (start ∷ []) start_Progress in
      (
        λ h.
            let (other, within) = answer.sound x h in
            (ne_of_beq x start other, widen _ depth x (omega arith) within),
        λ (other, within). ground (
          arith,
          answer.complete x (widen depth _ x (omega arith) within),
          beq_false x start other,
        ),
      )

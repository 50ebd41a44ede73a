-- ===== src/Graph/Impact/Visits.antt =====
-- What the visits of one round of the search add.
use omnicode_mcp.Prelude.{
  ◌≡◌, refl, inl, inr, String, Bool, true, false, not, ◌&&◌, ◌||◌, Bool-cases, List, [], ◌∷◌, arith,
}
use omnicode_mcp.Prelude.Eq.{◌==◌, string_eq, beq_refl, eq_of_beq}
use omnicode_mcp.Graph.Impact.{mem, Adjacency, next_to, visit_neighbors, visit_frontier}

module _ (start : String) where
  -- Whether the search has met the node.
  abbrev pub seen : List String → String → Bool
  seen visited x = (x == start) || mem x visited

  pub neighbors_visited :
      (ns visited next : List String) (x : String)
      → mem x (visit_neighbors start visited next ns).0
        ≡ (mem x visited || (mem x ns && not (x == start)))
  unfolding visit_neighbors
  neighbors_visited [] visited next x = ground arith
  neighbors_visited (n ∷ ns) visited next x = ground (
    arith,
    string_eq.same_iff n x,
    string_eq.same_iff n start,
    string_eq.same_iff x start,
    neighbors_visited ns (n ∷ visited) (n ∷ next) x,
    neighbors_visited ns visited next x,
  )

  pub neighbors_next :
      (ns visited next : List String) (x : String)
      → mem x (visit_neighbors start visited next ns).1
        ≡ (mem x next || (mem x ns && not (seen visited x)))
  unfolding visit_neighbors
  neighbors_next [] visited next x = ground arith
  neighbors_next (n ∷ ns) visited next x = ground (
    arith,
    string_eq.same_iff n x,
    string_eq.same_iff n start,
    string_eq.same_iff x start,
    neighbors_next ns (n ∷ visited) (n ∷ next) x,
    neighbors_next ns visited next x,
  )

module _ (adjacency : Adjacency) where
  -- Whether an edge leads from the frontier to the node.
  abbrev pub near : String → List String → Bool
  near x [] = false
  near x (u ∷ us) = mem x (next_to adjacency u) || near x us

  pub near_cases :
      (x : String) (us : List String)
      → near x us ≡ true
      → (u : String) × (mem u us ≡ true) × (mem x (next_to adjacency u) ≡ true)
  near_cases x [] h = cc
  near_cases x (u ∷ us) h = elim (Bool-cases (mem x (next_to adjacency u))) [
    | inl holds ↦ (u, rw (beq_refl u) refl, holds)
    | inr fails ↦
        let (v, there, edge) = near_cases x us (ground (arith, h, fails)) in
        (v, ground (arith, there), edge)
  ]

  pub near-mem :
      (u x : String) (us : List String)
      → mem u us ≡ true
      → mem x (next_to adjacency u) ≡ true
      → near x us ≡ true
  near-mem u x [] h e = h
  near-mem u x (v ∷ vs) h e = elim (Bool-cases (v == u)) [
    | inl holds ↦ rw (eq_of_beq v u holds, e) refl
    | inr fails ↦ ground (arith, near-mem u x vs (ground (arith, h, fails)) e)
  ]

module _ (start : String) (adjacency : Adjacency) where
  pub frontier_visited :
      (us visited next : List String) (x : String)
      → mem x (visit_frontier start adjacency visited next us).0
        ≡ (mem x visited || (near adjacency x us && not (x == start)))
  unfolding visit_frontier
  frontier_visited [] visited next x = ground arith
  frontier_visited (u ∷ us) visited next x =
      let (v, n) = visit_neighbors start visited next (next_to adjacency u) in
      ground (
        arith,
        frontier_visited us v n x,
        neighbors_visited start (next_to adjacency u) visited next x,
      )

  pub frontier_next :
      (us visited next : List String) (x : String)
      → mem x (visit_frontier start adjacency visited next us).1
        ≡ (mem x next || (near adjacency x us && not (seen start visited x)))
  unfolding visit_frontier
  frontier_next [] visited next x = ground arith
  frontier_next (u ∷ us) visited next x =
      let (v, n) = visit_neighbors start visited next (next_to adjacency u) in
      ground (
        arith,
        frontier_next us v n x,
        neighbors_next start (next_to adjacency u) visited next x,
        neighbors_visited start (next_to adjacency u) visited next x,
      )

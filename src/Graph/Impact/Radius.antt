-- ===== src/Graph/Impact/Radius.antt =====
-- The symbols within the radius of a change, by the edges of the call graph.
use omnicode_mcp.Prelude.{ℕ, suc, ◌≤◌, ◌≡◌, ◌≢◌, sym, ◌∙◌, ◌↔◌, String, true, List, []}
use omnicode_mcp.Graph.Impact.{Edge, mem, Adjacency, build_in_index, build_out_index, impact_radius}
use omnicode_mcp.Graph.Impact.Search.{Walk, stay, onward, mem-bfs}
use omnicode_mcp.Graph.Impact.Index.{calls, indices_agree}
use omnicode_mcp.Graph.Impact.Entry.{Chain, here, call, Chain-of_Walk, Walk-of_Chain}

module _ (edges : List Edge) where
  abbrev callees_of : Adjacency
  callees_of = build_out_index edges []

  Chain-snoc :
      (u w a : String) (n : ℕ)
      → Chain edges u a n
      → calls edges u w ≡ true
      → Chain edges w a (suc n)
  Chain-snoc u w _ _ here e = call u w 0 e here
  Chain-snoc u w _ _ (call a b n edge chain) e = call a b (suc n) edge (Chain-snoc u w b n chain e)

  Chain-down : (a x : String) (n : ℕ) → Walk callees_of a x n → Chain edges x a n
  Chain-down a _ _ stay = here
  Chain-down a _ _ (onward u w n walk edge) =
      Chain-snoc u w a n (Chain-down a u n walk) (sym (indices_agree edges u w).1 ∙ edge)

  Walk-cons :
      (a b x : String) (n : ℕ)
      → calls edges a b ≡ true
      → Walk callees_of b x n
      → Walk callees_of a x (suc n)
  Walk-cons a b _ _ e stay = onward a b 0 stay ((indices_agree edges a b).1 ∙ e)
  Walk-cons a b _ _ e (onward u w n walk edge) = onward u w (suc n) (Walk-cons a b u n e walk) edge

  Walk-down : (x a : String) (n : ℕ) → Chain edges x a n → Walk callees_of a x n
  Walk-down x _ _ here = stay
  Walk-down x _ _ (call a b n edge chain) = Walk-cons a b x n edge (Walk-down x b n chain)

  -- The affected symbols are exactly the others that a chain of at most `depth` calls leads to from
  -- the symbol, and the dependent ones those from which such a chain leads to it.
  pub impact_radius_lem :
      (relpath : String → String) (symbol : String) (depth : ℕ) (x : String)
      → ((mem x (impact_radius relpath edges symbol depth).affected_symbols ≡ true)
          ↔ ((x ≢ symbol) × ((n : ℕ) × (n ≤ depth) × Chain edges x symbol n)))
        × ((mem x (impact_radius relpath edges symbol depth).dependent_symbols ≡ true)
            ↔ ((x ≢ symbol) × ((n : ℕ) × (n ≤ depth) × Chain edges symbol x n)))
  unfolding impact_radius
  impact_radius_lem relpath symbol depth x =
      let down = mem-bfs symbol callees_of depth x in
      let up = mem-bfs symbol (build_in_index edges []) depth x in
      (
        (
          λ h. let (other, (n, l, walk)) = down.0 h in (other, (n, l, Chain-down symbol x n walk)),
          λ (other, (n, l, chain)). down.1 (other, (n, l, Walk-down x symbol n chain)),
        ),
        (
          λ h.
              let (other, (n, l, walk)) = up.0 h in
              (other, (n, l, Chain-of_Walk edges symbol x n walk)),
          λ (other, (n, l, chain)). up.1 (other, (n, l, Walk-of_Chain edges symbol x n chain)),
        ),
      )

-- ===== src/Graph/Impact/Entry.antt =====
-- Entry points and dead symbols, by the edges of the call graph.
use omnicode_mcp.Prelude.{
  ℕ, suc, ◌≤◌, ◌≡◌, ◌≢◌, refl, sym, ◌∙◌, ◌↔◌, inl, String, Bool, true, false, ◌&&◌, ◌||◌, List, [],
  arith,
}
use omnicode_mcp.Prelude.Eq.{string_eq}
use omnicode_mcp.Prelude.Dict.{keys}
use omnicode_mcp.Graph.Impact.{
  Edge, mem, Adjacency, next_to, build_in_index, build_out_index, bfs, bfs_reverse, union, is_nil,
  all_nodes, roots, entry_points,
}
use omnicode_mcp.Graph.Impact.Search.{Walk, stay, onward, mem-bfs}
use omnicode_mcp.Graph.Impact.Index.{
  calls, is_nil-mem, mem-keep, mem-union, indices_agree, caller-mem,
}

-- A chain of `n` calls from a symbol to `target`.
pub data Chain (edges : List Edge) (target : String) : String → ℕ → Type 0 where
  here : Chain edges target target 0
  call :
      (a b : String) (n : ℕ)
      → calls edges a b ≡ true
      → Chain edges target b n
      → Chain edges target a (suc n)

module _ (edges : List Edge) (symbol : String) where
  abbrev callers_of : Adjacency
  callers_of = build_in_index edges []

  pub Chain-of_Walk : (x : String) (n : ℕ) → Walk callers_of symbol x n → Chain edges symbol x n
  Chain-of_Walk _ _ stay = here
  Chain-of_Walk _ _ (onward u w n walk edge) =
      call w u n (sym (indices_agree edges w u).0 ∙ edge) (Chain-of_Walk u n walk)

  pub Walk-of_Chain : (x : String) (n : ℕ) → Chain edges symbol x n → Walk callers_of symbol x n
  Walk-of_Chain _ _ here = stay
  Walk-of_Chain _ _ (call a b n edge chain) =
      onward b a n (Walk-of_Chain b n chain) ((indices_agree edges a b).0 ∙ edge)

  Chain-caller :
      (x : String) (n : ℕ)
      → Chain edges symbol x n
      → x ≢ symbol
      → mem x (keys (build_out_index edges [])) ≡ true
  Chain-caller _ _ here other = absurd (other refl)
  Chain-caller _ _ (call a b n edge chain) other = caller-mem edges [] a b (inl edge)

  reverse_lem : bfs_reverse symbol 20 callers_of ≡ bfs symbol 20 callers_of
  unfolding bfs bfs_reverse
  reverse_lem = refl

  entry_points_lem :
      (x : String)
      → mem x (entry_points edges symbol) ≡ (
          ((mem x (keys callers_of) || mem x (keys (build_out_index edges [])))
            && is_nil (next_to callers_of x))
          && mem x (bfs symbol 20 callers_of))
  unfolding entry_points roots all_nodes
  entry_points_lem x =
      mem-keep (λ n. mem n (bfs_reverse symbol 20 callers_of)) x _
      ∙ rw
          (
            mem-keep (λ n. is_nil (next_to callers_of n)) x
                (union (keys callers_of) (keys (build_out_index edges []))),
            mem-union x (keys callers_of) (keys (build_out_index edges [])),
            reverse_lem,
          )
          refl

  and_parts : (a b c : Bool) → ((a && b) && c) ≡ true → (b ≡ true) × (c ≡ true)
  and_parts true true c h = (refl, h)
  and_parts true false c h = cc
  and_parts false b c h = cc

  -- The entry points of a symbol are exactly the other symbols that nothing calls and from which a
  -- chain of at most 20 calls leads to it.
  pub mem-entry_points :
      (x : String)
      → (mem x (entry_points edges symbol) ≡ true) ↔ (
          ((a : String) → calls edges a x ≡ false)
          × (x ≢ symbol)
          × ((n : ℕ) × (n ≤ 20) × Chain edges symbol x n))
  mem-entry_points x = (
    λ h.
        let (no_callers, found) = and_parts _ _ _ (sym (entry_points_lem x) ∙ h) in
        let (other, (n, l, walk)) = (mem-bfs symbol callers_of 20 x).0 found in
        (
          λ a. sym (indices_agree edges a x).0 ∙ (is_nil-mem (next_to callers_of x)).0 no_callers a,
          other,
          (n, l, Chain-of_Walk x n walk),
        ),
    λ (no_callers, other, (n, l, chain)).
        let found = (mem-bfs symbol callers_of 20 x).1 (other, (n, l, Walk-of_Chain x n chain)) in
        let root =
          (is_nil-mem (next_to callers_of x)).1 (λ a. (indices_agree edges a x).0 ∙ no_callers a) in
        ground (arith, entry_points_lem x, found, root, Chain-caller x n chain other),
  )

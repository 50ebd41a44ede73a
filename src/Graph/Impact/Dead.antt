-- ===== src/Graph/Impact/Dead.antt =====
-- Dead symbols, by the edges of the call graph.
use omnicode_mcp.Prelude.{
  ◌≡◌, refl, sym, ◌∙◌, ◌↔◌, inl, inr, String, true, false, not, ◌&&◌, ◌||◌, Bool-cases, List, [],
  arith,
}
use omnicode_mcp.Prelude.Eq.{string_eq}
use omnicode_mcp.Prelude.Dict.{keys}
use omnicode_mcp.Graph.Impact.{
  Edge, mem, Adjacency, next_to, build_in_index, build_out_index, is_nil, all_nodes, dead_symbols,
  is_excluded,
}
use omnicode_mcp.Graph.Impact.Index.{
  calls, is_nil-mem, mem-keep, mem-union, indices_agree, caller-mem, out_key-calls, in_key-calls,
}

module _ (edges : List Edge) where
  abbrev in_index : Adjacency
  in_index = build_in_index edges []

  abbrev out_index : Adjacency
  out_index = build_out_index edges []

  dead_symbols_lem :
      (x : String)
      → mem x (dead_symbols edges) ≡ (
          (mem x (keys in_index) || mem x (keys out_index))
          && (is_nil (next_to in_index x) && not (is_excluded x)))
  unfolding dead_symbols all_nodes
  dead_symbols_lem x =
      mem-keep (λ n. is_nil (next_to in_index n) && not (is_excluded n)) x _
      ∙ rw (mem-union x (keys in_index) (keys out_index)) refl

  -- The dead symbols are exactly those that call something, that nothing calls, and whose names do
  -- not look like entry points or tests.
  mem-dead_symbols :
      (x : String)
      → (mem x (dead_symbols edges) ≡ true) ↔ (
          ((a : String) → calls edges a x ≡ false)
          × ((b : String) × (calls edges x b ≡ true))
          × (is_excluded x ≡ false))
  mem-dead_symbols x = (to, from)
    where
      from :
          ((a : String) → calls edges a x ≡ false)
            × ((b : String) × (calls edges x b ≡ true))
            × (is_excluded x ≡ false)
          → mem x (dead_symbols edges) ≡ true
      from (uncalled, (b, edge), plain) =
          let root =
            (is_nil-mem (next_to in_index x)).1 (λ a. (indices_agree edges a x).0 ∙ uncalled a) in
          ground (arith, dead_symbols_lem x, root, plain, caller-mem edges [] x b (inl edge))

      called : (a : String) → is_nil (next_to in_index x) ≡ true → calls edges a x ≡ false
      called a root = sym (indices_agree edges a x).0 ∙ (is_nil-mem (next_to in_index x)).0 root a

      to :
          mem x (dead_symbols edges) ≡ true
          → ((a : String) → calls edges a x ≡ false)
            × ((b : String) × (calls edges x b ≡ true))
            × (is_excluded x ≡ false)
      to h =
          let root : is_nil (next_to in_index x) ≡ true = ground (arith, h, dead_symbols_lem x) in
          let plain : is_excluded x ≡ false = ground (arith, h, dead_symbols_lem x) in
          let node : (mem x (keys in_index) || mem x (keys out_index)) ≡ true =
            ground (arith, h, dead_symbols_lem x) in
          elim (Bool-cases (mem x (keys out_index))) [
            | inl holds ↦ elim (out_key-calls edges [] x holds) [
              | inl edge ↦ (λ a. called a root, edge, plain)
              | inr none_there ↦ cc
            ]
            | inr fails ↦ elim (in_key-calls edges [] x (ground (arith, node, fails))) [
              | inl (a, edge) ↦ cc (edge, called a root)
              | inr none_there ↦ cc
            ]
          ]

-- ===== src/Graph/Inheritance/Direct.antt =====
-- The direct queries, on a graph behind any calls.
use omnicode_mcp.Prelude.{◌≡◌, ap, ◌∙◌, String, Bool, false, ◌&&◌, ◌||◌, List, [], ◌∷◌, arith}
use omnicode_mcp.Prelude.Eq.{◌==◌, string_eq}
use omnicode_mcp.Prelude.Dict.{get}
use omnicode_mcp.Prelude.Names.{mem}
use omnicode_mcp.Graph.Impact.{Adjacency, next_to, index_edge}
use omnicode_mcp.Graph.Impact.Index.{mem-index_edge}
use omnicode_mcp.Graph.Inheritance.{
  InheritanceEdge, InheritanceGraph, base_classes_of, subclasses_of,
}
use omnicode_mcp.Graph.Inheritance.Removal.{fill_bases, fill_subs}
use omnicode_mcp.Graph.Inheritance.Reached.{mem-sorted}
use omnicode_mcp.Graph.Inheritance.Rebuilt.{no_edges, build, build-built_of}
use omnicode_mcp.Graph.Inheritance.Calls.{GraphCall, run, surviving, run-build}

-- Whether some edge says that a class inherits from a base.
abbrev pub inherits : List InheritanceEdge → String → String → Bool
inherits [] subclass base = false
inherits (edge ∷ edges) subclass base =
    (edge.base == base && edge.subclass == subclass) || inherits edges subclass base

mem-fill_bases :
    (edges : List InheritanceEdge) (index : Adjacency) (subclass base : String)
    → mem base (next_to (fill_bases edges index) subclass)
      ≡ (mem base (next_to index subclass) || inherits edges subclass base)
unfolding fill_bases
mem-fill_bases [] index subclass base = ground arith
mem-fill_bases (edge ∷ edges) index subclass base = ground (
  arith,
  mem-fill_bases edges (index_edge edge.subclass edge.base index) subclass base,
  mem-index_edge edge.subclass edge.base base subclass index,
)

mem-fill_subs :
    (edges : List InheritanceEdge) (index : Adjacency) (subclass base : String)
    → mem subclass (next_to (fill_subs edges index) base)
      ≡ (mem subclass (next_to index base) || inherits edges subclass base)
unfolding fill_subs
mem-fill_subs [] index subclass base = ground arith
mem-fill_subs (edge ∷ edges) index subclass base = ground (
  arith,
  mem-fill_subs edges (index_edge edge.base edge.subclass index) subclass base,
  mem-index_edge edge.base edge.subclass subclass base index,
)

module _ (abspath : String → String) (calls : List GraphCall) where
  abbrev pub graph : InheritanceGraph
  graph = run abspath calls no_edges

  -- Behind any calls of `add_edge` and `remove_file` on an empty graph, the base classes of a class
  -- are those that an edge which is left names for it, and the subclasses of a base are the classes
  -- that have it as their base class.
  pub direct_agree :
      (subclass base : String)
      → (mem base (base_classes_of subclass graph)
          ≡ inherits (surviving abspath calls []) subclass base)
        × (mem subclass (subclasses_of base graph)
            ≡ inherits (surviving abspath calls []) subclass base)
  unfolding base_classes_of subclasses_of get build
  direct_agree subclass base =
      let left = surviving abspath calls [] in
      let same = run-build abspath calls [] ∙ build-built_of abspath left in
      (
        ap (λ g. mem base (base_classes_of subclass g)) same
            ∙ mem-sorted base (next_to (fill_bases left []) subclass)
            ∙ mem-fill_bases left [] subclass base,
        ap (λ g. mem subclass (subclasses_of base g)) same
            ∙ mem-sorted subclass (next_to (fill_subs left []) base)
            ∙ mem-fill_subs left [] subclass base,
      )

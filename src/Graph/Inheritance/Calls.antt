-- ===== src/Graph/Inheritance/Calls.antt =====
-- A graph behind any calls of `add_edge` and `remove_file`, against a list of edges.
use omnicode_mcp.Prelude.{◌≡◌, refl, sym, ap, ◌∙◌, String, not, List, [], ◌∷◌, ◌++◌, keep}
use omnicode_mcp.Graph.Inheritance.{InheritanceEdge, InheritanceGraph, add_edge}
use omnicode_mcp.Graph.Inheritance.Removal.{remove_file}
use omnicode_mcp.Graph.Inheritance.Rebuilt.{no_edges, build, is_from, remove_file-build}

-- The calls that change a graph.
pub data GraphCall : Type 0 where
  edge_added : InheritanceEdge → GraphCall
  file_removed : String → GraphCall

module _ (abspath : String → String) where
  abbrev call : GraphCall → InheritanceGraph → InheritanceGraph
  call (edge_added edge) g = add_edge abspath edge g
  call (file_removed file_path) g = (remove_file abspath file_path g).1

  abbrev pub run : List GraphCall → InheritanceGraph → InheritanceGraph
  run [] g = g
  run (c ∷ calls) g = run calls (call c g)

  -- The edges as a list, without any index: a removal filters it.
  abbrev leaves : GraphCall → List InheritanceEdge → List InheritanceEdge
  leaves (edge_added edge) edges = edges ++ edge ∷ []
  leaves (file_removed file_path) edges =
      keep (λ edge. not (is_from abspath (abspath file_path) edge)) edges

  abbrev pub surviving : List GraphCall → List InheritanceEdge → List InheritanceEdge
  surviving [] edges = edges
  surviving (c ∷ calls) edges = surviving calls (leaves c edges)

  build-snoc :
      (edges : List InheritanceEdge) (edge : InheritanceEdge) (g : InheritanceGraph)
      → build abspath (edges ++ edge ∷ []) g ≡ add_edge abspath edge (build abspath edges g)
  unfolding build
  build-snoc [] edge g = refl
  build-snoc (e ∷ edges) edge g = build-snoc edges edge (add_edge abspath e g)

  call-build :
      (c : GraphCall) (edges : List InheritanceEdge)
      → call c (build abspath edges no_edges) ≡ build abspath (leaves c edges) no_edges
  call-build (edge_added edge) edges = sym (build-snoc edges edge no_edges)
  call-build (file_removed file_path) edges =
      ap (λ r. r.1) (remove_file-build abspath file_path edges)

  -- After any sequence of calls of `add_edge` and `remove_file`, the graph is the one that
  -- `add_edge` alone builds of the edges that are left, in the order in which they came, where a
  -- removal leaves the edges that do not name its file.
  pub run-build :
      (calls : List GraphCall) (edges : List InheritanceEdge)
      → run calls (build abspath edges no_edges) ≡ build abspath (surviving calls edges) no_edges
  run-build [] edges = refl
  run-build (c ∷ calls) edges =
      ap (run calls) (call-build c edges) ∙ run-build calls (leaves c edges)

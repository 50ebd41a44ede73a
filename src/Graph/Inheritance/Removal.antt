-- ===== src/Graph/Inheritance/Removal.antt =====
-- `InheritanceGraph.remove_file` of omnicode/ast_engine/inheritance.py: the edges of a file go, and
-- the three indices are made again. A `set` of numbers is a list in ascending order.
use omnicode_mcp.Prelude.{
  ℕ, zero, suc, String, Bool, true, false, Option, none, some, List, [], ◌∷◌, ◌++◌, map, length,
}
use omnicode_mcp.Prelude.Eq.{string_eq, nat_eq}
use omnicode_mcp.Prelude.Dict.{Dict, get, put, pop}
use omnicode_mcp.Graph.Impact.{Adjacency, index_edge}
use omnicode_mcp.Graph.Inheritance.{InheritanceEdge, InheritanceGraph, numbers_of}

-- keep_mask[i] = False, for an i in range
unfoldable pub clear_at : ℕ → List Bool → List Bool
clear_at i [] = []
clear_at zero (kept ∷ mask) = false ∷ mask
clear_at (suc i) (kept ∷ mask) = kept ∷ clear_at i mask

unfoldable pub keep_mask : List ℕ → List Bool → List Bool
keep_mask [] mask = mask
keep_mask (i ∷ edge_indices) mask = keep_mask edge_indices (clear_at i mask)

pub record Compacted : Type 0 where
  pub kept_edges : List InheritanceEdge
  pub old_to_new : Dict ℕ ℕ

abbrev pub keep_edge : Bool → ℕ → InheritanceEdge → Compacted → Compacted
keep_edge false old_idx edge c = c
keep_edge true old_idx edge c = record {
  kept_edges = c.kept_edges ++ edge ∷ [];
  old_to_new = put c.old_to_new old_idx (length c.kept_edges);
}

-- The loop over `enumerate(self.edges)`, from the number of the first edge.
unfoldable pub compact : ℕ → List InheritanceEdge → List Bool → Compacted → Compacted
compact old_idx [] mask c = c
compact old_idx (edge ∷ edges) [] c = c
compact old_idx (edge ∷ edges) (kept ∷ mask) c =
    compact (suc old_idx) edges mask (keep_edge kept old_idx edge c)

abbrev pub renumbered : Option ℕ → List ℕ → List ℕ
renumbered none rest = rest
renumbered (some new_idx) rest = new_idx ∷ rest

-- {old_to_new[i] for i in idxs if i in old_to_new}
unfoldable pub translate : Dict ℕ ℕ → List ℕ → List ℕ
translate old_to_new [] = []
translate old_to_new (i ∷ idxs) = renumbered (get old_to_new i) (translate old_to_new idxs)

abbrev pub file_translated : String → List ℕ → Dict String (List ℕ) → Dict String (List ℕ)
file_translated file [] rest = rest
file_translated file (i ∷ idxs) rest = (file, i ∷ idxs) ∷ rest

-- The files with an edge left, with its new numbers; each key of a `dict` comes once.
unfoldable pub translate_files : Dict ℕ ℕ → Dict String (List ℕ) → Dict String (List ℕ)
translate_files old_to_new [] = []
translate_files old_to_new ((file, idxs) ∷ by_file) =
    file_translated file (translate old_to_new idxs) (translate_files old_to_new by_file)

-- The loop that fills the two indices again.
unfoldable pub fill_bases : List InheritanceEdge → Adjacency → Adjacency
fill_bases [] index = index
fill_bases (edge ∷ edges) index = fill_bases edges (index_edge edge.subclass edge.base index)

unfoldable pub fill_subs : List InheritanceEdge → Adjacency → Adjacency
fill_subs [] index = index
fill_subs (edge ∷ edges) index = fill_subs edges (index_edge edge.base edge.subclass index)

abbrev pub with_edges : Compacted → Dict String (List ℕ) → InheritanceGraph
with_edges c by_file = record {
  edges = c.kept_edges;
  bases_index = fill_bases c.kept_edges [];
  subs_index = fill_subs c.kept_edges [];
  by_file = translate_files c.old_to_new by_file;
}

abbrev pub remove_edges : List ℕ → Dict String (List ℕ) → InheritanceGraph → ℕ × InheritanceGraph
remove_edges [] by_file g = (0, record g { by_file = by_file })
remove_edges (i ∷ edge_indices) by_file g =
    let mask = keep_mask (i ∷ edge_indices) (map (λ edge. true) g.edges) in
    let c = compact 0 g.edges mask (record { kept_edges = []; old_to_new = [] }) in
    (length (i ∷ edge_indices), with_edges c by_file)

-- The number of edges that go, and the graph without them.
unfoldable pub remove_file : (String → String) → String → InheritanceGraph → ℕ × InheritanceGraph
unfolding keep_mask compact translate_files fill_bases fill_subs
remove_file abspath file_path g =
    let abs_path = abspath file_path in
    remove_edges (numbers_of (get g.by_file abs_path)) (pop g.by_file abs_path) g

-- ===== src/Graph/Impact.antt =====
-- `ImpactAnalyzer` of omnicode_core/graph/impact.py: indices of the call graph, the search through
-- them, entry points, dead symbols, and the risk of a change. A Python `set` is a list without
-- repetitions.
pub mod Visits
pub mod Search
pub mod Index
pub mod Entry
pub mod Risk
pub mod Dead
pub mod Radius
use Prim.Native.Char.{Char}
use omnicode_mcp.Prelude.{
  ℕ, zero, suc, ◌+◌, String, Bool, true, false, not, ◌&&◌, ◌||◌, Option, none, some, List, [], ◌∷◌,
  ◌++◌, length, keep, any, map, take, ltb, leb, if◌then◌else◌,
}
use omnicode_mcp.Prelude.Eq.{◌==◌, string_eq, nat_eq}
use omnicode_mcp.Prelude.Dict.{Dict, get, put, keys}
pub use omnicode_mcp.Prelude.Names.{mem}
use omnicode_mcp.Prelude.Text.{is_empty, has_prefix, lower, replace_char, starts_with_char}
use omnicode_mcp.Workspace.Path.{slash, backslash}

pub record Edge : Type 0 where
  pub caller : String
  pub callee : String
  pub file_path : String

-- xs.add(x)
unfoldable pub add : String → List String → List String
add x xs = if mem x xs then xs else xs ++ x ∷ []

abbrev pub Adjacency : Type 0
Adjacency = Dict String (List String)

-- adjacency.get(node, set())
abbrev pub or_none : Option (List String) → List String
or_none none = []
or_none (some xs) = xs

abbrev pub next_to : Adjacency → String → List String
next_to adjacency node = or_none (get adjacency node)

-- One edge into an index: the set is made where there is none, and the name is added.
unfoldable pub index_edge : String → String → Adjacency → Adjacency
index_edge key name index = put index key (add name (next_to index key))

-- The two indices, in the order of the edges.
unfoldable pub build_in_index : List Edge → Adjacency → Adjacency
build_in_index [] index = index
build_in_index (edge ∷ edges) index =
    build_in_index edges (index_edge edge.callee edge.caller index)

unfoldable pub build_out_index : List Edge → Adjacency → Adjacency
build_out_index [] index = index
build_out_index (edge ∷ edges) index =
    build_out_index edges (index_edge edge.caller edge.callee index)

module _ (start : String) where
  -- The loop over the neighbours of a node, on the visited nodes and the next frontier.
  unfoldable pub visit_neighbors :
      List String → List String → List String → List String × List String
  visit_neighbors visited next [] = (visited, next)
  visit_neighbors visited next (neighbor ∷ neighbors) =
      elim (not (mem neighbor visited) && not (neighbor == start)) [
        | true ↦ visit_neighbors (neighbor ∷ visited) (neighbor ∷ next) neighbors
        | false ↦ visit_neighbors visited next neighbors
      ]

  module _ (adjacency : Adjacency) where
    -- The loop over the frontier.
    unfoldable pub visit_frontier :
        List String → List String → List String → List String × List String
    visit_frontier visited next [] = (visited, next)
    visit_frontier visited next (node ∷ frontier) =
        let (v, n) = visit_neighbors visited next (next_to adjacency node) in
        visit_frontier v n frontier

    -- The rounds: the frontier's neighbours, until `depth` is used up or the frontier is empty.
    unfoldable pub rounds : ℕ → List String → List String → List String
    rounds zero visited frontier = visited
    rounds (suc depth) visited frontier =
        let (v, n) = visit_frontier visited [] frontier in
        elim n [ [] ↦ v | x ∷ xs ↦ rounds depth v (x ∷ xs) ]

unfoldable pub bfs : String → ℕ → Adjacency → List String
bfs start depth adjacency = rounds start adjacency depth [] (start ∷ [])

unfoldable pub bfs_reverse : String → ℕ → Adjacency → List String
bfs_reverse start depth in_index = rounds start in_index depth [] (start ∷ [])

-- set(a) | set(b)
unfoldable pub union : List String → List String → List String
union xs [] = xs
union xs (y ∷ ys) = union (add y xs) ys

abbrev pub is_nil : {A : Type 0} → List A → Bool
is_nil [] = true
is_nil (x ∷ xs) = false

-- set(in_index.keys()) | set(out_index.keys())
unfoldable pub all_nodes : Adjacency → Adjacency → List String
all_nodes in_index out_index = union (keys in_index) (keys out_index)

-- Those without callers.
unfoldable pub roots : Adjacency → Adjacency → List String
unfolding keep
roots in_index out_index = keep (λ n. is_nil (next_to in_index n)) (all_nodes in_index out_index)

-- `find_entrypoints`
unfoldable pub entry_points : List Edge → String → List String
unfolding keep
entry_points edges symbol =
    let in_index = build_in_index edges [] in
    let out_index = build_out_index edges [] in
    keep (λ n. mem n (bfs_reverse symbol 20 in_index)) (roots in_index out_index)

-- p in s, for a text
abbrev pub contains : String → String → Bool
contains p String.[] = is_empty p
contains p (String.◌∷◌ c s) = has_prefix (String.◌∷◌ c s) p || contains p s

abbrev pub entry_patterns : List String
entry_patterns =
    "main" ∷ "app" ∷ "create_app" ∷ "__init__" ∷ "__main__" ∷ "setup" ∷ "teardown" ∷ "conftest" ∷ []

-- The names that are no dead code though nothing calls them.
unfoldable pub is_excluded : String → Bool
unfolding lower
is_excluded node =
    let low = lower node in any (λ p. contains p low) entry_patterns || has_prefix low "test_"

-- `find_dead_symbols`, before it sorts
unfoldable pub dead_symbols : List Edge → List String
unfolding keep
dead_symbols edges =
    let in_index = build_in_index edges [] in
    let out_index = build_out_index edges [] in
    keep (λ node. is_nil (next_to in_index node) && not (is_excluded node))
      (all_nodes in_index out_index)

-- rel.replace("\\", "/"), where `relpath` stands for os.path.relpath against the working directory
abbrev pub rel_path : (String → String) → String → String
rel_path relpath path =
    replace_char backslash slash (if starts_with_char slash path then relpath path else path)

-- The files of the edges that touch a symbol of the set.
unfoldable pub files_of : (String → String) → List String → List String → List Edge → List String
files_of relpath symbols files [] = files
files_of relpath symbols files (edge ∷ edges) =
    files_of relpath symbols
      (if (mem edge.caller symbols || mem edge.callee symbols) && not (is_empty edge.file_path)
        then add (rel_path relpath edge.file_path) files
        else files)
      edges

pub record Impact : Type 0 where
  pub affected_symbols : List String
  pub dependent_symbols : List String
  pub files_involved : List String
  pub total_blast_radius : ℕ

-- `get_impact_radius`
unfoldable pub impact_radius : (String → String) → List Edge → String → ℕ → Impact
impact_radius relpath edges symbol depth =
    let affected = bfs symbol depth (build_out_index edges []) in
    let dependents = bfs symbol depth (build_in_index edges []) in
    let all_symbols = add symbol (union affected dependents) in
    record {
      affected_symbols = affected;
      dependent_symbols = dependents;
      files_involved = files_of relpath all_symbols [] edges;
      total_blast_radius = length all_symbols;
    }

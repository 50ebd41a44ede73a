-- ===== src/Examples/Graph.antt =====
-- A call graph of three calls.
use omnicode_mcp.Prelude.{ℕ, ◌≤◌, ◌≡◌, ◌≢◌, ◌↔◌, refl, String, true, false, List, [], ◌∷◌, keep}
use omnicode_mcp.Prelude.Dict.{get, put}
use omnicode_mcp.Graph.Impact.{
  Edge, mem, build_in_index, build_out_index, bfs, entry_points, roots, all_nodes, union, add,
  index_edge, bfs_reverse, rounds, visit_frontier, visit_neighbors,
}
use omnicode_mcp.Graph.Impact.Search.{Walk, mem-bfs}
use omnicode_mcp.Graph.Impact.Index.{calls}
use omnicode_mcp.Graph.Impact.Entry.{Chain, mem-entry_points}

abbrev edges : List Edge
edges =
    record { caller = "main"; callee = "run"; file_path = "m.py" }
    ∷ record { caller = "run"; callee = "load"; file_path = "r.py" }
    ∷ record { caller = "load"; callee = "run"; file_path = "r.py" }
    ∷ []

mem-bfs_example : (mem "run" (bfs "load" 2 (build_in_index edges [])) ≡ true) ↔ (
    (◌≢◌ {A = String} "run" "load")
    × ((n : ℕ) × (n ≤ 2) × Walk (build_in_index edges []) "load" "run" n))
mem-bfs_example = mem-bfs "load" (build_in_index edges []) 2 "run"

mem-entry_points_example : (mem "main" (entry_points edges "load") ≡ true) ↔ (
    ((a : String) → calls edges a "main" ≡ false)
    × (◌≢◌ {A = String} "main" "load")
    × ((n : ℕ) × (n ≤ 20) × Chain edges "load" "main" n))
mem-entry_points_example = mem-entry_points edges "load" "main"

-- What the search finds on this graph.
found : entry_points edges "load" ≡ "main" ∷ []
unfolding entry_points roots all_nodes union add build_in_index build_out_index index_edge
    bfs_reverse rounds visit_frontier visit_neighbors get put keep
found = refl

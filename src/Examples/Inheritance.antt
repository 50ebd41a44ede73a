-- ===== src/Examples/Inheritance.antt =====
-- A cycle of three classes, and a registry with two workspaces.
use omnicode_mcp.Prelude.{
  ◌≡◌, refl, String, true, false, none, some, List, [], ◌∷◌, map, keep, if◌then◌else◌,
}
use omnicode_mcp.Prelude.Eq.{◌==◌, string_eq, nat_eq}
use omnicode_mcp.Prelude.Dict.{get, put, pop}
use omnicode_mcp.Prelude.Names.{mem}
use omnicode_mcp.Graph.Impact.{index_edge, add as add_name}
use omnicode_mcp.Graph.Inheritance.{
  InheritanceEdge, InheritanceGraph, add_edge, ancestors_of, descendants_of, base_classes_of,
  subclasses_of, sorted, search_from, search_loop, expand, total_edges,
}
use omnicode_mcp.Graph.Inheritance.Reached.{Finds, ancestors-Finds}
use omnicode_mcp.Graph.Inheritance.Removal.{
  remove_file, keep_mask, clear_at, compact, translate_files, translate,
}
use omnicode_mcp.Graph.Inheritance.Rebuilt.{no_edges, build}
use omnicode_mcp.Graph.Inheritance.Calls.{edge_added, file_removed, run, run-build}
use omnicode_mcp.Graph.Inheritance.Direct.{graph, direct_agree}
use omnicode_mcp.Workspace.Registry.{Workspace, StoreFile, missing, load, Host, add}
use omnicode_mcp.Workspace.Registry.Single.{IsRegistry, begun, added, reachable-IsRegistry}

abbrev edge : String → String → InheritanceEdge
edge subclass base = record {
  subclass = subclass;
  base = base;
  kind = "extends";
  line = 1;
  file_path = none;
  language = none;
}

abbrev cycle : InheritanceGraph
cycle =
    add_edge (λ path. path) (edge "C" "A")
      (add_edge (λ path. path) (edge "B" "C") (add_edge (λ path. path) (edge "A" "B") no_edges))

-- A class on a cycle is its own ancestor.
cycle_ancestors : ancestors_of "A" 16 cycle ≡ some ("A" ∷ "B" ∷ "C" ∷ [])
unfolding add_edge index_edge put ancestors_of search_from search_loop expand total_edges sorted get
    keep add_name
cycle_ancestors = refl

ancestors-Finds_example :
    Finds cycle.bases_index 16 "A" (ancestors_of "A" 16 cycle)
    × Finds cycle.subs_index 16 "A" (descendants_of "A" 16 cycle)
ancestors-Finds_example = ancestors-Finds cycle "A" 16

abbrev in_file : String → String → String → InheritanceEdge
in_file path subclass base = record (edge subclass base) { file_path = some path }

abbrev absolute : String → String
absolute path = if path == "./a.py" then "/repo/a.py" else path

-- Two edges of a.py, under two spellings, around one of b.py and one of no file.
abbrev three_files : List InheritanceEdge
three_files =
    in_file "/repo/a.py" "A" "Base"
    ∷ in_file "/repo/b.py" "B" "Base"
    ∷ edge "C" "B"
    ∷ in_file "./a.py" "D" "A"
    ∷ []

-- The edge of b.py gets the number 0.
removed_numbers :
    (remove_file absolute "./a.py" (build absolute three_files no_edges)).1.by_file
    ≡ ("/repo/b.py", 0 ∷ []) ∷ []
unfolding remove_file build add_edge index_edge put get pop keep_mask clear_at compact
    translate_files translate add_name
removed_numbers = refl

run-build_example :
    run absolute
      (file_removed "/repo/a.py" ∷ edge_added (in_file "./a.py" "A" "B") ∷ [])
      (build absolute three_files no_edges)
    ≡ build absolute
        (in_file "/repo/b.py" "B" "Base" ∷ edge "C" "B" ∷ in_file "./a.py" "A" "B" ∷ [])
        no_edges
unfolding keep
run-build_example =
    run-build absolute (file_removed "/repo/a.py" ∷ edge_added (in_file "./a.py" "A" "B") ∷ [])
      three_files

direct_agree_example :
    (mem "Base" (base_classes_of "A" (graph absolute (edge_added (edge "A" "Base") ∷ []))) ≡ true)
    × (mem "A" (subclasses_of "Base" (graph absolute (edge_added (edge "A" "Base") ∷ []))) ≡ true)
direct_agree_example = direct_agree absolute (edge_added (edge "A" "Base") ∷ []) "A" "Base"

abbrev host : Host
host = record { resolve = λ path. path; is_dir = λ path. true; base_name = λ path. path }

abbrev one : StoreFile
one = (add host "app" "/app" true none "wk_1" 7 missing).1

abbrev two : StoreFile
two = (add host "lib" "/lib" true none "wk_2" 8 one).1

first_known : mem "wk_2" (map (λ (w : Workspace). w.id) (load one)) ≡ false
unfolding add
first_known = refl

reachable-IsRegistry_example : IsRegistry (load two)
reachable-IsRegistry_example = reachable-IsRegistry host two (
    added "lib" "/lib" true none "wk_2" 8 one two
      (added "app" "/app" true none "wk_1" 7 missing one (begun missing refl) refl refl) first_known
      refl)

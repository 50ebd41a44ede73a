-- ===== src/Graph/Inheritance.antt =====
-- `InheritanceGraph` of omnicode/ast_engine/inheritance.py: the edges from subclasses to bases, and
-- the search along them. A `set` is a list without repetitions, in the order that Python takes.
pub mod Ends
pub mod Queued
pub mod Levels
pub mod Reached
pub mod Removal
pub mod Filed
pub mod Renumbered
pub mod Compacted
pub mod Rebuilt
pub mod Calls
pub mod Direct
use Prim.Native.Nat.{Ordering}
use Prim.Native.String.{compare}
use omnicode_mcp.Prelude.{
  ℕ, zero, suc, ◌+◌, String, Bool, true, false, not, Option, none, some, List, [], ◌∷◌, ◌++◌, keep,
  map, ltb, length, if◌then◌else◌,
}
use omnicode_mcp.Prelude.Eq.{◌==◌, string_eq}
use omnicode_mcp.Prelude.Dict.{Dict, get, put}
use omnicode_mcp.Prelude.Names.{mem}
use omnicode_mcp.Prelude.Text.{is_empty}
use omnicode_mcp.Graph.Impact.{Adjacency, next_to, index_edge}

pub record InheritanceEdge : Type 0 where
  pub subclass : String
  pub base : String
  pub kind : String
  pub line : ℕ
  pub file_path : Option String
  pub language : Option String

pub record InheritanceGraph : Type 0 where
  pub edges : List InheritanceEdge
  pub bases_index : Adjacency
  pub subs_index : Adjacency
  pub by_file : Dict String (List ℕ)

abbrev pub numbers_of : Option (List ℕ) → List ℕ
numbers_of none = []
numbers_of (some numbers) = numbers

-- The number of a new edge is filed under its file, if it has one.
abbrev pub file_edge :
    (String → String) → Option String → ℕ → Dict String (List ℕ) → Dict String (List ℕ)
file_edge abspath none number by_file = by_file
file_edge abspath (some path) number by_file =
    if is_empty path
    then by_file
    else put by_file (abspath path) (numbers_of (get by_file (abspath path)) ++ number ∷ [])

unfoldable pub add_edge : (String → String) → InheritanceEdge → InheritanceGraph → InheritanceGraph
add_edge abspath edge g = record {
  edges = g.edges ++ edge ∷ [];
  bases_index = index_edge edge.subclass edge.base g.bases_index;
  subs_index = index_edge edge.base edge.subclass g.subs_index;
  by_file = file_edge abspath edge.file_path (length g.edges) g.by_file;
}

-- sorted(names)
abbrev pub comes_first : String → String → Bool
comes_first a b = elim (compare a b) [ Ordering.gt ↦ false | _ ↦ true ]

abbrev pub insert_sorted : String → List String → List String
insert_sorted x [] = x ∷ []
insert_sorted x (y ∷ ys) =
    let rest = insert_sorted x ys in if comes_first x y then x ∷ y ∷ ys else y ∷ rest

unfoldable pub sorted : List String → List String
sorted [] = []
sorted (x ∷ xs) = insert_sorted x (sorted xs)

unfoldable pub base_classes_of : String → InheritanceGraph → List String
base_classes_of symbol g = sorted (next_to g.bases_index symbol)

unfoldable pub subclasses_of : String → InheritanceGraph → List String
subclasses_of symbol g = sorted (next_to g.subs_index symbol)

abbrev pub Queue : Type 0
Queue = List (String × ℕ)

module _ (adjacency : Adjacency) (max_depth : ℕ) where
  abbrev pub queue_up : ℕ → List String → Queue
  queue_up depth = map (λ name. (name, depth))

  -- What the search of a node queues behind the rest.
  unfoldable pub expand : String → ℕ → List String → Queue
  expand node depth seen =
      if ltb depth max_depth
      then queue_up (depth + 1) (keep (λ name. not (mem name seen)) (next_to adjacency node))
      else []

  -- The `while` loop of `_bfs`, with fuel; none where that runs out.
  unfoldable pub search_loop : ℕ → List String → List String → Queue → Option (List String)
  search_loop fuel seen out [] = some out
  search_loop zero seen out ((node, depth) ∷ queue) = none
  search_loop (suc fuel) seen out ((node, depth) ∷ queue) = elim (mem node seen) [
    | true ↦ search_loop fuel seen out queue
    | false ↦
        search_loop fuel (node ∷ seen) (out ++ node ∷ []) (queue ++ expand node depth (node ∷ seen))
  ]

-- The neighbours that the index has in all.
unfoldable pub total_edges : Adjacency → ℕ
total_edges [] = 0
total_edges ((node, names) ∷ adjacency) = length names + total_edges adjacency

abbrev pub sorted_if : Option (List String) → Option (List String)
sorted_if none = none
sorted_if (some out) = some (sorted out)

-- `_bfs`, on fuel for the nodes that are queued at the start and for each edge once
unfoldable pub search_from : String → Adjacency → ℕ → Option (List String)
search_from start adjacency max_depth = sorted_if (
    search_loop adjacency max_depth (length (next_to adjacency start) + total_edges adjacency) [] []
      (queue_up adjacency max_depth 1 (next_to adjacency start)))

unfoldable pub ancestors_of : String → ℕ → InheritanceGraph → Option (List String)
ancestors_of symbol max_depth g = search_from symbol g.bases_index max_depth

unfoldable pub descendants_of : String → ℕ → InheritanceGraph → Option (List String)
descendants_of symbol max_depth g = search_from symbol g.subs_index max_depth

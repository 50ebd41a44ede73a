-- ===== src/Graph/Inheritance/Rebuilt.antt =====
-- A graph without a file is the graph that is built of the other edges.
use omnicode_mcp.Prelude.{
  ℕ, suc, ◌≡◌, refl, sym, ap, ap₂, subst, ◌∙◌, inl, inr, String, Bool, true, not, Bool-cases,
  Option, none, some, List, [], ◌∷◌, ◌++◌, keep, map, length,
}
use omnicode_mcp.Prelude.Eq.{◌==◌, string_eq, nat_eq}
use omnicode_mcp.Prelude.Dict.{get, pop}
use omnicode_mcp.Prelude.Keep.{append_nil, snoc_append}
use omnicode_mcp.Graph.Inheritance.{InheritanceEdge, InheritanceGraph, numbers_of, add_edge}
use omnicode_mcp.Graph.Inheritance.Removal.{
  keep_mask, Compacted, compact, fill_bases, fill_subs, remove_edges, remove_file,
}
use omnicode_mcp.Graph.Inheritance.Filed.{
  Numbers, is_file, file_edge-file_of, file_number, group, positions, numbers-group,
}
use omnicode_mcp.Graph.Inheritance.Renumbered.{is_other, file_number-pop, translate_files-group}
use omnicode_mcp.Graph.Inheritance.Compacted.{
  file, stays, length-snoc, keep_mask-positions, kept_edges-compact, compact-IsNumbered,
}

abbrev pub no_edges : InheritanceGraph
no_edges = record { edges = []; bases_index = []; subs_index = []; by_file = [] }

module _ (abspath : String → String) where
  -- The graph that `add_edge` makes of some edges.
  unfoldable pub build : List InheritanceEdge → InheritanceGraph → InheritanceGraph
  unfolding add_edge
  build [] g = g
  build (edge ∷ edges) g = build edges (add_edge abspath edge g)

  abbrev pub built_of : List InheritanceEdge → InheritanceGraph
  built_of edges = record {
    edges = edges;
    bases_index = fill_bases edges [];
    subs_index = fill_subs edges [];
    by_file = group 0 (map (file abspath) edges) [];
  }

  build_from :
      (edges : List InheritanceEdge) (g : InheritanceGraph)
      → build edges g ≡ record {
        edges = g.edges ++ edges;
        bases_index = fill_bases edges g.bases_index;
        subs_index = fill_subs edges g.subs_index;
        by_file = group (length g.edges) (map (file abspath) edges) g.by_file;
      }
  unfolding build fill_bases fill_subs group
  build_from [] g = rw (append_nil g.edges) refl
  build_from (edge ∷ edges) g =
      build_from edges (add_edge abspath edge g)
      ∙ rw
          (
            snoc_append g.edges edge edges,
            length-snoc g.edges edge,
            file_edge-file_of abspath edge.file_path (length g.edges) g.by_file,
          )
          refl

  pub build-built_of : (edges : List InheritanceEdge) → build edges no_edges ≡ built_of edges
  build-built_of edges = build_from edges no_edges

  module _ (k : String) where
    -- Whether an edge names the file k.
    abbrev pub is_from : InheritanceEdge → Bool
    is_from edge = is_file k (file abspath edge)

    keep-map :
        (edges : List InheritanceEdge)
        → keep (is_other k) (map (file abspath) edges)
          ≡ map (file abspath) (keep (stays abspath k) edges)
    unfolding keep
    keep-map [] = refl
    keep-map (edge ∷ edges) = elim (Bool-cases (is_from edge)) [
      | inl same ↦ rw same (keep-map edges)
      | inr other ↦ rw other (ap (◌∷◌ (file abspath edge)) (keep-map edges))
    ]

    length-positions :
        (n : ℕ) (edges : List InheritanceEdge)
        → length (positions k n (map (file abspath) edges)) ≡ length (keep is_from edges)
    unfolding positions keep
    length-positions n [] = refl
    length-positions n (edge ∷ edges) = elim (Bool-cases (is_from edge)) [
      | inl same ↦ rw same (ap suc (length-positions (suc n) edges))
      | inr other ↦ rw other (length-positions (suc n) edges)
    ]

    pop-group_none :
        (n : ℕ) (files : List (Option String)) (d : Numbers)
        → positions k n files ≡ []
        → pop (group n files d) k ≡ group n files (pop d k)
    unfolding group positions
    pop-group_none n [] d e = refl
    pop-group_none n (none ∷ files) d e = pop-group_none (suc n) files d e
    pop-group_none n (some f ∷ files) d e = elim (Bool-cases (f == k)) [
      | inl same ↦ cc (rw same at e)
      | inr other ↦
          pop-group_none (suc n) files (file_number (some f) n d) (rw other at e)
          ∙ ap (group (suc n) files) (file_number-pop k d f n other)
    ]

    keep-none :
        (n : ℕ) (edges : List InheritanceEdge)
        → positions k n (map (file abspath) edges) ≡ []
        → keep (stays abspath k) edges ≡ edges
    unfolding positions keep
    keep-none n [] e = refl
    keep-none n (edge ∷ edges) e = elim (Bool-cases (is_from edge)) [
      | inl same ↦ cc (rw same at e)
      | inr other ↦ rw other (ap (◌∷◌ edge) (keep-none (suc n) edges (rw other at e)))
    ]

    removed :
        (edges : List InheritanceEdge) (numbers : List ℕ)
        → positions k 0 (map (file abspath) edges) ≡ numbers
        → remove_edges numbers (pop (group 0 (map (file abspath) edges) []) k) (built_of edges)
          ≡ (length numbers, built_of (keep (stays abspath k) edges))
    unfolding pop
    removed edges [] e =
        rw (pop-group_none 0 (map (file abspath) edges) [] e, keep-none 0 edges e) refl
    removed edges (i ∷ numbers) e =
        let start : Compacted = record { kept_edges = []; old_to_new = [] } in
        let mask : keep_mask (i ∷ numbers) (map (λ edge. true) edges)
            ≡ map (stays abspath k) edges =
          subst (λ is. keep_mask is (map (λ edge. true) edges) ≡ map (stays abspath k) edges) e
            (keep_mask-positions abspath k edges) in
        rw
          (
            mask,
            kept_edges-compact abspath k 0 edges start,
            translate_files-group k (compact 0 edges (map (stays abspath k) edges) start).old_to_new
                (map (file abspath) edges) (compact-IsNumbered abspath k 0 edges start),
            keep-map edges,
          )
          refl

  -- On a graph that is built by `add_edge`, `remove_file` returns the number of the edges that name
  -- the file, and leaves the graph that is built of the other edges in their order: the same edges,
  -- the same two indices, and the same numbers for each file.
  pub remove_file-build :
      (file_path : String) (edges : List InheritanceEdge)
      → remove_file abspath file_path (build edges no_edges) ≡ (
        length (keep (is_from (abspath file_path)) edges),
        build (keep (λ edge. not (is_from (abspath file_path) edge)) edges) no_edges,
      )
  unfolding remove_file get
  remove_file-build file_path edges =
      let k = abspath file_path in
      let numbers : numbers_of (get (group 0 (map (file abspath) edges) []) k)
          ≡ positions k 0 (map (file abspath) edges) =
        numbers-group k 0 (map (file abspath) edges) [] in
      ap (remove_file abspath file_path) (build-built_of edges)
      ∙ removed k edges (numbers_of (get (group 0 (map (file abspath) edges) []) k)) (sym numbers)
      ∙ ap₂ (λ n g. (n, g)) (ap length numbers ∙ length-positions k 0 edges)
          (sym (build-built_of (keep (stays abspath k) edges)))

-- ===== src/Graph/Inheritance/Reached.antt =====
-- The search returns, and finds exactly the names that a walk leads to.
use omnicode_mcp.Prelude.{
  ℕ, zero, suc, ◌+◌, ◌≤◌, ◌≡◌, refl, sym, ap, subst, ◌∙◌, ◌↔◌, ◌⊎◌, inl, inr, String, true,
  Bool-cases, max, Option, none, some, List, [], ◌∷◌, ◌++◌, arith, length,
}
use omnicode_mcp.Prelude.Eq.{string_eq}
use omnicode_mcp.Prelude.Names.{mem, mem-append}
use omnicode_mcp.Graph.Impact.{Adjacency, next_to}
use omnicode_mcp.Graph.Impact.Search.{Walk, stay, onward}
use omnicode_mcp.Graph.Inheritance.{
  Queue, queue_up, expand, search_loop, total_edges, comes_first, insert_sorted, sorted, sorted_if,
  search_from, InheritanceGraph, ancestors_of, descendants_of,
}
use omnicode_mcp.Graph.Inheritance.Ends.{waiting-total, length-map, search_loop_ends}
use omnicode_mcp.Graph.Inheritance.Levels.{Met, InOrder, InOrder-old, InOrder-fresh}
use omnicode_mcp.Graph.Inheritance.Queued.{
  Has, Between-widen, queue_up-Between, Has-queue_up, queued_name,
}

mem-insert_sorted : (x y : String) (ys : List String) → mem x (insert_sorted y ys) ≡ mem x (y ∷ ys)
mem-insert_sorted x y [] = refl
mem-insert_sorted x y (z ∷ zs) = elim (Bool-cases (comes_first y z)) [
  | inl first ↦ rw first refl
  | inr later ↦ rw later (ground (arith, mem-insert_sorted x y zs))
]

pub mem-sorted : (x : String) (xs : List String) → mem x (sorted xs) ≡ mem x xs
unfolding sorted
mem-sorted x [] = refl
mem-sorted x (y ∷ ys) = mem-insert_sorted x y (sorted ys) ∙ ground (arith, mem-sorted x ys)

zero_cases : (n : ℕ) → (n ≡ 0) ⊎ (1 ≤ n)
zero_cases zero = inl refl
zero_cases (suc n) = inr (omega arith)

some_names : (a b : List String) → some a ≡ some b → a ≡ b
some_names a b e = ap (λ (o : Option (List String)). elim o [ some x ↦ x | none ↦ a ]) e

module _ (adjacency : Adjacency) (max_depth : ℕ) (start : String) where
  -- A walk of at least one edge, within the depth; a depth of 0 counts as 1.
  abbrev pub Reached : String → Type 0
  Reached x = (n : ℕ) × (1 ≤ n) × (n ≤ max max_depth 1) × Walk adjacency start x n

  Walk-zero : (x : String) (n : ℕ) → n ≡ 0 → Walk adjacency start x n → start ≡ x
  Walk-zero _ _ e stay = refl
  Walk-zero _ _ e (onward u w n walk edge) = absurd (omega (arith, e))

  module _ (level : ℕ) (seen : List String) (marks : Queue)
      (h : InOrder adjacency max_depth start level seen marks []) where
    in_marks :
        (x : String) (d : ℕ)
        → Met adjacency max_depth start marks [] x d
        → (e : ℕ) × (e ≤ d) × Has marks x e
    in_marks x d (e, l, inl mark) = (e, l, mark)
    in_marks x d (e, l, inr queued) = absurd queued

    marked_at_end :
        (x : String) (n : ℕ)
        → 1 ≤ n
        → n ≤ max max_depth 1
        → Walk adjacency start x n
        → (e : ℕ) × (e ≤ n) × Has marks x e
    marked_at_end _ _ low high stay = absurd (omega (arith, low))
    marked_at_end _ _ low high (onward u w m walk edge) = elim (zero_cases m) [
      | inl none_before ↦
          let near =
            subst (λ k. mem w (next_to adjacency k) ≡ true) (sym (Walk-zero u m none_before walk))
              edge in
          let (e, l, mark) = in_marks w 1 (h.first w near) in (e, omega (arith, l), mark)
      | inr more ↦
          let (d, d_le, before) = marked_at_end u m more (omega (arith, high)) walk in
          let (e, l, mark) =
            in_marks w (d + 1) (h.closed u w d before (omega (arith, d_le, high, more)) edge) in
          (e, omega (arith, l, d_le), mark)
    ]

  loop_finds :
      (fuel level : ℕ) (seen out : List String) (marks queue : Queue) (found : List String)
      → InOrder adjacency max_depth start level seen marks queue
      → ((x : String) → mem x out ≡ mem x seen)
      → search_loop adjacency max_depth fuel seen out queue ≡ some found
      → (x : String) → (mem x found ≡ true) ↔ Reached x
  unfolding search_loop
  loop_finds fuel level seen out marks [] found h same e x =
      let all : found ≡ out = sym (some_names out found e) in
      (
        λ m.
            let (d, mark) = h.marked x (sym (same x) ∙ ap (mem x) (sym all) ∙ m) in
            let (walk, low, high) = h.marks_walked x d mark in (d, low, high, walk),
        λ (n, low, high, walk).
            let (d, l, mark) = marked_at_end level seen marks h x n low high walk in
            ap (mem x) all ∙ same x ∙ h.seen_all x d mark,
      )
  loop_finds zero level seen out marks ((node, depth) ∷ queue) found h same e x = cc
  loop_finds (suc fuel) level seen out marks ((node, depth) ∷ queue) found h same e x =
      elim (Bool-cases (mem node seen)) [
        | inl old ↦
            loop_finds fuel depth seen out marks queue found
              (InOrder-old adjacency max_depth start level seen marks node depth queue h old) same
              (rw (search_loop, old) at e) x
        | inr fresh ↦
            loop_finds fuel depth (node ∷ seen) (out ++ node ∷ []) ((node, depth) ∷ marks)
              (queue ++ expand adjacency max_depth node depth (node ∷ seen)) found
              (InOrder-fresh adjacency max_depth start level seen marks node depth queue h)
              (λ y. mem-append y out (node ∷ []) ∙ ground (arith, same y))
              (rw (search_loop, fresh) at e) x
      ]

  start_InOrder :
      InOrder adjacency max_depth start 1 [] []
        (queue_up adjacency max_depth 1 (next_to adjacency start))
  start_InOrder = record {
    marked = λ x e. cc;
    seen_all = λ x d m. absurd m;
    marks_le = λ x d m. absurd m;
    in_levels =
        Between-widen 1 1 2 (queue_up adjacency max_depth 1 (next_to adjacency start)) (omega arith)
          (queue_up-Between adjacency max_depth 1 1 (next_to adjacency start) (omega arith));
    marks_walked = λ x d m. absurd m;
    queue_walked = λ x d q.
        let (there, at) = queued_name adjacency max_depth 1 (next_to adjacency start) x d q in
        let one : suc 0 ≡ d = omega (arith, at) in
        (
          subst (λ n. Walk adjacency start x n) one (onward start x 0 stay there),
          omega (arith, at),
          omega (arith, at),
        );
    first = λ x e.
        (1, omega arith, inr (Has-queue_up adjacency max_depth 1 (next_to adjacency start) x e));
    closed = λ z x d m l e. absurd m;
  }

  -- The search returns some names, and these are the names that a walk leads to.
  abbrev pub Finds : Option (List String) → Type 0
  Finds answer =
      (found : List String) × (answer ≡ some found)
      × ((x : String) → (mem x found ≡ true) ↔ Reached x)

  search_from-Finds : Finds (search_from start adjacency max_depth)
  unfolding search_from
  search_from-Finds =
      let names = next_to adjacency start in
      let queue = queue_up adjacency max_depth 1 names in
      let (out, e) =
        search_loop_ends adjacency max_depth (length names + total_edges adjacency) [] [] queue (
          omega (
            arith,
            length-map {B = String × ℕ} (λ (name : String). (name, 1)) names,
            waiting-total adjacency,
          )) in
      let finds = loop_finds _ 1 [] [] [] queue out start_InOrder (λ y. refl) e in
      (
        sorted out,
        ap sorted_if e,
        λ x. subst (λ b. (b ≡ true) ↔ Reached x) (sym (mem-sorted x out)) (finds x),
      )

-- The searches for ancestors and for descendants end on the fuel that they are given, whatever
-- cycles the graph has, and return exactly the names that a walk of at least one edge, and at most
-- `max_depth`, leads to; a depth of 0 finds the direct neighbours as a depth of 1 does.
pub ancestors-Finds :
    (g : InheritanceGraph) (symbol : String) (max_depth : ℕ)
    → Finds g.bases_index max_depth symbol (ancestors_of symbol max_depth g)
      × Finds g.subs_index max_depth symbol (descendants_of symbol max_depth g)
unfolding ancestors_of descendants_of
ancestors-Finds g symbol max_depth = (
  search_from-Finds g.bases_index max_depth symbol,
  search_from-Finds g.subs_index max_depth symbol,
)

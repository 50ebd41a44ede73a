-- ===== src/Graph/Inheritance/Levels.antt =====
-- The search goes level by level: it meets each name at the length of a shortest walk.
use omnicode_mcp.Prelude.{
  ℕ, suc, ◌+◌, ◌≤◌, ◌<◌, ◌≡◌, refl, sym, subst, ◌∙◌, ◌⊎◌, inl, inr, String, true, false, not,
  Bool-cases, max, List, [], ◌∷◌, ◌++◌, keep, arith, ltb,
}
use omnicode_mcp.Prelude.Eq.{◌==◌, string_eq, eq_of_beq, beq_refl}
use omnicode_mcp.Prelude.Names.{mem, mem-keep}
use omnicode_mcp.Graph.Impact.{Adjacency, next_to}
use omnicode_mcp.Graph.Impact.Search.{Walk, onward}
use omnicode_mcp.Graph.Inheritance.{Queue, queue_up, expand}
use omnicode_mcp.Graph.Inheritance.Queued.{
  Has, Has-append_left, Has-append_right, Has-append_cases, Between, Between-widen, Between-append,
  Has-queue_up, queued_name,
}

-- The entry stands in the queue.
module _ (adjacency : Adjacency) (max_depth : ℕ) where
  module _ (start : String) where
    -- The name is met or queued, no deeper than that.
    abbrev pub Met : Queue → Queue → String → ℕ → Type 0
    Met marks queue x d = (e : ℕ) × (e ≤ d) × (Has marks x e ⊎ Has queue x e)

    -- A walk of that length, in the bounds of the search.
    abbrev pub Walked : String → ℕ → Type 0
    Walked x d = Walk adjacency start x d × (1 ≤ d) × (d ≤ max max_depth 1)

    -- What holds in each round; `marks` has the seen names with their depths.
    pub record InOrder (level : ℕ) (seen : List String) (marks queue : Queue) : Type 0 where
      pub marked : (x : String) → mem x seen ≡ true → (d : ℕ) × Has marks x d
      pub seen_all : (x : String) (d : ℕ) → Has marks x d → mem x seen ≡ true
      pub marks_le : (x : String) (d : ℕ) → Has marks x d → d ≤ level
      pub in_levels : Between level (level + 1) queue
      pub marks_walked : (x : String) (d : ℕ) → Has marks x d → Walked x d
      pub queue_walked : (x : String) (d : ℕ) → Has queue x d → Walked x d
      pub first : (x : String) → mem x (next_to adjacency start) ≡ true → Met marks queue x 1
      pub closed :
          (z x : String) (d : ℕ)
          → Has marks z d
          → d < max_depth
          → mem x (next_to adjacency z) ≡ true
          → Met marks queue x (d + 1)

    module _ (level : ℕ) (seen : List String) (marks : Queue) (node : String) (depth : ℕ)
        (queue : Queue) (h : InOrder level seen marks ((node, depth) ∷ queue)) where
      above : level ≤ depth
      above = h.in_levels.0

      rest_levels : Between depth (depth + 1) queue
      rest_levels =
          Between-widen depth (level + 1) (depth + 1) queue (omega (arith, above)) h.in_levels.2

      -- The node was seen before: its entry says nothing new.
      drop_entry :
          mem node seen ≡ true
          → (x : String) (d : ℕ) → Met marks ((node, depth) ∷ queue) x d
          → Met marks queue x d
      drop_entry old x d (e, l, inl mark) = (e, l, inl mark)
      drop_entry old x d (e, l, inr (inr later)) = (e, l, inr later)
      drop_entry old x d (e, l, inr (inl (same, at))) =
          let (d', mark) = h.marked node old in
          (
            d',
            omega (arith, l, at, above, h.marks_le node d' mark),
            inl (subst (λ k. Has marks k d') same mark),
          )

      pub InOrder-old : mem node seen ≡ true → InOrder depth seen marks queue
      InOrder-old old = record {
        marked = h.marked;
        seen_all = h.seen_all;
        marks_le = λ x d m. omega (arith, above, h.marks_le x d m);
        in_levels = rest_levels;
        marks_walked = h.marks_walked;
        queue_walked = λ x d q. h.queue_walked x d (inr q);
        first = λ x e. drop_entry old x 1 (h.first x e);
        closed = λ z x d m l e. drop_entry old x (d + 1) (h.closed z x d m l e);
      }

      abbrev seen' : List String
      seen' = node ∷ seen

      abbrev marks' : Queue
      marks' = (node, depth) ∷ marks

      abbrev queue' : Queue
      queue' = queue ++ expand adjacency max_depth node depth seen'

      take_entry :
          (x : String) (d : ℕ) → Met marks ((node, depth) ∷ queue) x d → Met marks' queue' x d
      take_entry x d (e, l, inl mark) = (e, l, inl (inr mark))
      take_entry x d (e, l, inr (inl here)) = (e, l, inl (inl here))
      take_entry x d (e, l, inr (inr later)) = (e, l, inr (Has-append_left queue _ x e later))

      marked' : (x : String) → mem x seen' ≡ true → (d : ℕ) × Has marks' x d
      marked' x e = elim (Bool-cases (node == x)) [
        | inl same ↦ (depth, inl (eq_of_beq node x same, refl))
        | inr other ↦ let (d, m) = h.marked x (rw other at e) in (d, inr m)
      ]

      marks_le' : (x : String) (d : ℕ) → Has marks' x d → d ≤ depth
      marks_le' x d (inl (same, at)) = omega (arith, at)
      marks_le' x d (inr m) = omega (arith, above, h.marks_le x d m)

      abbrev unseen : List String
      unseen = keep (λ name. not (mem name seen')) (next_to adjacency node)

      expand_more :
          ltb depth max_depth ≡ true
          → expand adjacency max_depth node depth seen'
            ≡ queue_up adjacency max_depth (depth + 1) unseen
      unfolding expand
      expand_more l = rw l refl

      expand_none : ltb depth max_depth ≡ false → expand adjacency max_depth node depth seen' ≡ []
      unfolding expand
      expand_none l = rw l refl

      expanded :
          (x : String)
          → depth < max_depth
          → mem x (next_to adjacency node) ≡ true
          → Met marks' queue' x (depth + 1)
      expanded x l e = elim (Bool-cases (mem x seen')) [
        | inl old ↦ let (d, m) = marked' x old in (d, omega (arith, marks_le' x d m), inl m)
        | inr fresh ↦
            let there : mem x unseen ≡ true =
              mem-keep (λ name. not (mem name seen')) x (next_to adjacency node)
              ∙ rw (e, fresh) refl in
            (
              depth + 1,
              omega arith,
              inr (
                  Has-append_right queue _ x (depth + 1) (
                    rw (expand_more (ground (arith, l)))
                      (Has-queue_up adjacency max_depth (depth + 1) unseen x there))),
            )
      ]

      expand-Walked :
          (x : String) (d : ℕ) → Has (expand adjacency max_depth node depth seen') x d → Walked x d
      expand-Walked x d q = elim (Bool-cases (ltb depth max_depth)) [
        | inr no_more ↦ absurd (subst (λ k. Has k x d) (expand_none no_more) q)
        | inl more ↦
            let (there, at) =
              queued_name adjacency max_depth (depth + 1) unseen x d
                (subst (λ k. Has k x d) (expand_more more) q) in
            let edge : mem x (next_to adjacency node) ≡ true =
              ground (
                arith,
                there,
                mem-keep (λ name. not (mem name seen')) x (next_to adjacency node),
              ) in
            let (walk, low, high) = h.queue_walked node depth (inl (refl, refl)) in
            let longer : suc depth ≡ d = omega (arith, at) in
            (
              subst (λ n. Walk adjacency start x n) longer (onward node x depth walk edge),
              omega (arith, at),
              ground (arith, more, at),
            )
      ]

      expand_levels : Between depth (depth + 1) queue'
      expand_levels = elim (Bool-cases (ltb depth max_depth)) [
        | inl more ↦ rw (expand_more more) (
            Between-append adjacency max_depth depth (depth + 1) queue unseen (omega arith)
              rest_levels)
        | inr no_more ↦ rw (expand_none no_more) (
            Between-append adjacency max_depth depth (depth + 1) queue [] (omega arith) rest_levels)
      ]

      closed' :
          (z x : String) (d : ℕ)
          → Has marks' z d
          → d < max_depth
          → mem x (next_to adjacency z) ≡ true
          → Met marks' queue' x (d + 1)
      closed' z x d (inr m) l e = take_entry x (d + 1) (h.closed z x d m l e)
      closed' z x d (inl (same, at)) l e =
          subst (λ n. Met marks' queue' x (n + 1)) at
            (expanded x (omega (arith, l, at))
              (subst (λ k. mem x (next_to adjacency k) ≡ true) (sym same) e))

      queue-Walked' : (x : String) (d : ℕ) → Has queue' x d → Walked x d
      queue-Walked' x d q = elim (Has-append_cases queue _ x d q) [
        | inl before ↦ h.queue_walked x d (inr before)
        | inr new ↦ expand-Walked x d new
      ]

      marks-Walked' : (x : String) (d : ℕ) → Has marks' x d → Walked x d
      marks-Walked' x d (inl here) = h.queue_walked x d (inl here)
      marks-Walked' x d (inr m) = h.marks_walked x d m

      seen_all' : (x : String) (d : ℕ) → Has marks' x d → mem x seen' ≡ true
      seen_all' x d (inl (same, at)) =
          subst (λ k. mem k seen' ≡ true) same (rw (beq_refl node) refl)
      seen_all' x d (inr m) = ground (arith, h.seen_all x d m)

      pub InOrder-fresh : InOrder depth seen' marks' queue'
      InOrder-fresh = record {
        marked = marked';
        seen_all = seen_all';
        marks_le = marks_le';
        in_levels = expand_levels;
        marks_walked = marks-Walked';
        queue_walked = queue-Walked';
        first = λ x e. take_entry x 1 (h.first x e);
        closed = closed';
      }

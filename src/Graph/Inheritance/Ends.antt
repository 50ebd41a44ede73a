-- ===== src/Graph/Inheritance/Ends.antt =====
-- The search ends: each round takes an entry off the queue, and each node queues its neighbours once.
use omnicode_mcp.Prelude.{
  ℕ, zero, suc, ◌+◌, ◌≤◌, ◌≡◌, refl, sym, ap, inl, inr, String, Bool, true, false, not, Bool-cases,
  if_either, subst, some, List, [], ◌∷◌, ◌++◌, keep, map, arith, ltb, length, length-append,
  if◌then◌else◌,
}
use omnicode_mcp.Prelude.Eq.{◌==◌, string_eq, eq_of_beq}
use omnicode_mcp.Prelude.Dict.{get}
use omnicode_mcp.Prelude.Names.{mem}
use omnicode_mcp.Graph.Impact.{Adjacency, next_to}
use omnicode_mcp.Graph.Inheritance.{Queue, expand, search_loop, total_edges}

-- The neighbours of the nodes that are not seen yet.
pub waiting : List String → Adjacency → ℕ
waiting seen [] = 0
waiting seen ((node, names) ∷ adjacency) =
    (if mem node seen then 0 else length names) + waiting seen adjacency

pub waiting-total : (adjacency : Adjacency) → waiting [] adjacency ≡ total_edges adjacency
unfolding waiting total_edges
waiting-total [] = refl
waiting-total ((node, names) ∷ adjacency) = ap (λ n. length names + n) (waiting-total adjacency)

waiting_less :
    (node : String) (seen : List String) (adjacency : Adjacency)
    → waiting (node ∷ seen) adjacency ≤ waiting seen adjacency
unfolding waiting
waiting_less node seen [] = omega arith
waiting_less node seen ((n, names) ∷ adjacency) = ground (arith, waiting_less node seen adjacency)

-- A node that is seen for the first time takes its neighbours out of the count.
waiting_falls :
    (node : String) (seen : List String) (adjacency : Adjacency)
    → mem node seen ≡ false
    → length (next_to adjacency node) + waiting (node ∷ seen) adjacency ≤ waiting seen adjacency
unfolding waiting get
waiting_falls node seen [] fresh = omega arith
waiting_falls node seen ((n, names) ∷ adjacency) fresh = elim (Bool-cases (n == node)) [
  | inl same ↦
      let back : (node == n) ≡ true =
        ground (arith, string_eq.same_iff n node, string_eq.same_iff node n, same) in
      let unseen : mem n seen ≡ false =
        subst (λ k. mem k seen ≡ false) (sym (eq_of_beq n node same)) fresh in
      rw (get, same, back, unseen) (omega (arith, waiting_less node seen adjacency))
  | inr other ↦
      let back : (node == n) ≡ false =
        ground (arith, string_eq.same_iff n node, string_eq.same_iff node n, other) in
      rw (get, other, back) (ground (arith, waiting_falls node seen adjacency fresh))
]

pub length-map {ℓ κ} :
    {A : Type ℓ} {B : Type κ} (f : A → B) (xs : List A) → length (map f xs) ≡ length xs
length-map f [] = refl
length-map f (x ∷ xs) = ap suc (length-map f xs)

length-keep-le : (p : String → Bool) (xs : List String) → length (keep p xs) ≤ length xs
unfolding keep
length-keep-le p [] = omega arith
length-keep-le p (x ∷ xs) = ground (arith, length-keep-le p xs)

module _ (adjacency : Adjacency) (max_depth : ℕ) where
  length-expand-le :
      (node : String) (depth : ℕ) (seen : List String)
      → length (expand adjacency max_depth node depth seen) ≤ length (next_to adjacency node)
  unfolding expand
  length-expand-le node depth seen =
      if_either (λ (q : Queue). length q ≤ length (next_to adjacency node)) (ltb depth max_depth) _
        _
        (omega (
          arith,
          length-map {B = String × ℕ} (λ (name : String). (name, depth + 1))
              (keep (λ name. not (mem name seen)) (next_to adjacency node)),
          length-keep-le (λ name. not (mem name seen)) (next_to adjacency node),
        ))
        (omega arith)

  pub search_loop_ends :
      (fuel : ℕ) (seen out : List String) (queue : Queue)
      → length queue + waiting seen adjacency ≤ fuel
      → (found : List String) × (search_loop adjacency max_depth fuel seen out queue ≡ some found)
  unfolding search_loop
  search_loop_ends fuel seen out [] enough = (out, refl)
  search_loop_ends zero seen out ((node, depth) ∷ queue) enough = absurd (omega (arith, enough))
  search_loop_ends (suc fuel) seen out ((node, depth) ∷ queue) enough =
      elim (Bool-cases (mem node seen)) [
        | inl old ↦
            rw (search_loop, old) (search_loop_ends fuel seen out queue (omega (arith, enough)))
        | inr fresh ↦
            rw (search_loop, fresh)
              (search_loop_ends fuel (node ∷ seen) (out ++ node ∷ [])
                (queue ++ expand adjacency max_depth node depth (node ∷ seen))
                (omega (
                  arith,
                  enough,
                  waiting_falls node seen adjacency fresh,
                  length-append queue (expand adjacency max_depth node depth (node ∷ seen)),
                  length-expand-le node depth (node ∷ seen),
                )))
      ]

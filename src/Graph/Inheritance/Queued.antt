-- ===== src/Graph/Inheritance/Queued.antt =====
-- The entries of the queue of a search, by name and depth.
use omnicode_mcp.Prelude.{
  ℕ, ◌≤◌, ◌≡◌, refl, subst, ◌⊎◌, inl, inr, String, true, Bool-cases, List, [], ◌∷◌, ◌++◌, arith,
}
use omnicode_mcp.Prelude.Eq.{◌==◌, string_eq, eq_of_beq, beq_refl}
use omnicode_mcp.Prelude.Names.{mem}
use omnicode_mcp.Graph.Impact.{Adjacency}
use omnicode_mcp.Graph.Inheritance.{Queue, queue_up}

abbrev pub Has : Queue → String → ℕ → Type 0
Has [] x d = ⊥
Has ((y, e) ∷ queue) x d = ((y ≡ x) × (e ≡ d)) ⊎ Has queue x d

pub Has-append_left : (a b : Queue) (x : String) (d : ℕ) → Has a x d → Has (a ++ b) x d
Has-append_left ((y, e) ∷ a) b x d (inl h) = inl h
Has-append_left ((y, e) ∷ a) b x d (inr h) = inr (Has-append_left a b x d h)
Has-append_left [] b x d h = absurd h

pub Has-append_right : (a b : Queue) (x : String) (d : ℕ) → Has b x d → Has (a ++ b) x d
Has-append_right [] b x d h = h
Has-append_right ((y, e) ∷ a) b x d h = inr (Has-append_right a b x d h)

pub Has-append_cases : (a b : Queue) (x : String) (d : ℕ) → Has (a ++ b) x d → Has a x d ⊎ Has b x d
Has-append_cases [] b x d h = inr h
Has-append_cases ((y, e) ∷ a) b x d (inl h) = inl (inl h)
Has-append_cases ((y, e) ∷ a) b x d (inr h) = elim (Has-append_cases a b x d h) [
  | inl left ↦ inl (inr left)
  | inr right ↦ inr right
]

-- The depths do not fall along the queue, and lie between two bounds.
abbrev pub Between : ℕ → ℕ → Queue → Type 0
Between low high [] = Unit
Between low high ((y, e) ∷ queue) = (low ≤ e) × (e ≤ high) × Between e high queue

pub Between-widen :
    (low high high' : ℕ) (queue : Queue)
    → high ≤ high'
    → Between low high queue
    → Between low high' queue
Between-widen low high high' [] l h = tt
Between-widen low high high' ((y, e) ∷ queue) l (a, b, h) =
    (a, omega (arith, l, b), Between-widen e high high' queue l h)

module _ (adjacency : Adjacency) (max_depth : ℕ) where
  pub queue_up-Between :
      (low depth : ℕ) (names : List String)
      → low ≤ depth
      → Between low depth (queue_up adjacency max_depth depth names)
  queue_up-Between low depth [] l = tt
  queue_up-Between low depth (n ∷ names) l =
      (l, omega arith, queue_up-Between depth depth names (omega arith))

  pub Between-append :
      (low depth : ℕ) (queue : Queue) (names : List String)
      → low ≤ depth
      → Between low depth queue
      → Between low depth (queue ++ queue_up adjacency max_depth depth names)
  Between-append low depth [] names l h = queue_up-Between low depth names l
  Between-append low depth ((y, e) ∷ queue) names l (a, b, h) =
      (a, b, Between-append e depth queue names b h)

  pub Has-queue_up :
      (depth : ℕ) (names : List String) (x : String)
      → mem x names ≡ true
      → Has (queue_up adjacency max_depth depth names) x depth
  Has-queue_up depth [] x h = cc
  Has-queue_up depth (n ∷ names) x h = elim (Bool-cases (n == x)) [
    | inl same ↦ inl (eq_of_beq n x same, refl)
    | inr other ↦ inr (Has-queue_up depth names x (rw other at h))
  ]

  pub queued_name :
      (depth : ℕ) (names : List String) (x : String) (e : ℕ)
      → Has (queue_up adjacency max_depth depth names) x e
      → (mem x names ≡ true) × (depth ≡ e)
  queued_name depth [] x e h = absurd h
  queued_name depth (n ∷ names) x e (inl (same, at)) =
      (subst (λ k. mem k (n ∷ names) ≡ true) same (rw (beq_refl n) refl), at)
  queued_name depth (n ∷ names) x e (inr h) =
      let (there, at) = queued_name depth names x e h in (ground (arith, there), at)

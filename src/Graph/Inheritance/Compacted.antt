-- ===== src/Graph/Inheritance/Compacted.antt =====
-- The edges that a removal keeps, and the numbers that they get.
use omnicode_mcp.Prelude.{
  ℕ, suc, ◌<◌, ◌≡◌, refl, sym, ap, subst, ◌∙◌, inl, inr, String, Bool, true, false, not, Bool-cases,
  Option, some, List, [], ◌∷◌, ◌++◌, keep, map, arith, length, if◌then◌else◌,
}
use omnicode_mcp.Prelude.Eq.{◌==◌, string_eq, nat_eq, beq_false}
use omnicode_mcp.Prelude.Dict.{Dict, get, get-put, get-put_self}
use omnicode_mcp.Prelude.Keep.{append_nil, snoc_append}
use omnicode_mcp.Graph.Inheritance.{InheritanceEdge}
use omnicode_mcp.Graph.Inheritance.Removal.{clear_at, keep_mask, Compacted, keep_edge, compact}
use omnicode_mcp.Graph.Inheritance.Filed.{file_of, is_file, positions}
use omnicode_mcp.Graph.Inheritance.Renumbered.{is_other, IsNumbered}

clear_at-append :
    (before mask : List Bool) (kept : Bool)
    → clear_at (length before) (before ++ kept ∷ mask) ≡ before ++ false ∷ mask
unfolding clear_at
clear_at-append [] mask kept = refl
clear_at-append (b ∷ before) mask kept = ap (◌∷◌ b) (clear_at-append before mask kept)

pub length-snoc {ℓ} : {A : Type ℓ} (xs : List A) (x : A) → length (xs ++ x ∷ []) ≡ suc (length xs)
length-snoc [] x = refl
length-snoc (y ∷ xs) x = ap suc (length-snoc xs x)

abbrev pub file : (String → String) → InheritanceEdge → Option String
file abspath edge = file_of abspath edge.file_path

module _ (abspath : String → String) (k : String) where
  abbrev pub stays : InheritanceEdge → Bool
  stays edge = is_other k (file abspath edge)

  mask_from :
      (before : List Bool) (n : ℕ) (edges : List InheritanceEdge)
      → length before ≡ n
      → keep_mask (positions k n (map (file abspath) edges)) (before ++ map (λ edge. true) edges)
        ≡ before ++ map stays edges
  unfolding keep_mask positions
  mask_from before n [] e = refl
  mask_from before n (edge ∷ edges) e =
      let longer : (b : Bool) → length (before ++ b ∷ []) ≡ suc n =
        λ b. length-snoc before b ∙ ap suc e in
      elim (Bool-cases (is_file k (file abspath edge))) [
        | inl same ↦
            let cleared =
              subst
                (λ i.
                  clear_at i (before ++ true ∷ map (λ e. true) edges)
                  ≡ before ++ false ∷ map (λ e. true) edges)
                e (clear_at-append before (map (λ e. true) edges) true) in
            rw same (
              ap (keep_mask (positions k (suc n) (map (file abspath) edges)))
                (cleared ∙ sym (snoc_append before false (map (λ e. true) edges)))
              ∙ mask_from (before ++ false ∷ []) (suc n) edges (longer false)
              ∙ snoc_append before false (map stays edges))
        | inr other ↦ rw other (
            ap (keep_mask (positions k (suc n) (map (file abspath) edges)))
              (sym (snoc_append before true (map (λ e. true) edges)))
            ∙ mask_from (before ++ true ∷ []) (suc n) edges (longer true)
            ∙ snoc_append before true (map stays edges))
      ]

  pub kept_edges-compact :
      (n : ℕ) (edges : List InheritanceEdge) (c : Compacted)
      → (compact n edges (map stays edges) c).kept_edges ≡ c.kept_edges ++ keep stays edges
  unfolding compact keep
  kept_edges-compact n [] c = sym (append_nil c.kept_edges)
  kept_edges-compact n (edge ∷ edges) c =
      kept_edges-compact (suc n) edges (keep_edge (stays edge) n edge c)
      ∙ elim (Bool-cases (is_file k (file abspath edge))) [
        | inl same ↦ rw same refl
        | inr other ↦ rw other (snoc_append c.kept_edges edge (keep stays edges))
      ]

  get-keep_edge :
      (kept : Bool) (n i : ℕ) (edge : InheritanceEdge) (c : Compacted)
      → i < n
      → get (keep_edge kept n edge c).old_to_new i ≡ get c.old_to_new i
  get-keep_edge false n i edge c l = refl
  get-keep_edge true n i edge c l =
      let apart : (n == i) ≡ false = beq_false n i (λ p. omega (arith, l, p)) in
      get-put c.old_to_new n i (length c.kept_edges) ∙ rw apart refl

  -- The numbers that are given later leave the earlier ones.
  get-compact :
      (n i : ℕ) (edges : List InheritanceEdge) (mask : List Bool) (c : Compacted)
      → i < n
      → get (compact n edges mask c).old_to_new i ≡ get c.old_to_new i
  unfolding compact
  get-compact n i [] mask c l = refl
  get-compact n i (edge ∷ edges) [] c l = refl
  get-compact n i (edge ∷ edges) (kept ∷ mask) c l =
      get-compact (suc n) i edges mask (keep_edge kept n edge c) (omega (arith, l))
      ∙ get-keep_edge kept n i edge c l

  number_one :
      (gone : Bool) (n : ℕ) (edge : InheritanceEdge) (c : Compacted) (files : List (Option String))
      (m : Dict ℕ ℕ)
      → get m n ≡ get (keep_edge (not gone) n edge c).old_to_new n
      → IsNumbered k m (suc n) (length (keep_edge (not gone) n edge c).kept_edges) files
      → if gone
        then IsNumbered k m (suc n) (length c.kept_edges) files
        else (get m n ≡ some (length c.kept_edges))
          × IsNumbered k m (suc n) (suc (length c.kept_edges)) files
  number_one true n edge c files m e h = h
  number_one false n edge c files m e h = (
    e ∙ get-put_self c.old_to_new n (length c.kept_edges),
    subst (λ j. IsNumbered k m (suc n) j files) (length-snoc c.kept_edges edge) h,
  )

  pub compact-IsNumbered :
      (n : ℕ) (edges : List InheritanceEdge) (c : Compacted)
      → IsNumbered k
          (compact n edges (map stays edges) c).old_to_new
          n
          (length c.kept_edges)
          (map (file abspath) edges)
  unfolding compact
  compact-IsNumbered n [] c = tt
  compact-IsNumbered n (edge ∷ edges) c =
      let next = keep_edge (stays edge) n edge c in
      number_one (is_file k (file abspath edge)) n edge c (map (file abspath) edges)
        (compact (suc n) edges (map stays edges) next).old_to_new
        (get-compact (suc n) n edges (map stays edges) next (omega arith))
        (compact-IsNumbered (suc n) edges next)

  pub keep_mask-positions :
      (edges : List InheritanceEdge)
      → keep_mask (positions k 0 (map (file abspath) edges)) (map (λ edge. true) edges)
        ≡ map stays edges
  keep_mask-positions edges = mask_from [] 0 edges refl

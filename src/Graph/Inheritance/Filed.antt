-- ===== src/Graph/Inheritance/Filed.antt =====
-- The table from files to the numbers of their edges, as `add_edge` fills it.
use omnicode_mcp.Prelude.{
  ℕ, suc, ◌≡◌, refl, sym, ap, ◌∙◌, inl, inr, String, Bool, false, Bool-cases, Option, none, some,
  List, [], ◌∷◌, ◌++◌, if◌then◌else◌,
}
use omnicode_mcp.Prelude.Eq.{◌==◌, string_eq, nat_eq, eq_of_beq}
use omnicode_mcp.Prelude.Dict.{Dict, get, put, get-put}
use omnicode_mcp.Prelude.Text.{is_empty}
use omnicode_mcp.Prelude.Keep.{append_nil, snoc_append}
use omnicode_mcp.Graph.Inheritance.{numbers_of, file_edge}

abbrev pub Numbers : Type 0
Numbers = Dict String (List ℕ)

-- The absolute path of the file of an edge that names one.
abbrev pub file_of : (String → String) → Option String → Option String
file_of abspath none = none
file_of abspath (some path) = if is_empty path then none else some (abspath path)

abbrev pub is_file : String → Option String → Bool
is_file k none = false
is_file k (some file) = file == k

abbrev pub file_number : Option String → ℕ → Numbers → Numbers
file_number none n d = d
file_number (some file) n d = put d file (numbers_of (get d file) ++ n ∷ [])

pub file_edge-file_of :
    (abspath : String → String) (path : Option String) (n : ℕ) (d : Numbers)
    → file_edge abspath path n d ≡ file_number (file_of abspath path) n d
file_edge-file_of abspath none n d = refl
file_edge-file_of abspath (some path) n d = elim (Bool-cases (is_empty path)) [
  | inl none_there ↦ rw none_there refl
  | inr there ↦ rw there refl
]

-- The table behind the edges of some files, numbered from n.
unfoldable pub group : ℕ → List (Option String) → Numbers → Numbers
group n [] d = d
group n (file ∷ files) d = group (suc n) files (file_number file n d)

module _ (k : String) where
  -- The numbers of the edges of the file k.
  unfoldable pub positions : ℕ → List (Option String) → List ℕ
  positions n [] = []
  positions n (file ∷ files) =
      let rest = positions (suc n) files in if is_file k file then n ∷ rest else rest

  numbers-file_number :
      (file : Option String) (n : ℕ) (d : Numbers)
      → numbers_of (get (file_number file n d) k)
        ≡ numbers_of (get d k) ++ (if is_file k file then n ∷ [] else [])
  numbers-file_number none n d = sym (append_nil (numbers_of (get d k)))
  numbers-file_number (some file) n d = elim (Bool-cases (file == k)) [
    | inl same ↦
        rw (get-put d file k (numbers_of (get d file) ++ n ∷ []), same)
          (ap (λ x. numbers_of (get d x) ++ n ∷ []) (eq_of_beq file k same))
    | inr other ↦
        rw (get-put d file k (numbers_of (get d file) ++ n ∷ []), other)
          (sym (append_nil (numbers_of (get d k))))
  ]

  pub numbers-group :
      (n : ℕ) (files : List (Option String)) (d : Numbers)
      → numbers_of (get (group n files d) k) ≡ numbers_of (get d k) ++ positions n files
  unfolding group positions
  numbers-group n [] d = sym (append_nil (numbers_of (get d k)))
  numbers-group n (file ∷ files) d =
      numbers-group (suc n) files (file_number file n d)
      ∙ rw (numbers-file_number file n d) (elim (Bool-cases (is_file k file)) [
        | inl same ↦ rw same (snoc_append (numbers_of (get d k)) n (positions (suc n) files))
        | inr other ↦
            rw other (ap (◌++ positions (suc n) files) (append_nil (numbers_of (get d k))))
      ])

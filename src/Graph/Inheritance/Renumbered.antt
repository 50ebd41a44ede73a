-- ===== src/Graph/Inheritance/Renumbered.antt =====
-- The table from files to edges behind a removal: the numbers of the other files are translated.
use omnicode_mcp.Prelude.{
  ℕ, suc, ◌≡◌, refl, sym, ap, subst, ◌∙◌, inl, inr, String, Bool, true, false, not, Bool-cases,
  Option, none, some, List, [], ◌∷◌, ◌++◌, keep, All, if◌then◌else◌,
}
use omnicode_mcp.Prelude.Eq.{◌==◌, string_eq, nat_eq, eq_of_beq, beq_false, ne_of_beq}
use omnicode_mcp.Prelude.Dict.{Dict, get, put, pop, get-pop, pop-put_same, pop-put_other}
use omnicode_mcp.Graph.Inheritance.{numbers_of}
use omnicode_mcp.Graph.Inheritance.Removal.{renumbered, translate, file_translated, translate_files}
use omnicode_mcp.Graph.Inheritance.Filed.{Numbers, is_file, file_number, group}

abbrev pub Filled : List ℕ → Type 0
Filled [] = false ≡ true
Filled (i ∷ idxs) = Unit {0}

Filled-snoc : (idxs : List ℕ) (i : ℕ) → Filled (idxs ++ i ∷ [])
Filled-snoc [] i = tt
Filled-snoc (j ∷ idxs) i = tt

renumbered-append :
    (found : Option ℕ) (xs ys : List ℕ) → renumbered found (xs ++ ys) ≡ renumbered found xs ++ ys
renumbered-append none xs ys = refl
renumbered-append (some j) xs ys = refl

module _ (k : String) where
  abbrev pub is_other : Option String → Bool
  is_other file = not (is_file k file)

  pub file_number-same :
      (d : Numbers) (file : String) (n : ℕ)
      → (file == k) ≡ true
      → pop (file_number (some file) n d) k ≡ pop d k
  file_number-same d file n same =
      subst (λ f. pop (file_number (some file) n d) f ≡ pop d f) (eq_of_beq file k same)
        (pop-put_same d file (numbers_of (get d file) ++ n ∷ []))

  numbers-pop :
      (d : Numbers) (file : String)
      → (file == k) ≡ false
      → numbers_of (get (pop d k) file) ≡ numbers_of (get d file)
  numbers-pop d file other =
      let apart : (k == file) ≡ false = beq_false k file (λ p. ne_of_beq file k other (sym p)) in
      ap numbers_of {y = get d file} (get-pop d k file ∙ rw apart refl)

  pub file_number-pop :
      (d : Numbers) (file : String) (n : ℕ)
      → (file == k) ≡ false
      → pop (file_number (some file) n d) k ≡ file_number (some file) n (pop d k)
  file_number-pop d file n other =
      pop-put_other d file k (numbers_of (get d file) ++ n ∷ []) other
      ∙ ap (λ idxs. put (pop d k) file (idxs ++ n ∷ [])) (sym (numbers-pop d file other))

  module _ (old_to_new : Dict ℕ ℕ) where
    -- The edges of the other files, from number n, have the new numbers from j.
    abbrev pub IsNumbered : ℕ → ℕ → List (Option String) → Type 0
    IsNumbered n j [] = Unit
    IsNumbered n j (file ∷ files) =
        if is_file k file
        then IsNumbered (suc n) j files
        else (get old_to_new n ≡ some j) × IsNumbered (suc n) (suc j) files

    abbrev retarget : Numbers → Numbers
    retarget [] = []
    retarget ((file, idxs) ∷ d) = (file, translate old_to_new idxs) ∷ retarget d

    translate-append :
        (xs ys : List ℕ)
        → translate old_to_new (xs ++ ys) ≡ translate old_to_new xs ++ translate old_to_new ys
    unfolding translate
    translate-append [] ys = refl
    translate-append (x ∷ xs) ys =
        ap (renumbered (get old_to_new x)) (translate-append xs ys)
        ∙ renumbered-append (get old_to_new x) (translate old_to_new xs) (translate old_to_new ys)

    translate-snoc :
        (xs : List ℕ) (n j : ℕ)
        → get old_to_new n ≡ some j
        → translate old_to_new (xs ++ n ∷ []) ≡ translate old_to_new xs ++ j ∷ []
    unfolding translate
    translate-snoc xs n j e = translate-append xs (n ∷ []) ∙ rw e refl

    get-retarget :
        (d : Numbers) (file : String)
        → numbers_of (get (retarget d) file) ≡ translate old_to_new (numbers_of (get d file))
    unfolding get translate
    get-retarget [] file = refl
    get-retarget ((f, idxs) ∷ d) file = elim (Bool-cases (f == file)) [
      | inl same ↦ rw same refl
      | inr other ↦ rw other (get-retarget d file)
    ]

    retarget-put :
        (d : Numbers) (file : String) (idxs : List ℕ)
        → retarget (put d file idxs) ≡ put (retarget d) file (translate old_to_new idxs)
    unfolding put
    retarget-put [] file idxs = refl
    retarget-put ((f, xs) ∷ d) file idxs = elim (Bool-cases (f == file)) [
      | inl same ↦ rw same refl
      | inr other ↦ rw other (ap (◌∷◌ (f, translate old_to_new xs)) (retarget-put d file idxs))
    ]

    abbrev IsLive : Numbers → Type 0
    IsLive = All (λ e. Filled (translate old_to_new e.1))

    put-IsLive :
        (d : Numbers) (file : String) (idxs : List ℕ)
        → IsLive d
        → Filled (translate old_to_new idxs)
        → IsLive (put d file idxs)
    unfolding put
    put-IsLive [] file idxs h filled = (filled, tt)
    put-IsLive ((f, xs) ∷ d) file idxs h filled = elim (Bool-cases (f == file)) [
      | inl same ↦ rw same (filled, h.1)
      | inr other ↦ rw other (h.0, put-IsLive d file idxs h.1 filled)
    ]

    translate_files-IsLive : (d : Numbers) → IsLive d → translate_files old_to_new d ≡ retarget d
    unfolding translate_files
    translate_files-IsLive [] h = refl
    translate_files-IsLive ((file, idxs) ∷ d) h =
        ap (file_translated file (translate old_to_new idxs)) (translate_files-IsLive d h.1)
        ∙ not_empty (translate old_to_new idxs) h.0
      where
        not_empty :
            (xs : List ℕ)
            → Filled xs
            → file_translated file xs (retarget d) ≡ (file, xs) ∷ retarget d
        not_empty [] h = cc
        not_empty (x ∷ xs) h = refl

    translate-file_number :
        (d : Numbers) (file : String) (n j : ℕ)
        → get old_to_new n ≡ some j
        → retarget (file_number (some file) n d) ≡ file_number (some file) j (retarget d)
    translate-file_number d file n j e =
        retarget-put d file (numbers_of (get d file) ++ n ∷ [])
        ∙ ap (put (retarget d) file) (
            translate-snoc (numbers_of (get d file)) n j e
            ∙ ap (λ xs. xs ++ j ∷ []) (sym (get-retarget d file)))

    file_number-IsLive :
        (d : Numbers) (file : String) (n j : ℕ)
        → get old_to_new n ≡ some j
        → IsLive d
        → IsLive (file_number (some file) n d)
    file_number-IsLive d file n j e h = put-IsLive d file (numbers_of (get d file) ++ n ∷ []) h (
        subst Filled (sym (translate-snoc (numbers_of (get d file)) n j e))
          (Filled-snoc (translate old_to_new (numbers_of (get d file))) j))

    pub pop-group :
        (n j : ℕ) (files : List (Option String)) (d : Numbers)
        → IsNumbered n j files
        → retarget (pop (group n files d) k) ≡ group j (keep is_other files) (retarget (pop d k))
    unfolding group keep
    pop-group n j [] d h = refl
    pop-group n j (none ∷ files) d h = pop-group (suc n) (suc j) files d h.1
    pop-group n j (some file ∷ files) d h = elim (Bool-cases (file == k)) [
      | inl same ↦
          let here : IsNumbered (suc n) j files = rw same at h in
          rw same (
            pop-group (suc n) j files (file_number (some file) n d) here
            ∙ ap (λ x. group j (keep is_other files) (retarget x)) (file_number-same d file n same))
      | inr other ↦
          let here : (get old_to_new n ≡ some j) × IsNumbered (suc n) (suc j) files =
            rw other at h in
          rw other (
            pop-group (suc n) (suc j) files (file_number (some file) n d) here.1
            ∙ ap (group (suc j) (keep is_other files)) (
                ap retarget (file_number-pop d file n other)
                ∙ translate-file_number (pop d k) file n j here.0))
    ]

    group-IsLive :
        (n j : ℕ) (files : List (Option String)) (d : Numbers)
        → IsNumbered n j files
        → IsLive (pop d k)
        → IsLive (pop (group n files d) k)
    unfolding group
    group-IsLive n j [] d h live = live
    group-IsLive n j (none ∷ files) d h live = group-IsLive (suc n) (suc j) files d h.1 live
    group-IsLive n j (some file ∷ files) d h live = elim (Bool-cases (file == k)) [
      | inl same ↦
          group-IsLive (suc n) j files (file_number (some file) n d) (rw same at h)
            (subst IsLive (sym (file_number-same d file n same)) live)
      | inr other ↦
          let here : (get old_to_new n ≡ some j) × IsNumbered (suc n) (suc j) files =
            rw other at h in
          group-IsLive (suc n) (suc j) files (file_number (some file) n d) here.1 (
            subst IsLive (sym (file_number-pop d file n other))
              (file_number-IsLive (pop d k) file n j here.0 live))
    ]

    -- The table without the file k is the table behind the other edges.
    pub translate_files-group :
        (files : List (Option String))
        → IsNumbered 0 0 files
        → translate_files old_to_new (pop (group 0 files []) k) ≡ group 0 (keep is_other files) []
    unfolding pop
    translate_files-group files h =
        translate_files-IsLive (pop (group 0 files []) k) (group-IsLive 0 0 files [] h tt)
        ∙ pop-group 0 0 files [] h

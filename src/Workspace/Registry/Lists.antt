-- ===== src/Workspace/Registry/Lists.antt =====
-- Ids, paths and active entries of a list of workspaces, and what the loops do to them.
use omnicode_mcp.Prelude.{
  ℕ, ◌+◌, ◌≤◌, ◌≡◌, refl, ap, subst, inl, inr, String, Bool, true, false, not, ◌&&◌, Bool-cases,
  none, List, [], ◌∷◌, ◌++◌, keep, any, map, arith, if◌then◌else◌,
}
use omnicode_mcp.Prelude.Eq.{◌==◌, string_eq, eq_of_beq}
use omnicode_mcp.Prelude.Names.{mem, NoRepeat}
use omnicode_mcp.Workspace.Registry.{
  Workspace, first_with, activate, deactivate_all, activate_first, rename_first,
}

abbrev pub ids : List Workspace → List String
ids = map (λ (w : Workspace). w.id)

abbrev pub paths : List Workspace → List String
paths = map (λ (w : Workspace). w.path)

abbrev pub active_count : List Workspace → ℕ
active_count [] = 0
active_count (w ∷ items) = (if w.active then 1 else 0) + active_count items

pub ids-activate : (k : String) (items : List Workspace) → ids (activate k items) ≡ ids items
ids-activate k [] = refl
ids-activate k (w ∷ items) = ap (◌∷◌ w.id) (ids-activate k items)

pub paths-activate : (k : String) (items : List Workspace) → paths (activate k items) ≡ paths items
paths-activate k [] = refl
paths-activate k (w ∷ items) = ap (◌∷◌ w.path) (paths-activate k items)

pub ids-deactivate_all : (items : List Workspace) → ids (deactivate_all items) ≡ ids items
ids-deactivate_all [] = refl
ids-deactivate_all (w ∷ items) = ap (◌∷◌ w.id) (ids-deactivate_all items)

pub paths-deactivate_all : (items : List Workspace) → paths (deactivate_all items) ≡ paths items
paths-deactivate_all [] = refl
paths-deactivate_all (w ∷ items) = ap (◌∷◌ w.path) (paths-deactivate_all items)

pub count-deactivate_all : (items : List Workspace) → active_count (deactivate_all items) ≡ 0
count-deactivate_all [] = refl
count-deactivate_all (w ∷ items) = omega (arith, count-deactivate_all items)

-- Where ids are unique, activating one makes at most one active.
pub count-activate :
    (k : String) (items : List Workspace)
    → NoRepeat (ids items)
    → active_count (activate k items) ≤ (if mem k (ids items) then 1 else 0)
count-activate k [] once = omega arith
count-activate k (w ∷ items) once = elim (Bool-cases (w.id == k)) [
  | inl same ↦
      let absent = subst (λ n. mem n (ids items) ≡ false) (eq_of_beq w.id k same) once.0 in
      let rest = count-activate k items once.1 in rw same (ground (arith, absent, rest))
  | inr other ↦ let rest = count-activate k items once.1 in rw other (ground (arith, rest))
]

pub count-append : (a b : List Workspace) → active_count (a ++ b) ≡ active_count a + active_count b
count-append [] b = omega arith
count-append (w ∷ a) b = omega (arith, count-append a b)

pub count-keep-le :
    (p : Workspace → Bool) (items : List Workspace)
    → active_count (keep p items) ≤ active_count items
unfolding keep
count-keep-le p [] = omega arith
count-keep-le p (w ∷ items) = ground (arith, count-keep-le p items)

pub count_none :
    (items : List Workspace) → any (λ w. w.active) items ≡ false → active_count items ≡ 0
count_none [] h = refl
count_none (w ∷ items) h = ground (arith, h, count_none items)

module _ (f : Workspace → String) where
  mem-map-keep :
      (p : Workspace → Bool) (x : String) (items : List Workspace)
      → mem x (map f items) ≡ false
      → mem x (map f (keep p items)) ≡ false
  unfolding keep
  mem-map-keep p x [] h = h
  mem-map-keep p x (w ∷ items) h = ground (arith, h, mem-map-keep p x items)

  pub NoRepeat-map-keep :
      (p : Workspace → Bool) (items : List Workspace)
      → NoRepeat (map f items)
      → NoRepeat (map f (keep p items))
  unfolding keep
  NoRepeat-map-keep p [] h = tt
  NoRepeat-map-keep p (w ∷ items) h = elim (Bool-cases (p w)) [
    | inl holds ↦ rw holds (mem-map-keep p (f w) items h.0, NoRepeat-map-keep p items h.1)
    | inr fails ↦ rw fails (NoRepeat-map-keep p items h.1)
  ]

  -- A new entry whose name is not there.
  pub NoRepeat-map-snoc :
      (items : List Workspace) (w : Workspace)
      → NoRepeat (map f items)
      → mem (f w) (map f items) ≡ false
      → NoRepeat (map f (items ++ w ∷ []))
  NoRepeat-map-snoc [] w h absent = (refl, tt)
  NoRepeat-map-snoc (v ∷ items) w h absent =
      (snoc_absent v items h.0 absent, NoRepeat-map-snoc items w h.1 (ground (arith, absent)))
    where
      snoc_absent :
          (v : Workspace) (rest : List Workspace)
          → mem (f v) (map f rest) ≡ false
          → (if f v == f w then true else mem (f w) (map f items)) ≡ false
          → mem (f v) (map f (rest ++ w ∷ [])) ≡ false
      snoc_absent v [] h e =
          ground (arith, e, string_eq.same_iff (f w) (f v), string_eq.same_iff (f v) (f w))
      snoc_absent v (u ∷ rest) h e = ground (arith, h, snoc_absent v rest)

pub ids-rename_first :
    (k name : String) (items : List Workspace) → ids (rename_first k name items) ≡ ids items
unfolding rename_first
ids-rename_first k name [] = refl
ids-rename_first k name (w ∷ items) = elim (Bool-cases (w.id == k)) [
  | inl same ↦ rw same refl
  | inr other ↦ rw other (ap (◌∷◌ w.id) (ids-rename_first k name items))
]

pub paths-rename_first :
    (k name : String) (items : List Workspace) → paths (rename_first k name items) ≡ paths items
unfolding rename_first
paths-rename_first k name [] = refl
paths-rename_first k name (w ∷ items) = elim (Bool-cases (w.id == k)) [
  | inl same ↦ rw same refl
  | inr other ↦ rw other (ap (◌∷◌ w.path) (paths-rename_first k name items))
]

pub count-rename_first :
    (k name : String) (items : List Workspace)
    → active_count (rename_first k name items) ≡ active_count items
unfolding rename_first
count-rename_first k name [] = refl
count-rename_first k name (w ∷ items) = ground (arith, count-rename_first k name items)

pub path_absent :
    (path : String) (items : List Workspace)
    → first_with (λ w. w.path == path) items ≡ none
    → mem path (paths items) ≡ false
path_absent path [] h = refl
path_absent path (w ∷ items) h = ground (arith, h, path_absent path items)

pub id_absent :
    (k path : String) (items : List Workspace)
    → mem path (paths items) ≡ false
    → any (λ w. w.id == k && not (w.path == path)) items ≡ false
    → mem k (ids items) ≡ false
id_absent k path [] h free = refl
id_absent k path (w ∷ items) h free = ground (arith, h, free, id_absent k path items)

pub ids-activate_first : (items : List Workspace) → ids (activate_first items) ≡ ids items
ids-activate_first [] = refl
ids-activate_first (w ∷ items) = refl

pub paths-activate_first : (items : List Workspace) → paths (activate_first items) ≡ paths items
paths-activate_first [] = refl
paths-activate_first (w ∷ items) = refl

pub count-activate_first :
    (items : List Workspace)
    → any (λ w. w.active) items ≡ false
    → active_count (activate_first items) ≤ 1
count-activate_first [] h = omega arith
count-activate_first (w ∷ items) h = omega (arith, count_none (w ∷ items) h)

-- ===== src/Prelude/Filter.antt =====
-- Dictionaries whose entries are filtered, as by an SQL `DELETE ... WHERE`.
use mathlib.Core.Path.{◌≡◌, refl, ap, ap₂, ◌∙◌, subst}
use mathlib.Core.Logic.{inl, inr}
use mathlib.Core.Bool.{Bool, true, false}
use mathlib.Core.Option.{Option, none, some}
use mathlib.Core.List.{[], ◌∷◌}
use native.Mathlib.Omega.{arith}
use Prim.Native.String.{String}
use omnicode_mcp.Prelude.Tests.{Bool-cases}
use omnicode_mcp.Prelude.Lists.{keep}
use omnicode_mcp.Prelude.Eq.{◌==◌, string_eq, eq_of_beq}
use omnicode_mcp.Prelude.Dict.{Dict, get, keys}
use omnicode_mcp.Prelude.Names.{mem, NoRepeat}

module _ {ℓ} {V : Type ℓ} (p : String × V → Bool) where
  some_value : (a b : V) → some a ≡ some b → a ≡ b
  some_value a b e = ap (λ (o : Option V). elim o [ some x ↦ x | none ↦ a ]) e

  pub get-absent : (d : Dict String V) (k : String) → mem k (keys d) ≡ false → get d k ≡ none
  unfolding get
  get-absent [] k h = refl
  get-absent ((j, v) ∷ d) k h = ground (arith, h, get-absent d k)

  same_entry : (j k : String) (w v : V) → (j == k) ≡ true → some w ≡ some v → p (j, w) ≡ p (k, v)
  same_entry j k w v same e = ap₂ (λ a b. p (a, b)) (eq_of_beq j k same) (some_value w v e)

  -- An entry that passes the test is still found.
  pub get-keep-some :
      (d : Dict String V) (k : String) (v : V)
      → get d k ≡ some v
      → p (k, v) ≡ true
      → get (keep p d) k ≡ some v
  unfolding get keep
  get-keep-some [] k v h pass = h
  get-keep-some ((j, w) ∷ d) k v h pass = elim (Bool-cases (j == k)) [
    | inl same ↦ rw (same_entry j k w v same (rw same at h) ∙ pass, same) (rw same at h)
    | inr other ↦ elim (Bool-cases (p (j, w))) [
      | inl holds ↦ rw (holds, other) (get-keep-some d k v (rw other at h) pass)
      | inr fails ↦ rw fails (get-keep-some d k v (rw other at h) pass)
    ]
  ]

  pub get-keep-none : (d : Dict String V) (k : String) → get d k ≡ none → get (keep p d) k ≡ none
  unfolding get keep
  get-keep-none [] k h = h
  get-keep-none ((j, w) ∷ d) k h = elim (Bool-cases (j == k)) [
    | inl same ↦ cc (rw same at h)
    | inr other ↦ elim (Bool-cases (p (j, w))) [
      | inl holds ↦ rw (holds, other) (get-keep-none d k (rw other at h))
      | inr fails ↦ rw fails (get-keep-none d k (rw other at h))
    ]
  ]

  -- An entry that fails it is not, where each key stands once.
  pub get-keep_dropped :
      (d : Dict String V) (k : String) (v : V)
      → NoRepeat (keys d)
      → get d k ≡ some v
      → p (k, v) ≡ false
      → get (keep p d) k ≡ none
  unfolding get keep
  get-keep_dropped [] k v once h fail = cc
  get-keep_dropped ((j, w) ∷ d) k v once h fail = elim (Bool-cases (j == k)) [
    | inl same ↦ rw (same_entry j k w v same (rw same at h) ∙ fail) (
        get-keep-none d k
          (get-absent d k (subst (λ n. mem n (keys d) ≡ false) (eq_of_beq j k same) once.0)))
    | inr other ↦ elim (Bool-cases (p (j, w))) [
      | inl holds ↦ rw (holds, other) (get-keep_dropped d k v once.1 (rw other at h) fail)
      | inr fails ↦ rw fails (get-keep_dropped d k v once.1 (rw other at h) fail)
    ]
  ]

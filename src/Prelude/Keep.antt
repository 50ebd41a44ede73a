-- ===== src/Prelude/Keep.antt =====
-- Filtered lists, and the ends of appended ones.
use mathlib.Core.Path.{◌≡◌, refl, ap}
use mathlib.Core.Logic.{inl, inr}
use mathlib.Core.Bool.{Bool, true, ◌&&◌}
use mathlib.Core.List.{List, [], ◌∷◌, ◌++◌}
use omnicode_mcp.Prelude.Tests.{Bool-cases}
use omnicode_mcp.Prelude.Lists.{keep, All}

module _ {ℓ} {A : Type ℓ} where
  pub append_nil : (xs : List A) → xs ++ [] ≡ xs
  append_nil [] = refl
  append_nil (x ∷ xs) = ap (◌∷◌ x) (append_nil xs)

  pub snoc_append : (xs : List A) (y : A) (ys : List A) → (xs ++ y ∷ []) ++ ys ≡ xs ++ y ∷ ys
  snoc_append [] y ys = refl
  snoc_append (x ∷ xs) y ys = ap (◌∷◌ x) (snoc_append xs y ys)

  pub keep_congruent :
      (p q : A → Bool) (xs : List A) → ((x : A) → p x ≡ q x) → keep p xs ≡ keep q xs
  unfolding keep
  keep_congruent p q [] same = refl
  keep_congruent p q (x ∷ xs) same = rw (same x, keep_congruent p q xs same) refl

  pub keep-keep : (p q : A → Bool) (xs : List A) → keep p (keep q xs) ≡ keep (λ x. q x && p x) xs
  unfolding keep
  keep-keep p q [] = refl
  keep-keep p q (x ∷ xs) = elim (Bool-cases (q x)) [
    | inl holds ↦ rw (holds, keep-keep p q xs) refl
    | inr fails ↦ rw (fails, keep-keep p q xs) refl
  ]

  pub keep_all : (xs : List A) → keep (λ x. true) xs ≡ xs
  unfolding keep
  keep_all [] = refl
  keep_all (x ∷ xs) = ap (◌∷◌ x) (keep_all xs)

  pub keep-append : (p : A → Bool) (xs ys : List A) → keep p (xs ++ ys) ≡ keep p xs ++ keep p ys
  unfolding keep
  keep-append p [] ys = refl
  keep-append p (x ∷ xs) ys = elim (Bool-cases (p x)) [
    | inl holds ↦ rw holds (ap (◌∷◌ x) (keep-append p xs ys))
    | inr fails ↦ rw fails (keep-append p xs ys)
  ]

-- What passes the filter may have another property than the list had.
pub All-keep {ℓ κ} :
    {A : Type ℓ} (P Q : A → Type κ) (p : A → Bool) (xs : List A)
    → ((x : A) → p x ≡ true → P x → Q x)
    → All P xs
    → All Q (keep p xs)
unfolding keep
All-keep P Q p [] f h = tt
All-keep P Q p (x ∷ xs) f h = elim (Bool-cases (p x)) [
  | inl holds ↦ rw holds (f x holds h.0, All-keep P Q p xs f h.1)
  | inr fails ↦ rw fails (All-keep P Q p xs f h.1)
]

-- ===== src/Prelude/Names.antt =====
-- Lists of names: membership, and lists without repetitions for Python's sets.
use Prim.Native.String.{String}
use mathlib.Core.Path.{◌≡◌, refl, ap}
use mathlib.Core.Logic.{inl, inr}
use mathlib.Core.Bool.{Bool, true, false, ◌&&◌, ◌||◌}
use mathlib.Core.List.{List, [], ◌∷◌, ◌++◌}
use native.Mathlib.Omega.{arith}
use omnicode_mcp.Prelude.Tests.{if◌then◌else◌, Bool-cases}
use omnicode_mcp.Prelude.Lists.{keep}
use omnicode_mcp.Prelude.Eq.{◌==◌, string_eq, eq_of_beq}

-- x in xs
abbrev pub mem : String → List String → Bool
mem x [] = false
mem x (y ∷ ys) = if y == x then true else mem x ys

pub mem-append : (x : String) (xs ys : List String) → mem x (xs ++ ys) ≡ (mem x xs || mem x ys)
mem-append x [] ys = refl
mem-append x (y ∷ xs) ys = ground (arith, mem-append x xs ys)

pub mem-keep :
    (p : String → Bool) (x : String) (xs : List String) → mem x (keep p xs) ≡ (mem x xs && p x)
unfolding keep
mem-keep p x [] = refl
mem-keep p x (y ∷ ys) = elim (Bool-cases (y == x)) [
  | inl holds ↦ ground (arith, mem-keep p x ys, holds, ap p (eq_of_beq y x holds))
  | inr fails ↦ ground (arith, mem-keep p x ys, fails)
]

-- No name stands twice in the list.
abbrev pub NoRepeat : List String → Type 0
NoRepeat [] = Unit
NoRepeat (x ∷ xs) = (mem x xs ≡ false) × NoRepeat xs

pub NoRepeat-append :
    (xs ys : List String)
    → NoRepeat xs
    → NoRepeat ys
    → ((x : String) → mem x xs ≡ true → mem x ys ≡ false)
    → NoRepeat (xs ++ ys)
NoRepeat-append [] ys hx hy apart = hy
NoRepeat-append (x ∷ xs) ys hx hy apart = (
  ground (arith, mem-append x xs ys, hx.0, apart x (ground (arith, string_eq.same_iff x x))),
  NoRepeat-append xs ys hx.1 hy (λ z there. apart z (ground (arith, there))),
)

pub NoRepeat-keep : (p : String → Bool) (xs : List String) → NoRepeat xs → NoRepeat (keep p xs)
unfolding keep
NoRepeat-keep p [] h = tt
NoRepeat-keep p (x ∷ xs) h = elim (Bool-cases (p x)) [
  | inl holds ↦ rw holds (ground (arith, mem-keep p x xs, h.0), NoRepeat-keep p xs h.1)
  | inr fails ↦ rw fails (NoRepeat-keep p xs h.1)
]

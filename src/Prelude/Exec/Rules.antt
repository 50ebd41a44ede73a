-- ===== src/Prelude/Exec/Rules.antt =====
-- One rule for each way to build an action: what it leaves alone, and what it keeps true.
use omnicode_mcp.Prelude.Tests.{if◌then◌else◌}
use omnicode_mcp.Prelude.Result.{Result, ok, raise}
use omnicode_mcp.Prelude.Exec.{Exec, pure, lift, gets, guard, when, modify, ◌>>=◌}
use mathlib.Core.Path.{◌≡◌, refl, ◌∙◌}
use mathlib.Core.Bool.{Bool, true, false}

-- `m` leaves the part `f` of the state alone, whether it returns or raises.
pub record Leaves {ℓ} {S E A X : Type ℓ} (f : S → X) (m : Exec S E A) : Type ℓ where
  pub at : (s : S) → f (m s).1 ≡ f s

-- `m` keeps the invariant `P`, and what it returns meets `Q` in the state that it leaves.
pub record Ensures {ℓ} {S E A : Type ℓ} (P : S → Type ℓ) (m : Exec S E A) (Q : A → Type ℓ)
    : Type ℓ where
  pub state : (s : S) → P s → P (m s).1
  pub value : (s : S) → P s → (a : A) → (m s).0 ≡ ok a → Q a

module _ {ℓ} {S E A X : Type ℓ} {f : S → X} where
  pub Leaves-pure : (a : A) → Leaves f (pure {E = E} a)
  unfolding pure
  Leaves-pure a = record { at = λ s. refl }

  pub Leaves-lift : (r : Result E A) → Leaves f (lift r)
  unfolding lift
  Leaves-lift r = record { at = λ s. refl }

  pub Leaves-gets : (g : S → A) → Leaves f (gets {E = E} g)
  unfolding gets
  Leaves-gets g = record { at = λ s. refl }

  pub Leaves-if :
      (b : Bool) (m n : Exec S E A) → Leaves f m → Leaves f n → Leaves f (if b then m else n)
  Leaves-if true m n hm hn = hm
  Leaves-if false m n hm hn = hn

module _ {ℓ} {S E X : Type ℓ} {f : S → X} where
  pub Leaves-guard : (b : Bool) (e : E) → Leaves f (guard b e)
  unfolding guard
  Leaves-guard true e = record { at = λ s. refl }
  Leaves-guard false e = record { at = λ s. refl }

  pub Leaves-when : (b : Bool) (m : Exec S E Unit) → Leaves f m → Leaves f (when b m)
  unfolding when
  Leaves-when true m h = record { at = h.at }
  Leaves-when false m h = record { at = λ s. refl }

  pub Leaves-modify : (g : S → S) → ((s : S) → f (g s) ≡ f s) → Leaves f (modify {E = E} g)
  unfolding modify
  Leaves-modify g h = record { at = h }

module _ {ℓ} {S E A B X : Type ℓ} {f : S → X} where
  Leaves-rest :
      (r : Result E A) (k : A → Exec S E B) (s : S)
      → ((a : A) → Leaves f (k a))
      → f (((λ (s' : S). (r, s')) >>= k) s).1 ≡ f s
  unfolding ◌>>=◌
  Leaves-rest (ok a) k s hk = (hk a).at s
  Leaves-rest (raise e) k s hk = refl

  pub Leaves-bind :
      (m : Exec S E A) (k : A → Exec S E B)
      → Leaves f m
      → ((a : A) → Leaves f (k a))
      → Leaves f (m >>= k)
  unfolding ◌>>=◌
  Leaves-bind m k hm hk = record { at = λ s. Leaves-rest (m s).0 k (m s).1 hk ∙ hm.at s }

pub ruleset leaves_rules =
    (Leaves-pure, Leaves-lift, Leaves-gets, Leaves-if, Leaves-guard, Leaves-when, Leaves-bind)

-- A step that cannot fail hands its value on.
pub lift-bind {ℓ} : {S E A B : Type ℓ} (a : A) (k : A → Exec S E B) → (lift (ok a) >>= k) ≡ k a
unfolding ◌>>=◌
lift-bind a k = refl

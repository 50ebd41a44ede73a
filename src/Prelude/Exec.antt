-- ===== src/Prelude/Exec.antt =====
-- A method of a mutable object that may raise: what was written before a raise stays written.
pub mod Rules
use omnicode_mcp.Prelude.Result.{Result, ok, raise}
use mathlib.Core.Path.{◌≡◌, refl}
use mathlib.Core.Bool.{Bool, true, false}

abbrev pub Exec {ℓ} : Type ℓ → Type ℓ → Type ℓ → Type ℓ
Exec S E A = S → Result E A × S

module _ {ℓ} {S E A : Type ℓ} where
  unfoldable pub pure : A → Exec S E A
  pure a s = (ok a, s)

  unfoldable pub lift : Result E A → Exec S E A
  lift r s = (r, s)

  unfoldable pub gets : (S → A) → Exec S E A
  gets f s = (ok (f s), s)

module _ {ℓ} {S E : Type ℓ} where
  -- `if condition: raise e`
  unfoldable pub guard : Bool → E → Exec S E (Unit {ℓ})
  guard true e s = (raise e, s)
  guard false e s = (ok tt, s)

  -- `if condition: m`
  unfoldable pub when : Bool → Exec S E (Unit {ℓ}) → Exec S E (Unit {ℓ})
  when true m s = m s
  when false m s = (ok tt, s)

  -- an assignment
  unfoldable pub modify : (S → S) → Exec S E (Unit {ℓ})
  modify f s = (ok tt, f s)

module _ {ℓ} {S E A B : Type ℓ} where
  abbrev pub continue : Result E A → (A → Exec S E B) → Exec S E B
  continue (ok a) f s = f a s
  continue (raise e) f s = (raise e, s)

  infixl 10 ◌>>=◌ ◌>>◌
  unfoldable pub ◌>>=◌ : Exec S E A → (A → Exec S E B) → Exec S E B
  unfolding pure lift gets guard when modify
  ◌>>=◌ m f s = continue (m s).0 f (m s).1

  abbrev pub ◌>>◌ : Exec S E A → Exec S E B → Exec S E B
  m >> n = m >>= λ _. n

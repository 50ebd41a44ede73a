-- ===== src/Prelude/Dict.antt =====
-- Python's `dict`, and a SQL table with a primary key: an association list in insertion order.
use mathlib.Core.Path.{◌≡◌, refl, sym, ◌∙◌, ap, subst}
use mathlib.Core.Logic.{◌⊎◌, inl, inr}
use mathlib.Core.Bool.{Bool, true, false}
use mathlib.Core.Option.{Option, none, some}
use mathlib.Core.List.{List, [], ◌∷◌, map}
use native.Mathlib.Omega.{arith}
use Prim.Native.Nat.{◌+◌, ◌≤◌}
use omnicode_mcp.Prelude.Tests.{if◌then◌else◌, Bool-cases}
use omnicode_mcp.Prelude.Lists.{length}
use omnicode_mcp.Prelude.Eq.{Eq, ◌==◌, beq_refl, eq_of_beq}

abbrev pub Dict {ℓ κ} : Type ℓ → Type κ → Type (ℓ ⊔ κ)
Dict K V = List (K × V)

abbrev pub keys {ℓ κ} : {K : Type ℓ} {V : Type κ} → Dict K V → List K
keys = map (λ e. e.0)

abbrev pub values {ℓ κ} : {K : Type ℓ} {V : Type κ} → Dict K V → List V
values = map (λ e. e.1)

module _ {ℓ κ} {K : Type ℓ} {V : Type κ} ⦃e : Eq K⦄ where
  -- d.get(k)
  unfoldable pub get : Dict K V → K → Option V
  get [] k = none
  get ((j, v) ∷ d) k = if j == k then some v else get d k

  -- k in d
  unfoldable pub has : Dict K V → K → Bool
  has [] k = false
  has ((j, v) ∷ d) k = if j == k then true else has d k

  -- d[k] = v: in place for a key that is there, at the end otherwise
  unfoldable pub put : Dict K V → K → V → Dict K V
  put [] k v = (k, v) ∷ []
  put ((j, w) ∷ d) k v = if j == k then (k, v) ∷ d else (j, w) ∷ put d k v

  -- {**d, **more}
  abbrev pub update : Dict K V → Dict K V → Dict K V
  update d [] = d
  update d ((k, v) ∷ more) = update (put d k v) more

  -- d.pop(k, None)
  unfoldable pub pop : Dict K V → K → Dict K V
  pop [] k = []
  pop ((j, v) ∷ d) k = let rest = pop d k in if j == k then rest else (j, v) ∷ rest

  pub get-put :
      (d : Dict K V) (k j : K) (v : V) → get (put d k v) j ≡ (if k == j then some v else get d j)
  unfolding get put
  get-put [] k j v = refl
  get-put ((i, w) ∷ d) k j v =
      ground (arith, e.same_iff i k, e.same_iff i j, e.same_iff k j, get-put d k j v)

  pub get-pop : (d : Dict K V) (k j : K) → get (pop d k) j ≡ (if k == j then none else get d j)
  unfolding get pop
  get-pop [] k j = ground arith
  get-pop ((i, w) ∷ d) k j =
      ground (arith, e.same_iff i k, e.same_iff i j, e.same_iff k j, get-pop d k j)

  pub has-put :
      (d : Dict K V) (k j : K) (v : V) → has (put d k v) j ≡ (if k == j then true else has d j)
  unfolding has put
  has-put [] k j v = refl
  has-put ((i, w) ∷ d) k j v =
      ground (arith, e.same_iff i k, e.same_iff i j, e.same_iff k j, has-put d k j v)

  pub has-pop : (d : Dict K V) (k j : K) → has (pop d k) j ≡ (if k == j then false else has d j)
  unfolding has pop
  has-pop [] k j = ground arith
  has-pop ((i, w) ∷ d) k j =
      ground (arith, e.same_iff i k, e.same_iff i j, e.same_iff k j, has-pop d k j)

  pub has-get : (d : Dict K V) (k : K) → has d k ≡ elim (get d k) [ none ↦ false | some _ ↦ true ]
  unfolding has get
  has-get [] k = refl
  has-get ((j, v) ∷ d) k = ground (arith, has-get d k)

  pub length-put :
      (d : Dict K V) (k : K) (v : V)
      → length (put d k v) ≡ (if has d k then length d else length d + 1)
  unfolding put has
  length-put [] k v = refl
  length-put ((j, w) ∷ d) k v = ground (arith, length-put d k v)

  pub length-pop-le : (d : Dict K V) (k : K) → length (pop d k) ≤ length d
  unfolding pop
  length-pop-le [] k = omega arith
  length-pop-le ((j, v) ∷ d) k = ground (arith, length-pop-le d k)

  pub pop-put_same : (d : Dict K V) (k : K) (v : V) → pop (put d k v) k ≡ pop d k
  unfolding pop put
  pop-put_same [] k v = rw (beq_refl k) refl
  pop-put_same ((i, w) ∷ d) k v = elim (Bool-cases (i == k)) [
    | inl same ↦ rw (same, beq_refl k) refl
    | inr other ↦ rw other (rw (other, pop-put_same d k v) refl)
  ]

  pub pop-put_other :
      (d : Dict K V) (j k : K) (v : V) → (j == k) ≡ false → pop (put d j v) k ≡ put (pop d k) j v
  unfolding pop put
  pop-put_other [] j k v h = rw h refl
  pop-put_other ((i, w) ∷ d) j k v h = elim (Bool-cases (i == j)) [
    | inl same ↦
        let apart : (i == k) ≡ false = subst (λ n. (n == k) ≡ false) (sym (eq_of_beq i j same)) h in
        rw (same, h, apart) (rw same refl)
    | inr other ↦ elim (Bool-cases (i == k)) [
      | inl gone ↦ rw (other, gone) (pop-put_other d j k v h)
      | inr stays ↦ rw (other, stays) (rw (other, pop-put_other d j k v h) refl)
    ]
  ]

  pub get-put_self : (d : Dict K V) (k : K) (v : V) → get (put d k v) k ≡ some v
  get-put_self d k v = simp (get-put, beq_refl)

  pub get-pop_self : (d : Dict K V) (k : K) → get (pop d k) k ≡ none
  get-pop_self d k = simp (get-pop, beq_refl)

module _ {ℓ κ} {K : Type ℓ} {V : Type κ} ⦃e : Eq K⦄ where
  -- What is read after a write was written, or was there before.
  pub get-put_cases :
      (d : Dict K V) (k j : K) (v w : V)
      → get (put d k v) j ≡ some w
      → ((k ≡ j) × (v ≡ w)) ⊎ (get d j ≡ some w)
  get-put_cases d k j v w h = go (k == j) refl (sym (get-put d k j v) ∙ h)
    where
      go :
          (b : Bool)
          → (k == j) ≡ b
          → (if b then some v else get d j) ≡ some w
          → ((k ≡ j) × (v ≡ w)) ⊎ (get d j ≡ some w)
      go true same p =
          inl (eq_of_beq k j same, ap (λ (o : Option V). elim o [ some x ↦ x | none ↦ v ]) p)
      go false other p = inr p

  pub get-pop-some : (d : Dict K V) (k j : K) (w : V) → get (pop d k) j ≡ some w → get d j ≡ some w
  get-pop-some d k j w h = go (k == j) (sym (get-pop d k j) ∙ h)
    where
      go : (b : Bool) → (if b then none else get d j) ≡ some w → get d j ≡ some w
      go true p = cc
      go false p = p

pub ruleset dict_laws = (get-put, get-pop, has-put, has-pop)

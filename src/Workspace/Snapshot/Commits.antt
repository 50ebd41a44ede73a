-- ===== src/Workspace/Snapshot/Commits.antt =====
-- Every writing operation is one transaction on the two JSON files: if it raises, both are as they
-- were, and if it returns, both hold the new index.
use omnicode_mcp.Prelude.{
  ◌≡◌, refl, subst, ◌⊎◌, inl, inr, Option, some, String, Bool, true, false, arith,
}
use omnicode_mcp.Prelude.Result.{Result, ok, raise}
use omnicode_mcp.Prelude.Exec.{pure, lift, guard, modify, ◌>>=◌, continue}
use omnicode_mcp.Prelude.Exec.Rules.{Leaves}
use omnicode_mcp.Workspace.Snapshot.Types.{
  StoreError, WorkspaceDir, IndexFile, stored, Status, Index,
}
use omnicode_mcp.Workspace.Snapshot.Index.{
  Act, read_index, load_index, save_index, status_from_index,
}
use omnicode_mcp.Workspace.Snapshot.Frame.{saved}

-- The two JSON files.
abbrev pub JsonFiles : Type 0
JsonFiles = IndexFile × Option Status

-- Both files hold the index `i`, the second as a summary.
abbrev pub holding : String → Index → JsonFiles
holding ws i = (stored i, some (status_from_index ws i))

-- An action that returns has saved an index that meets `R`; one that raises has saved nothing.
abbrev pub Settled :
    {A : Type 0} → String → (Index → Type 0) → Result StoreError A → JsonFiles → JsonFiles → Type 0
Settled ws R (raise e) before after = after ≡ before
Settled ws R (ok a) before after = (i : Index) × (after ≡ holding ws i) × R i

pub record Saves {A : Type 0} (ws : String) (R : Index → Type 0) (m : Act A) : Type 0 where
  pub at : (d : WorkspaceDir) → Settled ws R (m d).0 (saved d) (saved (m d).1)

-- The same, where the new index stands in the relation `Q` to the one that was loaded.
abbrev pub Committed :
    {A : Type 0}
    → String
    → (Index → Index → Type 0)
    → Result StoreError A
    → JsonFiles
    → JsonFiles
    → Type 0
Committed ws Q (raise e) before after = after ≡ before
Committed ws Q (ok a) before after =
    (i₀ i : Index) × (read_index ws before.0 ≡ ok i₀) × (after ≡ holding ws i) × Q i₀ i

pub record Commits {A : Type 0} (ws : String) (Q : Index → Index → Type 0) (m : Act A)
    : Type 0 where
  pub at : (d : WorkspaceDir) → Committed ws Q (m d).0 (saved d) (saved (m d).1)

-- What the action returns meets `P`.
pub record Gives {A : Type 0} (P : A → Type 0) (m : Act A) : Type 0 where
  pub at : (d : WorkspaceDir) (a : A) → (m d).0 ≡ ok a → P a

pub Saves-save :
    {A : Type 0} {ws : String} {R : Index → Type 0} (i : Index) (a : A)
    → R i
    → Saves ws R (save_index ws i >>= λ _. pure a)
unfolding ◌>>=◌ save_index
Saves-save i a h = record { at = λ d. (i, refl, h) }

pub Saves-save_unit :
    {ws : String} {R : Index → Type 0} (i : Index) → R i → Saves ws R (save_index ws i)
unfolding save_index modify
Saves-save_unit i h = record { at = λ d. (i, refl, h) }

module _ {A B : Type 0} {ws : String} where
  Saves-after :
      {R : Index → Type 0} (k : A → Act B) (r : Result StoreError A) (d : WorkspaceDir)
      (before : JsonFiles)
      → saved d ≡ before
      → ((a : A) → r ≡ ok a → Saves ws R (k a))
      → Settled ws R (continue r k d).0 before (saved (continue r k d).1)
  Saves-after k (raise e) d before s h = s
  Saves-after {R} k (ok a) d before s h =
      subst (λ b. Settled ws R (k a d).0 b (saved (k a d).1)) s ((h a refl).at d)

  pub Saves-bind :
      {R : Index → Type 0} (P : A → Type 0) (m : Act A) (k : A → Act B)
      → Leaves saved m
      → Gives P m
      → ((a : A) → P a → Saves ws R (k a))
      → Saves ws R (m >>= k)
  unfolding ◌>>=◌
  Saves-bind P m k l g h = record {
    at = λ d. Saves-after k (m d).0 (m d).1 (saved d) (l.at d) (λ a e. h a (g.at d a e));
  }

  Commits-after :
      {Q : Index → Index → Type 0} (k : A → Act B) (r : Result StoreError A) (d : WorkspaceDir)
      (before : JsonFiles)
      → saved d ≡ before
      → ((a : A) → r ≡ ok a → Commits ws Q (k a))
      → Committed ws Q (continue r k d).0 before (saved (continue r k d).1)
  Commits-after k (raise e) d before s h = s
  Commits-after {Q} k (ok a) d before s h =
      subst (λ b. Committed ws Q (k a d).0 b (saved (k a d).1)) s ((h a refl).at d)

  pub Commits-bind :
      {Q : Index → Index → Type 0} (P : A → Type 0) (m : Act A) (k : A → Act B)
      → Leaves saved m
      → Gives P m
      → ((a : A) → P a → Commits ws Q (k a))
      → Commits ws Q (m >>= k)
  unfolding ◌>>=◌
  Commits-bind P m k l g h = record {
    at = λ d. Commits-after k (m d).0 (m d).1 (saved d) (l.at d) (λ a e. h a (g.at d a e));
  }

module _ {B : Type 0} (ws : String) (Q : Index → Index → Type 0) where
  Settled-then :
      (i₀ : Index) (r : Result StoreError B) (before after : JsonFiles)
      → read_index ws before.0 ≡ ok i₀
      → Settled ws (Q i₀) r before after
      → Committed ws Q r before after
  Settled-then i₀ (raise e) before after p same = same
  Settled-then i₀ (ok b) before after p (i, kept, q) = (i₀, i, p, kept, q)

  -- Whatever comes of it, the files are those of before or hold the new index.
  pub Committed-cases :
      (r : Result StoreError B) (before after : JsonFiles)
      → Committed ws Q r before after
      → (after ≡ before)
        ⊎ ((i₀ i : Index) × (read_index ws before.0 ≡ ok i₀) × (after ≡ holding ws i) × Q i₀ i)
  Committed-cases (raise e) before after same = inl same
  Committed-cases (ok b) before after done = inr done

module _ {B : Type 0} {ws : String} {Q : Index → Index → Type 0} where
  load_then :
      (k : Index → Act B) (r : Result StoreError Index) (d : WorkspaceDir)
      → read_index ws d.index_file ≡ r
      → ((i₀ : Index) → Saves ws (Q i₀) (k i₀))
      → Committed ws Q (continue r k d).0 (saved d) (saved (continue r k d).1)
  load_then k (raise e) d p h = refl
  load_then k (ok i₀) d p h =
      Settled-then ws Q i₀ (k i₀ d).0 (saved d) (saved (k i₀ d).1) p ((h i₀).at d)

  pub Commits-load :
      (k : Index → Act B)
      → ((i₀ : Index) → Saves ws (Q i₀) (k i₀))
      → Commits ws Q (load_index ws >>= k)
  unfolding ◌>>=◌ load_index
  Commits-load k h = record { at = λ d. load_then k (read_index ws d.index_file) d refl h }

pub ok_inj : {A : Type 0} (a b : A) → ◌≡◌ {A = Result StoreError A} (ok a) (ok b) → a ≡ b
ok_inj a b e = ground arith

pub Gives-any : {A : Type 0} {m : Act A} → Gives (λ _. Unit {0}) m
Gives-any = record { at = λ d a e. tt }

pub Gives-lift : {A : Type 0} (r : Result StoreError A) → Gives (λ a. r ≡ ok a) (lift r)
unfolding lift
Gives-lift r = record { at = λ d a e. e }

pub Gives-guard : (b : Bool) (e : StoreError) → Gives (λ _. b ≡ false) (guard b e)
unfolding guard
Gives-guard true e = record { at = λ d a p. cc }
Gives-guard false e = record { at = λ d a p. refl }

pub Gives-pure : {A : Type 0} {P : A → Type 0} (a : A) → P a → Gives P (pure a)
unfolding pure
Gives-pure {P} a h = record { at = λ d b e. subst P (ok_inj a b e) h }

module _ {A B : Type 0} {P : B → Type 0} where
  gives_after :
      (k : A → Act B) (r : Result StoreError A) (d : WorkspaceDir)
      → ((a : A) → r ≡ ok a → Gives P (k a))
      → (b : B) → (continue r k d).0 ≡ ok b
      → P b
  gives_after k (ok a) d h b e = (h a refl).at d b e
  gives_after k (raise x) d h b e = cc

  pub Gives-bind :
      (R : A → Type 0) (m : Act A) (k : A → Act B)
      → Gives R m
      → ((a : A) → R a → Gives P (k a))
      → Gives P (m >>= k)
  unfolding ◌>>=◌
  Gives-bind R m k g h = record {
    at = λ d b e. gives_after k (m d).0 (m d).1 (λ a p. h a (g.at d a p)) b e;
  }

pub Gives-weaken :
    {A : Type 0} {P Q : A → Type 0} {m : Act A} → ((a : A) → P a → Q a) → Gives P m → Gives Q m
Gives-weaken f g = record { at = λ d a e. f a (g.at d a e) }

pub Commits-weaken :
    {A : Type 0} {ws : String} {P Q : Index → Index → Type 0} {m : Act A}
    → ((i j : Index) → P i j → Q i j)
    → Commits ws P m
    → Commits ws Q m
Commits-weaken {A} {ws} {P} {Q} {m} f c = record {
  at = λ d. weaker (m d).0 (saved d) (saved (m d).1) (c.at d);
}
  where
    weaker :
        (r : Result StoreError A) (before after : JsonFiles)
        → Committed ws P r before after
        → Committed ws Q r before after
    weaker (raise e) before after same = same
    weaker (ok a) before after (i, j, read, kept, p) = (i, j, read, kept, f i j p)

-- ===== src/Workspace/Queue/Idle.antt =====
-- `next_batch` sends something where something is wanted.
use omnicode_mcp.Prelude.{
  ℕ, ◌+◌, ◌≤◌, ◌≡◌, refl, sym, ap, subst, ◌∙◌, inl, inr, String, Bool, true, false, not, ◌&&◌, none,
  List, [], ◌∷◌, ◌++◌, All, arith, length, length-append, ltb, leb,
}
use omnicode_mcp.Prelude.Eq.{nat_eq}
use omnicode_mcp.Prelude.Result.{Result, ok, raise}
use omnicode_mcp.Workspace.Path.{PathError}
use omnicode_mcp.Workspace.Manifest.{Local, PendingItem, Manifest}
use omnicode_mcp.Workspace.Queue.{
  SyncFile, Wanted, skip, removal, upload, wanted, Filled, is_nil, fill_file, fill_turn, fill,
  batch_of, next_batch,
}
use omnicode_mcp.Workspace.Queue.Bounds.{checked}

module _ (local : Local) (m : Manifest) (max_files max_bytes : ℕ) where
  abbrev GrownOut : ℕ → Filled → Type 0
  GrownOut n (ok (files, deletes)) = n ≤ length files + length deletes
  GrownOut n (raise e) = Unit

  weaken : (n k : ℕ) (out : Filled) → n ≤ k → GrownOut k out → GrownOut n out
  weaken n k (ok (files, deletes)) l h = omega (arith, h)
  weaken n k (raise e) l h = tt

  grown_turn :
      (files : List SyncFile) (deletes : List String) (used : ℕ)
      (next : List SyncFile → List String → ℕ → Filled)
      → ((fs : List SyncFile) (ds : List String) (n : ℕ)
          → GrownOut (length fs + length ds) (next fs ds n))
      → (full : Bool) (w : Result PathError Wanted)
      → GrownOut
          (length files + length deletes)
          (fill_turn local max_bytes files deletes used next full w)
  grown_turn files deletes used next ih true w = omega arith
  grown_turn files deletes used next ih false (raise e) = tt
  grown_turn files deletes used next ih false (ok skip) = ih files deletes used
  grown_turn files deletes used next ih false (ok (removal path)) =
      weaken _ _ _ (omega (arith, length-append deletes (path ∷ [])))
        (ih files (deletes ++ path ∷ []) used)
  grown_turn files deletes used next ih false (ok (upload file)) = go (
      not (is_nil files && is_nil deletes)
      && ltb max_bytes (used + local.encoded_length file.content))
    where
      go :
          (b : Bool)
          → GrownOut
              (length files + length deletes)
              (fill_file local files deletes used next file b)
      go true = omega arith
      go false =
          weaken _ _ _ (omega (arith, length-append files (file ∷ [])))
            (ih (files ++ file ∷ []) deletes _)

  fill-Grown :
      (items : List PendingItem) (files : List SyncFile) (deletes : List String) (used : ℕ)
      → GrownOut
          (length files + length deletes)
          (fill local m max_files max_bytes files deletes used items)
  unfolding fill
  fill-Grown [] files deletes used = omega arith
  fill-Grown (item ∷ items) files deletes used =
      grown_turn files deletes used (λ fs ds n. fill local m max_files max_bytes fs ds n items)
        (λ fs ds n. fill-Grown items fs ds n) _ (wanted local m item)

  -- The turn that leaves a batch empty was for an item that asks for nothing.
  idle_turn :
      (used : ℕ) (items : List PendingItem) (w : Result PathError Wanted)
      → fill_turn local max_bytes [] [] used
          (λ fs ds n. fill local m max_files max_bytes fs ds n items)
          false
          w
        ≡ ok ([], [])
      → (w ≡ ok skip) × (fill local m max_files max_bytes [] [] used items ≡ ok ([], []))
  idle_turn used items (raise e) h = cc
  idle_turn used items (ok skip) h = (refl, h)
  idle_turn used items (ok (removal path)) h =
      let grown : 1 ≤ 0 = subst (GrownOut 1) h (fill-Grown items [] (path ∷ []) used) in
      absurd (omega (arith, grown))
  idle_turn used items (ok (upload file)) h =
      let grown : 1 ≤ 0 =
        subst (GrownOut 1) h
          (fill-Grown items (file ∷ []) [] (used + local.encoded_length file.content)) in
      absurd (omega (arith, grown))

  fill_idle :
      (items : List PendingItem) (used : ℕ)
      → leb max_files 0 ≡ false
      → fill local m max_files max_bytes [] [] used items ≡ ok ([], [])
      → All (λ item. wanted local m item ≡ ok skip) items
  unfolding fill
  fill_idle [] used room h = tt
  fill_idle (item ∷ items) used room h =
      let (skipped, rest) = idle_turn used items (wanted local m item) (rw (sym room) h) in
      (skipped, fill_idle items used room rest)

  empty_made :
      (o : List SyncFile × List String)
      → batch_of local m max_files max_bytes o ≡ none
      → o ≡ ([], [])
  empty_made ([], []) e = refl
  empty_made ([], d ∷ ds) e = cc
  empty_made (f ∷ fs, ds) e = cc

  -- `next_batch` returns nothing only where no pending item asks for anything: every item has an
  -- unknown operation.
  pub next_batch_idle :
      next_batch local m max_files max_bytes ≡ ok none
      → All (λ item. wanted local m item ≡ ok skip) m.pending
  unfolding next_batch
  next_batch_idle e = elim (checked local m max_files max_bytes _ _ _ _ none e) [
    | inl (empty, _) ↦ go m.pending empty
    | inr (some_files, o, out, made) ↦
        fill_idle m.pending 0 (ground (arith, some_files)) (out ∙ ap ok (empty_made o made))
  ]
    where
      go :
          (items : List PendingItem)
          → is_nil items ≡ true
          → All (λ item. wanted local m item ≡ ok skip) items
      go [] e = tt
      go (x ∷ xs) e = cc

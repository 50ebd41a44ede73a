-- ===== src/Workspace/Queue/Bounds.antt =====
-- The size of the batches of `next_batch`.
use omnicode_mcp.Prelude.{
  ℕ, ◌+◌, ◌≤◌, ◌<◌, ◌≡◌, refl, ap, subst, ◌⊎◌, inl, inr, String, Bool, true, false, not, ◌&&◌,
  Option, none, some, List, [], ◌∷◌, ◌++◌, arith, length, length-append, ltb, leb,
}
use omnicode_mcp.Prelude.Eq.{nat_eq}
use omnicode_mcp.Prelude.Result.{Result, ok, raise}
use omnicode_mcp.Workspace.Path.{PathError}
use omnicode_mcp.Workspace.Manifest.{Local, PendingItem, Manifest}
use omnicode_mcp.Workspace.Queue.{
  SyncFile, SyncBatch, QueueError, Wanted, skip, removal, upload, wanted, Filled, is_nil, fill_file,
  fill_turn, fill, batch_of, checked_batch, next_batch,
}

module _ (local : Local) where
  -- The bytes that the files of a batch send.
  abbrev pub payload_bytes : List SyncFile → ℕ
  payload_bytes [] = 0
  payload_bytes (f ∷ fs) = local.encoded_length f.content + payload_bytes fs

  payload_bytes-snoc :
      (fs : List SyncFile) (f : SyncFile)
      → payload_bytes (fs ++ f ∷ []) ≡ payload_bytes fs + local.encoded_length f.content
  payload_bytes-snoc [] f = omega arith
  payload_bytes-snoc (g ∷ fs) f = omega (arith, payload_bytes-snoc fs f)

  module _ (max_files max_bytes : ℕ) where
    -- At most `max_files` entries, and `max_bytes` bytes unless there is one file.
    pub record Fits (files : List SyncFile) (deletes : List String) : Type 0 where
      pub count : length files + length deletes ≤ max_files
      pub bytes : (payload_bytes files ≤ max_bytes) ⊎ (length files ≡ 1)

    abbrev FitsOut : Result PathError (List SyncFile × List String) → Type 0
    FitsOut (ok (files, deletes)) = Fits files deletes
    FitsOut (raise e) = Unit

    module _ (m : Manifest) where
      Fits-upload :
          (files : List SyncFile) (deletes : List String) (file : SyncFile)
          → (length files + length deletes) < max_files
          → (not (is_nil files && is_nil deletes)
              && ltb max_bytes (payload_bytes files + local.encoded_length file.content))
            ≡ false
          → Fits (files ++ file ∷ []) deletes
      Fits-upload [] [] file room fails = record { count = omega arith; bytes = inr refl }
      Fits-upload [] (d ∷ ds) file room fails = record {
        count = omega arith;
        bytes = inl (ground (arith, fails));
      }
      Fits-upload (f ∷ fs) deletes file room fails = record {
        count = omega (arith, length-append fs (file ∷ []));
        bytes = inl (ground (arith, fails, payload_bytes-snoc fs file));
      }

      Fits-turn :
          (files : List SyncFile) (deletes : List String)
          (next : List SyncFile → List String → ℕ → Filled)
          → ((fs : List SyncFile) (ds : List String)
              → Fits fs ds
              → FitsOut (next fs ds (payload_bytes fs)))
          → Fits files deletes
          → (full : Bool) → leb max_files (length files + length deletes) ≡ full
          → (w : Result PathError Wanted)
          → FitsOut (fill_turn local max_bytes files deletes (payload_bytes files) next full w)
      Fits-turn files deletes next ih h true f w = h
      Fits-turn files deletes next ih h false f (raise e) = tt
      Fits-turn files deletes next ih h false f (ok skip) = ih files deletes h
      Fits-turn files deletes next ih h false f (ok (removal path)) =
          ih files (deletes ++ path ∷ []) (record {
            count = ground (arith, f, length-append deletes (path ∷ []));
            bytes = h.bytes;
          })
      Fits-turn files deletes next ih h false f (ok (upload file)) =
          go
            (not (is_nil files && is_nil deletes)
              && ltb max_bytes (payload_bytes files + local.encoded_length file.content))
            refl
        where
          go :
              (b : Bool)
              → (not (is_nil files && is_nil deletes)
                  && ltb max_bytes (payload_bytes files + local.encoded_length file.content))
                ≡ b
              → FitsOut (fill_file local files deletes (payload_bytes files) next file b)
          go true e = h
          go false e =
              subst (λ n. FitsOut (next (files ++ file ∷ []) deletes n))
                (payload_bytes-snoc files file)
                (ih (files ++ file ∷ []) deletes
                  (Fits-upload files deletes file (ground (arith, f)) e))

      fill-Fits :
          (items : List PendingItem) (files : List SyncFile) (deletes : List String)
          → Fits files deletes
          → FitsOut (fill local m max_files max_bytes files deletes (payload_bytes files) items)
      unfolding fill
      fill-Fits [] files deletes h = h
      fill-Fits (item ∷ items) files deletes h =
          Fits-turn files deletes (λ fs ds n. fill local m max_files max_bytes fs ds n items)
            (λ fs ds g. fill-Fits items fs ds g) h _ refl (wanted local m item)

option_inj :
    (a b : Option SyncBatch) → ◌≡◌ {A = Result QueueError (Option SyncBatch)} (ok a) (ok b) → a ≡ b
option_inj a b e =
    ap (λ (r : Result QueueError (Option SyncBatch)). elim r [ ok x ↦ x | raise _ ↦ a ]) e

batch_files : (a b : SyncBatch) → some a ≡ some b → (a.files ≡ b.files) × (a.deletes ≡ b.deletes)
batch_files a b e = (
  ap (λ (o : Option SyncBatch). elim o [ some x ↦ x.files | none ↦ a.files ]) e,
  ap (λ (o : Option SyncBatch). elim o [ some x ↦ x.deletes | none ↦ a.deletes ]) e,
)

module _ (local : Local) (m : Manifest) (max_files max_bytes : ℕ) where
  pub checked :
      (a b c : Bool) (out : Filled) (r : Option SyncBatch)
      → checked_batch local m max_files max_bytes a b c out ≡ ok r
      → ((a ≡ true) × (none ≡ r))
        ⊎ ((b ≡ false)
            × (o : List SyncFile × List String) × (out ≡ ok o)
            × (batch_of local m max_files max_bytes o ≡ r))
  checked true b c out r e = inl (refl, option_inj none r e)
  checked false true c out r e = cc
  checked false false true out r e = cc
  checked false false false (raise x) r e = cc
  checked false false false (ok o) r e =
      inr (refl, o, refl, option_inj (batch_of local m max_files max_bytes o) r e)

  batch_fits :
      (files : List SyncFile) (deletes : List String) (batch : SyncBatch)
      → batch_of local m max_files max_bytes (files, deletes) ≡ some batch
      → (files ≡ batch.files) × (deletes ≡ batch.deletes) × (1 ≤ length files + length deletes)
  batch_fits [] [] batch e = cc
  batch_fits [] (d ∷ ds) batch e = let (f, g) = batch_files _ batch e in (f, g, omega arith)
  batch_fits (f ∷ fs) ds batch e = let (g, h) = batch_files _ batch e in (g, h, omega arith)

  -- A batch has an entry, at most `max_files` of them, and at most `max_bytes` bytes of content
  -- unless it has one file.
  pub next_batch-Fits :
      (batch : SyncBatch)
      → next_batch local m max_files max_bytes ≡ ok (some batch)
      → Fits local max_files max_bytes batch.files batch.deletes
        × (1 ≤ length batch.files + length batch.deletes)
  unfolding next_batch
  next_batch-Fits batch e = elim (checked _ _ _ _ (some batch) e) [
    | inl (_, none_made) ↦ cc
    | inr (_, (files, deletes), out, made) ↦
        let (f, d, some_entry) = batch_fits files deletes batch made in
        let fits = subst (FitsOut local max_files max_bytes) out (
          fill-Fits local max_files max_bytes m m.pending [] []
            (record { count = omega arith; bytes = inl (omega arith) })) in
        subst
          (λ fs.
            Fits local max_files max_bytes fs batch.deletes
            × (1 ≤ length fs + length batch.deletes))
          f
          (subst (λ ds. Fits local max_files max_bytes files ds × (1 ≤ length files + length ds)) d
            (fits, some_entry))
  ]

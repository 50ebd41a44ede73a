-- ===== src/Workspace/Snapshot/Invariants.antt =====
-- The invariant of a workspace's two JSON files along any run of the store's writing methods.
use omnicode_mcp.Prelude.{
  ℕ, ◌≤◌, ◌≡◌, ◌≢◌, refl, sym, ap, subst, ◌∙◌, inl, inr, Option, none, some, String, List, [], ◌∷◌,
  arith,
}
use omnicode_mcp.Prelude.Eq.{string_eq}
use omnicode_mcp.Prelude.Dict.{get, get-put_self}
use omnicode_mcp.Prelude.Result.{Result, ok, raise}
use omnicode_mcp.Prelude.Exec.{pure, continue, ◌>>=◌}
use omnicode_mcp.Workspace.Snapshot.Types.{
  StoreError, Index, IndexFile, stored, Status, Host, WorkspaceDir, empty_dir,
}
use omnicode_mcp.Workspace.Snapshot.Index.{
  Act, read_index, load_index, status_from_index, validate_workspace_id, status_unlocked, status,
  with_fallback, mark_indexed_unlocked,
}
use omnicode_mcp.Workspace.Snapshot.Objects.{FileItem, normalized, upsert_unlocked, delete_unlocked}
use omnicode_mcp.Workspace.Snapshot.Batch.{apply_batch_unlocked}
use omnicode_mcp.Workspace.Snapshot.Frame.{saved}
use omnicode_mcp.Workspace.Snapshot.Commits.{Commits, Commits-weaken, Committed-cases, holding}
use omnicode_mcp.Workspace.Snapshot.Transactions.{
  apply_batch-Commits, upsert-Commits, delete-Commits, mark_indexed-Commits,
}

-- No revision is indexed before it is accepted, and the two names of the accepted one agree.
abbrev pub IsSound : Index → Type 0
IsSound i = (i.indexed_revision ≤ i.accepted_revision) × (i.latest_revision ≡ i.accepted_revision)

-- The index is sound, and a summary on disk is the summary of the index on disk.
pub record IsValidFiles (ws : String) (f : IndexFile × Option Status) : Type 0 where
  pub sound : (i : Index) → read_index ws f.0 ≡ ok i → IsSound i
  pub summary :
      (s : Status) → f.1 ≡ some s → (i : Index) × (f.0 ≡ stored i) × (s ≡ status_from_index ws i)

abbrev pub IsValid : String → WorkspaceDir → Type 0
IsValid ws d = IsValidFiles ws (saved d)

-- The accepted revision of a directory, 0 where its index file is corrupt.
abbrev pub accepted_in : Result StoreError Index → ℕ
accepted_in (ok i) = i.accepted_revision
accepted_in (raise e) = 0

abbrev pub accepted_of : String → WorkspaceDir → ℕ
accepted_of ws d = accepted_in (read_index ws d.index_file)

pub index_inj : (i j : Index) → ◌≡◌ {A = Result StoreError Index} (ok i) (ok j) → i ≡ j
index_inj i j e = ap (λ (r : Result StoreError Index). elim r [ ok k ↦ k | raise _ ↦ i ]) e

status_inj : (s t : Status) → some s ≡ some t → s ≡ t
status_inj s t e = ap (λ (o : Option Status). elim o [ some u ↦ u | none ↦ s ]) e

holding-IsValidFiles : (ws : String) (i : Index) → IsSound i → IsValidFiles ws (holding ws i)
holding-IsValidFiles ws i h = record {
  sound = λ j e. subst IsSound (index_inj i j e) h;
  summary = λ s e. (i, refl, sym (status_inj (status_from_index ws i) s e));
}

-- A transaction whose effect keeps the index sound keeps the directory valid.
Commits-IsValid :
    {A : Type 0} {ws : String} {Q : Index → Index → Type 0} (m : Act A)
    → Commits ws Q m
    → ((i j : Index) → Q i j → IsSound i → IsSound j)
    → (d : WorkspaceDir) → IsValid ws d
    → IsValid ws (m d).1
Commits-IsValid {ws} {Q} m c keep d h =
    elim (Committed-cases ws Q (m d).0 (saved d) (saved (m d).1) (c.at d)) [
      | inl same ↦ subst (IsValidFiles ws) (sym same) h
      | inr (i, j, read, kept, q) ↦
          subst (IsValidFiles ws) (sym kept)
            (holding-IsValidFiles ws j (keep i j q (h.sound i read)))
    ]

-- One call of a writing method.
pub data Call : Type 0 where
  upsert : FileItem → ℕ → Call
  delete : String → ℕ → Call
  apply_batch : List FileItem → List String → ℕ → Call
  mark_indexed : ℕ → String → Call

module _ (host : Host) (ws : String) where
  -- The directory after a call, whether it returned or raised.
  unfoldable pub after : Call → WorkspaceDir → WorkspaceDir
  after (upsert item revision) d = (upsert_unlocked host ws item revision d).1
  after (delete path revision) d = (delete_unlocked host ws path revision d).1
  after (apply_batch files deletes revision) d =
      (apply_batch_unlocked host ws files deletes revision d).1
  after (mark_indexed revision coverage) d = (mark_indexed_unlocked ws revision coverage d).1

  unfoldable pub run : List Call → WorkspaceDir → WorkspaceDir
  run [] d = d
  run (c ∷ cs) d = run cs (after c d)

  module _ (valid : validate_workspace_id ws ≡ ok ws) where
    after-IsValid : (c : Call) (d : WorkspaceDir) → IsValid ws d → IsValid ws (after c d)
    unfolding after
    after-IsValid (upsert item revision) =
        Commits-IsValid _ (upsert-Commits host ws ws valid item revision)
          λ i j q h. omega (arith, q.accepted, q.latest, q.indexed, h)
    after-IsValid (delete path revision) =
        Commits-IsValid _ (delete-Commits host ws ws valid path revision)
          λ i j q h. omega (arith, q.accepted, q.latest, q.indexed, h)
    after-IsValid (apply_batch files deletes revision) =
        Commits-IsValid _ (apply_batch-Commits host ws ws valid files deletes revision)
          λ i j q h. omega (arith, q.accepted, q.latest, q.indexed, h)
    after-IsValid (mark_indexed revision coverage) =
        Commits-IsValid _ (mark_indexed-Commits ws ws valid revision coverage)
          λ i j q h. omega (arith, q.accepted, q.latest, q.indexed, q.within, h)

    pub run-IsValid : (cs : List Call) (d : WorkspaceDir) → IsValid ws d → IsValid ws (run cs d)
    unfolding run
    run-IsValid [] d h = h
    run-IsValid (c ∷ cs) d h = run-IsValid cs (after c d) (after-IsValid c d h)

pub empty-IsValid : (ws : String) → IsValid ws empty_dir
empty-IsValid ws = record {
  sound = λ i e. subst IsSound (index_inj _ i e) (omega arith);
  summary = λ s e. cc;
}

-- From an empty directory, after any calls, failed ones included: no revision is indexed before it
-- is accepted, and a summary on disk is that of the index on disk.
pub reachable-IsValid :
    (host : Host) (ws : String)
    → validate_workspace_id ws ≡ ok ws
    → (cs : List Call) → IsValid ws (run host ws cs empty_dir)
reachable-IsValid host ws valid cs = run-IsValid host ws valid cs empty_dir (empty-IsValid ws)

status_lem :
    (ws : String) (d : WorkspaceDir)
    → validate_workspace_id ws ≡ ok ws
    → (status ws d).0 ≡ (with_fallback d.status_file (status_unlocked ws) d).0
unfolding status ◌>>=◌
status_lem ws d valid = rw valid

status_unlocked_lem :
    (ws : String) (d : WorkspaceDir) (i : Index)
    → d.index_file ≡ stored i
    → (status_unlocked ws d).0 ≡ ok (status_from_index ws i)
unfolding status_unlocked load_index ◌>>=◌
status_unlocked_lem ws d i e =
    ap (λ (f : IndexFile). (continue (read_index ws f) (λ j. pure (status_from_index ws j)) d).0) e

fallback_agrees :
    (ws : String) (d : WorkspaceDir)
    → IsValid ws d
    → (o : Option Status) → d.status_file ≡ o
    → (with_fallback o (status_unlocked ws) d).0 ≡ (status_unlocked ws d).0
unfolding pure
fallback_agrees ws d h none e = refl
fallback_agrees ws d h (some s) e =
    let (i, kept, same) = h.summary s e in ap ok same ∙ sym (status_unlocked_lem ws d i kept)

-- The fast path of `status`, from the summary file, answers what the index would.
pub status-eq-status_unlocked :
    (host : Host) (ws : String)
    → validate_workspace_id ws ≡ ok ws
    → (cs : List Call)
    → (status ws (run host ws cs empty_dir)).0 ≡ (status_unlocked ws (run host ws cs empty_dir)).0
status-eq-status_unlocked host ws valid cs =
    let d = run host ws cs empty_dir in
    status_lem ws d valid
    ∙ fallback_agrees ws d (reachable-IsValid host ws valid cs) d.status_file refl

Commits-accepted :
    {A : Type 0} {ws : String} {Q : Index → Index → Type 0} (m : Act A)
    → Commits ws Q m
    → ((i j : Index) → Q i j → i.accepted_revision ≤ j.accepted_revision)
    → (d : WorkspaceDir) → accepted_of ws d ≤ accepted_of ws (m d).1
Commits-accepted {ws} {Q} m c grows d =
    elim (Committed-cases ws Q (m d).0 (saved d) (saved (m d).1) (c.at d)) [
      | inl same ↦
          let e = ap (λ (f : IndexFile × Option Status). accepted_in (read_index ws f.0)) same in
          omega arith
      | inr (i, j, read, kept, q) ↦
          let before = ap accepted_in read in
          let now = ap (λ (f : IndexFile × Option Status). accepted_in (read_index ws f.0)) kept in
          omega (arith, grows i j q)
    ]

-- No call lowers the accepted revision.
accepted-le-after :
    (host : Host) (ws : String)
    → validate_workspace_id ws ≡ ok ws
    → (c : Call) (d : WorkspaceDir) → accepted_of ws d ≤ accepted_of ws (after host ws c d)
unfolding after
accepted-le-after host ws valid (upsert item revision) =
    Commits-accepted _ (upsert-Commits host ws ws valid item revision)
      λ i j q. omega (arith, q.accepted)
accepted-le-after host ws valid (delete path revision) =
    Commits-accepted _ (delete-Commits host ws ws valid path revision)
      λ i j q. omega (arith, q.accepted)
accepted-le-after host ws valid (apply_batch files deletes revision) =
    Commits-accepted _ (apply_batch-Commits host ws ws valid files deletes revision)
      λ i j q. omega (arith, q.accepted)
accepted-le-after host ws valid (mark_indexed revision coverage) =
    Commits-accepted _ (mark_indexed-Commits ws ws valid revision coverage)
      λ i j q. omega (arith, q.accepted)

-- `upsert` leaves the tombstone of its path standing: the path is then both a file and a deleted
-- path, which a batch never leaves behind.
upsert_keeps_tombstone :
    (host : Host) (ws : String)
    → validate_workspace_id ws ≡ ok ws
    → (item : FileItem) (revision : ℕ)
    → Commits ws
        (λ i j.
          (rel : String) × (normalized item.path ≡ ok rel)
          × (get j.deletes rel ≡ get i.deletes rel)
          × (get j.files rel ≢ none))
        (upsert_unlocked host ws item revision)
upsert_keeps_tombstone host ws valid item revision =
    Commits-weaken
      (λ i j q. (
        q.rec.path,
        q.named,
        ap (λ ds. get ds q.rec.path) q.deletes,
        λ e. cc (e, ap (λ fs. get fs q.rec.path) q.files, get-put_self i.files q.rec.path q.rec),
      ))
      (upsert-Commits host ws ws valid item revision)

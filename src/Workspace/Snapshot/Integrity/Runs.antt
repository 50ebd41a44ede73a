-- ===== src/Workspace/Snapshot/Integrity/Runs.antt =====
-- Integrity of a workspace's directory along any run of the store's writing methods, and what a
-- reader finds after a write.
use omnicode_mcp.Prelude.{ℕ, ◌≡◌, sym, ap, subst, ◌∙◌, inl, inr, String, Bool, List, [], ◌∷◌, arith}
use omnicode_mcp.Prelude.Eq.{string_eq}
use omnicode_mcp.Prelude.Dict.{get, get-put_cases, get-pop-some}
use omnicode_mcp.Prelude.Result.{ok}
use omnicode_mcp.Prelude.Exec.Rules.{leaves_rules, lift-bind}
use omnicode_mcp.Workspace.Snapshot.Types.{SnapshotRecord, Index, Host, WorkspaceDir, empty_dir}
use omnicode_mcp.Workspace.Snapshot.Index.{
  Act, set_accepted_revision, validate_workspace_id, mark_indexed_unlocked, record_coverage,
  choose_coverage, new_index,
}
use omnicode_mcp.Workspace.Snapshot.Objects.{FileItem, upsert_unlocked, delete_unlocked}
use omnicode_mcp.Workspace.Snapshot.Batch.{apply_batch_unlocked}
use omnicode_mcp.Workspace.Snapshot.Invariants.{
  Call, upsert, delete, apply_batch, mark_indexed, after, run, index_inj,
}
use omnicode_mcp.Workspace.Snapshot.Integrity.{
  Grows, HasContent, IsIntact, Keeps, Stable, HasContent-Grows, Keeps-bind, Keeps-weaken,
  Keeps-still, Keeps-pure, Keeps-load, Keeps-save,
}
use omnicode_mcp.Workspace.Snapshot.Integrity.Writes.{
  Keeps-store_file, Keeps-batch_files, Keeps-batch_deletes,
}
use omnicode_mcp.Workspace.Snapshot.Integrity.Kept.{
  stable_unit, stable_pair, files_Stable, tombstone-Leaves, delete_mirror-Leaves,
}

always_Stable : (host : Host) → Stable host (λ _. Unit {0})
always_Stable host a b g u = u

content_Stable : (host : Host) (rec : SnapshotRecord) → Stable host (λ o. HasContent host o rec)
content_Stable host rec a b g h = HasContent-Grows host g h

choose_coverage_files :
    (a b c d e : Bool) (i : Index) (coverage : String)
    → (choose_coverage a b c d e i coverage).files ≡ i.files
unfolding choose_coverage
choose_coverage_files a b c d e i coverage = ground arith

record_coverage_files :
    (i : Index) (coverage : String) → (record_coverage i coverage).files ≡ i.files
unfolding record_coverage
record_coverage_files i coverage = choose_coverage_files _ _ _ _ _ i coverage

module _ (host : Host) (ws : String) (valid : validate_workspace_id ws ≡ ok ws) where
  -- An action that keeps a directory intact, whatever its objects are.
  abbrev KeepsIntact : {A : Type 0} → Act A → Type 0
  KeepsIntact m = Keeps host ws (λ _. Unit {0}) (λ _ _. Unit {0}) m

  upsert-Keeps :
      (item : FileItem) (revision : ℕ) → KeepsIntact (upsert_unlocked host ws item revision)
  unfolding upsert_unlocked set_accepted_revision
  upsert-Keeps item revision =
      rw (valid, lift-bind)
        (Keeps-bind host _ _ _ (always_Stable host)
          (Keeps-store_file host revision item (always_Stable host))
          λ rec.
            Keeps-bind host _ _ _ (stable_pair host (always_Stable host) (content_Stable host rec))
              (Keeps-load host)
              λ i.
                Keeps-bind host _ _ _
                  (stable_pair host
                    (stable_pair host (always_Stable host) (content_Stable host rec))
                    (files_Stable host i))
                  (Keeps-save host _ λ o ((_, content), files) k r e.
                    elim (get-put_cases i.files rec.path k rec r e) [
                      | inl (_, same) ↦ subst (HasContent host o) same content
                      | inr before ↦ files k r before
                    ])
                  λ _. Keeps-pure host _ λ o _. tt)

  delete-Keeps :
      (path : String) (revision : ℕ) → KeepsIntact (delete_unlocked host ws path revision)
  unfolding delete_unlocked set_accepted_revision
  delete-Keeps path revision =
      rw (valid, lift-bind)
        (Keeps-bind host (λ _ _. Unit) _ _ (always_Stable host)
          (Keeps-still host _ (search leaves_rules))
          λ rel.
            Keeps-bind host _ _ _ (stable_unit host (always_Stable host)) (Keeps-load host) λ i.
              Keeps-bind host (λ _ _. Unit) _ _
                (stable_pair host (stable_unit host (always_Stable host)) (files_Stable host i))
                (Keeps-still host _ (tombstone-Leaves host rel revision))
                λ stone.
                  Keeps-bind host (λ _ _. Unit) _ _
                    (stable_unit host (
                      stable_pair host (stable_unit host (always_Stable host))
                        (files_Stable host i)))
                    (Keeps-still host _ (search (leaves_rules, delete_mirror-Leaves) depth 9))
                    λ _. Keeps-save host _ λ o (((_, files), _), _) k rec e.
                      files k rec (get-pop-some i.files rel k rec e))

  apply_batch-Keeps :
      (files : List FileItem) (deletes : List String) (revision : ℕ)
      → KeepsIntact (apply_batch_unlocked host ws files deletes revision)
  unfolding apply_batch_unlocked set_accepted_revision
  apply_batch-Keeps files deletes revision =
      rw (valid, lift-bind)
        (Keeps-bind host _ _ _ (always_Stable host) (Keeps-load host) λ i.
          Keeps-bind host _ _ _ (stable_pair host (always_Stable host) (files_Stable host i))
            (Keeps-weaken host _ (λ o (_, before). before)
              (Keeps-batch_files host revision files i []))
            λ out.
              Keeps-bind host _ _ _
                (stable_pair host (stable_pair host (always_Stable host) (files_Stable host i))
                  (files_Stable host out.0))
                (Keeps-weaken host _ (λ o (_, filled). filled)
                  (Keeps-batch_deletes host revision deletes out.0))
                λ j.
                  Keeps-bind host _ _ _
                    (stable_pair host
                      (stable_pair host
                        (stable_pair host (always_Stable host) (files_Stable host i))
                        (files_Stable host out.0))
                      (files_Stable host j))
                    (Keeps-save host _ λ o (_, emptied). emptied) λ _. Keeps-pure host _ λ o _. tt)

  mark_indexed-Keeps :
      (revision : ℕ) (coverage : String) → KeepsIntact (mark_indexed_unlocked ws revision coverage)
  unfolding mark_indexed_unlocked
  mark_indexed-Keeps revision coverage =
      rw (valid, lift-bind)
        (Keeps-bind host _ _ _ (always_Stable host) (Keeps-load host) λ i.
          Keeps-bind host (λ _ _. Unit) _ _
            (stable_pair host (always_Stable host) (files_Stable host i))
            (Keeps-still host _ (search leaves_rules))
            λ _.
              Keeps-bind host _ _ _
                (stable_unit host (stable_pair host (always_Stable host) (files_Stable host i)))
                (Keeps-save host _ λ o ((_, files), _) k rec e.
                  files k rec (sym (ap (λ fs. get fs k) (record_coverage_files _ _)) ∙ e))
                λ _. Keeps-pure host _ λ o _. tt)

  after-IsIntact :
      (c : Call) (d : WorkspaceDir)
      → IsIntact host ws d
      → IsIntact host ws (after host ws c d) × Grows d.objects (after host ws c d).objects
  unfolding after
  after-IsIntact (upsert item revision) d i =
      let (a, b, _) = (upsert-Keeps item revision).at d i tt in (a, b)
  after-IsIntact (delete path revision) d i =
      let (a, b, _) = (delete-Keeps path revision).at d i tt in (a, b)
  after-IsIntact (apply_batch files deletes revision) d i =
      let (a, b, _) = (apply_batch-Keeps files deletes revision).at d i tt in (a, b)
  after-IsIntact (mark_indexed revision coverage) d i =
      let (a, b, _) = (mark_indexed-Keeps revision coverage).at d i tt in (a, b)

  -- Along any calls, failed ones included, an intact directory stays intact: each object is named by
  -- the digest of its bytes, each record's object is there with the record's hash, and no object
  -- that was there is changed or lost.
  pub run-IsIntact :
      (cs : List Call) (d : WorkspaceDir)
      → IsIntact host ws d
      → IsIntact host ws (run host ws cs d) × Grows d.objects (run host ws cs d).objects
  unfolding run
  run-IsIntact [] d i = (i, λ o bytes e. e)
  run-IsIntact (c ∷ cs) d i =
      let (intact, grows) = after-IsIntact c d i in
      let (end, more) = run-IsIntact cs (after host ws c d) intact in
      (end, λ o bytes e. more o bytes (grows o bytes e))

pub empty-IsIntact : (host : Host) (ws : String) → IsIntact host ws empty_dir
unfolding get
empty-IsIntact host ws = record {
  addressed = λ o bytes e. cc;
  files = λ i e k rec p. cc (ap (λ (x : Index). get x.files k) (index_inj (new_index ws) i e));
}

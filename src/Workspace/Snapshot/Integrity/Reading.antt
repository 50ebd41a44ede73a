-- ===== src/Workspace/Snapshot/Integrity/Reading.antt =====
-- What a reader finds after a write.
use omnicode_mcp.Prelude.{
  ℕ, ◌≡◌, refl, sym, ap, ◌∙◌, Option, none, some, String, false, List, if◌then◌else◌,
}
use omnicode_mcp.Prelude.Eq.{string_eq, nat_eq}
use omnicode_mcp.Prelude.Dict.{Dict, get, put, get-put_self}
use omnicode_mcp.Prelude.Result.{Result, ok, raise}
use omnicode_mcp.Prelude.Text.{is_empty, ◌+++◌, append_inj}
use omnicode_mcp.Prelude.Exec.{pure, lift, continue, ◌>>=◌}
use omnicode_mcp.Prelude.Exec.Rules.{lift-bind}
use omnicode_mcp.Workspace.Snapshot.Types.{
  StoreError, SnapshotRecord, Index, stored, Host, WorkspaceDir,
}
use omnicode_mcp.Workspace.Snapshot.Index.{
  Act, load_index, save_index, set_accepted_revision, validate_workspace_id,
}
use omnicode_mcp.Workspace.Snapshot.Objects.{
  FileItem, encoded_or_raise, verify_content, object_rel, store_file, upsert_unlocked, read_object,
  read_text_unlocked,
}
use omnicode_mcp.Workspace.Snapshot.Commits.{
  Gives, Gives-any, Gives-lift, Gives-pure, Gives-bind, ok_inj,
}
use omnicode_mcp.Workspace.Snapshot.Integrity.{HasContent, IsIntact}
use omnicode_mcp.Workspace.Snapshot.Integrity.Writes.{Keeps-store_file}
use omnicode_mcp.Prelude.Newlines.{universal_newlines}

-- A step of a call that returned has returned itself.
bind_ok :
    {A B : Type 0} (m : Act A) (k : A → Act B) (d : WorkspaceDir) (b : B)
    → ((m >>= k) d).0 ≡ ok b
    → (a : A) × ((m d).0 ≡ ok a) × ((m >>= k) d ≡ k a (m d).1)
unfolding ◌>>=◌
bind_ok {A} m k d b e = go (m d).0 refl e
  where
    go :
        (r : Result StoreError A)
        → (m d).0 ≡ r
        → (continue r k (m d).1).0 ≡ ok b
        → (a : A) × ((m d).0 ≡ ok a) × (continue (m d).0 k (m d).1 ≡ k a (m d).1)
    go (ok a) same h = (a, same, ap (λ r. continue r k (m d).1) same)
    go (raise x) same h = cc

-- The record of a file: its hash and its object are those of the encoded content.
record Describes (host : Host) (item : FileItem) (rec : SnapshotRecord) : Type 0 where
  bytes : List ℕ
  encoded : host.encode item.encoding item.content ≡ some bytes
  hash : rec.hash ≡ "sha256:" +++ host.sha256 bytes
  object_path : rec.object_path ≡ object_rel (host.sha256 bytes)
  encoding : rec.encoding ≡ item.encoding

encoded_some :
    (found : Option (List ℕ)) (bytes : List ℕ)
    → encoded_or_raise found ≡ ok bytes
    → found ≡ some bytes
encoded_some none bytes e = cc
encoded_some (some b) bytes e =
    ap (λ (r : Result StoreError (List ℕ)). elim r [ ok x ↦ some x | raise _ ↦ some b ]) e

verify_content-Gives :
    (host : Host) (item : FileItem)
    → Gives
        (λ bytes. host.encode item.encoding item.content ≡ some bytes)
        (verify_content host item)
unfolding verify_content
verify_content-Gives host item =
    Gives-bind _ (lift (encoded_or_raise (host.encode item.encoding item.content))) _ (Gives-lift _)
      λ bytes e.
        Gives-bind (λ _. Unit {0}) _ _ Gives-any
          λ _ _.
            Gives-bind (λ _. Unit {0}) _ _ Gives-any λ _ _. Gives-pure _ (encoded_some _ bytes e)

store_file-Describes :
    (host : Host) (revision : ℕ) (item : FileItem)
    → Gives (Describes host item) (store_file host revision item)
unfolding store_file
store_file-Describes host revision item =
    Gives-bind (λ _. Unit {0}) _ _ Gives-any
      λ rel _. Gives-bind _ _ _ (verify_content-Gives host item) λ bytes encoded.
        Gives-bind (λ _. Unit {0}) _ _ Gives-any
          λ _ _.
            Gives-bind (λ _. Unit {0}) _ _ Gives-any
              λ m _.
                Gives-bind (λ _. Unit {0}) _ _ Gives-any
                  λ now _. Gives-pure _ (record {
                    bytes = bytes;
                    encoded = encoded;
                    hash = refl;
                    object_path = refl;
                    encoding = refl;
                  })

some_bytes : (a b : List ℕ) → some a ≡ some b → a ≡ b
some_bytes a b e = ap (λ (o : Option (List ℕ)). elim o [ some x ↦ x | none ↦ a ]) e

-- The encoding that a reader takes.
abbrev pub read_encoding : String → String
read_encoding encoding = if is_empty encoding then "utf-8" else encoding

module _ (host : Host) (unique : (a b : List ℕ) → host.sha256 a ≡ host.sha256 b → a ≡ b) where
  read_described :
      (item : FileItem) (rec : SnapshotRecord) (objects : Dict String (List ℕ))
      → (h : Describes host item rec) → HasContent host objects rec
      → read_object host objects (some rec)
        ≡ some (universal_newlines (host.decode (read_encoding item.encoding) h.bytes))
  unfolding read_object object_rel
  read_described item rec objects h c =
      let same : c.bytes ≡ h.bytes =
        unique c.bytes h.bytes (append_inj "sha256:" _ _ (sym c.hashed ∙ h.hash)) in
      let named : is_empty rec.object_path ≡ false = ap is_empty h.object_path in
      rw (named, c.present, h.encoding, same) refl

  -- The end of `_upsert_unlocked`, behind loading the index, and from loading it on.
  abbrev commit_to : String → ℕ → SnapshotRecord → Index → Act SnapshotRecord
  commit_to ws revision rec index =
      save_index ws
        (record (set_accepted_revision (record index { files = put index.files rec.path rec })
          revision) { workspace_id = ws })
      >>= λ _. pure rec

  abbrev commit : String → ℕ → SnapshotRecord → Act SnapshotRecord
  commit ws revision rec = load_index ws >>= commit_to ws revision rec

  upsert_run :
      (ws : String) (item : FileItem) (revision : ℕ)
      → validate_workspace_id ws ≡ ok ws
      → upsert_unlocked host ws item revision
        ≡ (store_file host revision item >>= commit ws revision)
  unfolding upsert_unlocked
  upsert_run ws item revision valid = rw (valid, lift-bind) refl

  load_same : (ws : String) (d : WorkspaceDir) → (load_index ws d).1 ≡ d
  unfolding load_index ◌>>=◌
  load_same ws d = refl

  committed :
      (ws : String) (revision : ℕ) (r : SnapshotRecord) (i : Index) (d : WorkspaceDir)
      → ((commit_to ws revision r i d).0 ≡ ok r)
        × ((j : Index) × ((commit_to ws revision r i d).1.index_file ≡ stored j)
            × (get j.files r.path ≡ some r))
        × ((commit_to ws revision r i d).1.objects ≡ d.objects)
  unfolding save_index set_accepted_revision ◌>>=◌
  committed ws revision r i d = (refl, (_, refl, get-put_self i.files r.path r), refl)

  -- A record that was committed is in the index, and the objects are those of before.
  record IsCommitted (r : SnapshotRecord) (objects : Dict String (List ℕ)) (d : WorkspaceDir)
      : Type 0 where
    index : Index
    held : d.index_file ≡ stored index
    found : get index.files r.path ≡ some r
    objects_same : d.objects ≡ objects

  commit_ok :
      (ws : String) (revision : ℕ) (r rec : SnapshotRecord) (d : WorkspaceDir)
      → (commit ws revision r d).0 ≡ ok rec
      → (r ≡ rec) × IsCommitted r d.objects (commit ws revision r d).1
  commit_ok ws revision r rec d h =
      let (i, _, run) = bind_ok (load_index ws) (commit_to ws revision r) d rec h in
      let run' = run ∙ ap (commit_to ws revision r i) (load_same ws d) in
      let (gave, (j, held, found), same) = committed ws revision r i d in
      let after = ap (λ (o : Result StoreError SnapshotRecord × WorkspaceDir). o.1) run' in
      (
        ok_inj r rec (
            sym (ap (λ (o : Result StoreError SnapshotRecord × WorkspaceDir). o.0) run' ∙ gave)
            ∙ h),
        record {
          index = j;
          held = ap (λ (x : WorkspaceDir). x.index_file) after ∙ held;
          found = found;
          objects_same = ap (λ (x : WorkspaceDir). x.objects) after ∙ same;
        },
      )

  read_committed :
      (ws : String) (r : SnapshotRecord) (objects : Dict String (List ℕ)) (d : WorkspaceDir)
      → IsCommitted r objects d
      → (read_text_unlocked host ws r.path d).0 ≡ ok (read_object host objects (some r))
  unfolding read_text_unlocked load_index ◌>>=◌
  read_committed ws r objects d c = rw (c.held, c.found, c.objects_same) refl

  -- In an intact directory, and where no two contents have one digest: after an upsert that returned
  -- a record, reading the record's path gives the content back, encoded and decoded, with "\n" for each end
  -- of a line.
  pub read_text-upsert :
      (ws : String)
      → validate_workspace_id ws ≡ ok ws
      → (item : FileItem) (revision : ℕ) (rec : SnapshotRecord) (bytes : List ℕ) (d : WorkspaceDir)
      → IsIntact host ws d
      → host.encode item.encoding item.content ≡ some bytes
      → (upsert_unlocked host ws item revision d).0 ≡ ok rec
      → (read_text_unlocked host ws rec.path (upsert_unlocked host ws item revision d).1).0
        ≡ ok (some (universal_newlines (host.decode (read_encoding item.encoding) bytes)))
  read_text-upsert ws valid item revision rec bytes d intact encoded returned =
      let run = ap (λ (m : Act SnapshotRecord). m d) (upsert_run ws item revision valid) in
      let returned' =
        sym (ap (λ (o : Result StoreError SnapshotRecord × WorkspaceDir). o.0) run) ∙ returned in
      let (r, stored_ok, ran) =
        bind_ok (store_file host revision item) (commit ws revision) d rec returned' in
      let whole = run ∙ ran in
      let d₁ = (store_file host revision item d).1 in
      let (same, committed_r) =
        commit_ok ws revision r rec d₁ (
          sym (ap (λ (o : Result StoreError SnapshotRecord × WorkspaceDir). o.0) ran)
          ∙ returned') in
      let described = (store_file-Describes host revision item).at d r stored_ok in
      let (_, _, content) =
        (Keeps-store_file host {ws = ws} {Pre = λ _. Unit {0}} revision item (λ a b g u. u)).at d
          intact tt in
      let bytes_same : described.bytes ≡ bytes =
        some_bytes described.bytes bytes (sym described.encoded ∙ encoded) in
      ap
        (λ (q : SnapshotRecord).
          (read_text_unlocked host ws q.path (upsert_unlocked host ws item revision d).1).0)
        (sym same)
      ∙ ap
          (λ (o : Result StoreError SnapshotRecord × WorkspaceDir).
            (read_text_unlocked host ws r.path o.1).0)
          whole
      ∙ read_committed ws r d₁.objects (commit ws revision r d₁).1 committed_r
      ∙ ap ok (read_described item r d₁.objects described (content r stored_ok))
      ∙ ap
          (λ (b : List ℕ).
            ok (some (universal_newlines (host.decode (read_encoding item.encoding) b))))
          bytes_same

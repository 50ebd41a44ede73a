-- ===== src/Workspace/Snapshot/Integrity.antt =====
-- Content addressing: an object's name is the digest of its bytes, and every record of the index
-- points to an object with the record's hash.
pub mod Kept
pub mod Writes
pub mod Runs
pub mod Reading
use omnicode_mcp.Prelude.{
  ℕ, ◌≡◌, refl, sym, ap, subst, ◌∙◌, ◌⊎◌, inl, inr, Option, none, some, String, Bool, true, false,
  not, List, [], ◌∷◌, ◌++◌, arith, Option-cases, Bool-cases, if◌then◌else◌,
}
use omnicode_mcp.Prelude.Eq.{Eq, ◌==◌, string_eq}
use omnicode_mcp.Prelude.Dict.{Dict, get, has, put, pop, get-put, get-pop, has-get, get-put_self}
use omnicode_mcp.Prelude.Result.{Result, ok, raise}
use omnicode_mcp.Prelude.Text.{◌+++◌, append_inj}
use omnicode_mcp.Prelude.Exec.{Exec, pure, lift, gets, guard, when, modify, continue, ◌>>=◌}
use omnicode_mcp.Prelude.Exec.Rules.{Leaves, leaves_rules, Leaves-modify, lift-bind}
use omnicode_mcp.Workspace.Snapshot.Types.{
  StoreError, SnapshotRecord, Tombstone, Index, IndexFile, Host, WorkspaceDir, empty_dir,
}
use omnicode_mcp.Workspace.Snapshot.Index.{
  Act, read_index, load_index, save_index, utc_now, set_accepted_revision, validate_workspace_id,
}
use omnicode_mcp.Workspace.Snapshot.Objects.{
  FileItem, verify_content, store_object, object_rel, check_mirror, write_mirror, delete_mirror,
  materialize, store_file, tombstone, normalized, upsert_unlocked, delete_unlocked,
}
use omnicode_mcp.Workspace.Snapshot.Commits.{ok_inj}
use omnicode_mcp.Workspace.Snapshot.Invariants.{index_inj}
use omnicode_mcp.Workspace.Snapshot.Batch.{
  add_record, add_tombstone, batch_files, batch_deletes, apply_batch_unlocked,
  with_default_encoding,
}

abbrev pub Objects : Type 0
Objects = Dict String (List ℕ)

-- The part of a directory that integrity is about.
abbrev pub core : WorkspaceDir → IndexFile × Objects
core d = (d.index_file, d.objects)

-- No object that is there is changed or lost.
abbrev pub Grows : Objects → Objects → Type 0
Grows a b = (o : String) (bytes : List ℕ) → get a o ≡ some bytes → get b o ≡ some bytes

module _ (host : Host) where
  abbrev pub IsAddressed : Objects → Type 0
  IsAddressed objects =
      (o : String) (bytes : List ℕ)
      → get objects o ≡ some bytes
      → o ≡ object_rel (host.sha256 bytes)

  -- The record's object is there, and its bytes have the record's hash.
  pub record HasContent (objects : Objects) (rec : SnapshotRecord) : Type 0 where
    pub bytes : List ℕ
    pub present : get objects rec.object_path ≡ some bytes
    pub hashed : rec.hash ≡ "sha256:" +++ host.sha256 bytes

  abbrev pub FilesHaveContent : Index → Objects → Type 0
  FilesHaveContent i objects =
      (k : String) (rec : SnapshotRecord) → get i.files k ≡ some rec → HasContent objects rec

  pub record IsIntactCore (ws : String) (c : IndexFile × Objects) : Type 0 where
    pub addressed : IsAddressed c.1
    pub files : (i : Index) → read_index ws c.0 ≡ ok i → FilesHaveContent i c.1

  abbrev pub IsIntact : String → WorkspaceDir → Type 0
  IsIntact ws d = IsIntactCore ws (core d)

  pub HasContent-Grows :
      {a b : Objects} {rec : SnapshotRecord} → Grows a b → HasContent a rec → HasContent b rec
  HasContent-Grows g h = record {
    bytes = h.bytes;
    present = g _ h.bytes h.present;
    hashed = h.hashed;
  }

  -- `m` keeps the directory intact and its objects; what it returns meets `Post`.
  pub record Keeps {A : Type 0} (ws : String) (Pre : Objects → Type 0) (Post : Objects → A → Type 0)
      (m : Act A) : Type 0 where
    pub at :
        (d : WorkspaceDir)
        → IsIntact ws d
        → Pre d.objects
        → IsIntact ws (m d).1
          × Grows d.objects (m d).1.objects
          × ((a : A) → (m d).0 ≡ ok a → Post (m d).1.objects a)

  abbrev pub Stable : (Objects → Type 0) → Type 0
  Stable P = (a b : Objects) → Grows a b → P a → P b

  module _ {ws : String} where
    Keeps-after :
        {A B : Type 0} {Pre : Objects → Type 0} (P : Objects → A → Type 0)
        {Q : Objects → B → Type 0} (k : A → Act B) (r : Result StoreError A) (d₀ d : WorkspaceDir)
        → Pre d.objects
        → IsIntact ws d
        → Grows d₀.objects d.objects
        → ((a : A) → r ≡ ok a → P d.objects a)
        → ((a : A) → Keeps ws (λ o. Pre o × P o a) Q (k a))
        → IsIntact ws (continue r k d).1
          × Grows d₀.objects (continue r k d).1.objects
          × ((b : B) → (continue r k d).0 ≡ ok b → Q (continue r k d).1.objects b)
    Keeps-after P k (raise e) d₀ d pre i g p h = (i, g, λ b e. cc)
    Keeps-after P k (ok a) d₀ d pre i g p h =
        let (intact, grows, post) = (h a).at d i (pre, p a refl) in
        (intact, λ o bytes e. grows o bytes (g o bytes e), post)

    pub Keeps-bind :
        {A B : Type 0} {Pre : Objects → Type 0} (P : Objects → A → Type 0)
        {Q : Objects → B → Type 0} (m : Act A) (k : A → Act B)
        → Stable Pre
        → Keeps ws Pre P m
        → ((a : A) → Keeps ws (λ o. Pre o × P o a) Q (k a))
        → Keeps ws Pre Q (m >>= k)
    unfolding ◌>>=◌
    Keeps-bind P m k stable hm hk = record {
      at = λ d i pre.
          let (intact, grows, post) = hm.at d i pre in
          Keeps-after P k (m d).0 d (m d).1 (stable d.objects (m d).1.objects grows pre) intact
            grows post hk;
    }

    pub Keeps-weaken :
        {A : Type 0} {Pre' : Objects → Type 0} {Q : Objects → A → Type 0} {Pre : Objects → Type 0}
        (m : Act A)
        → ((o : Objects) → Pre' o → Pre o)
        → Keeps ws Pre Q m
        → Keeps ws Pre' Q m
    Keeps-weaken m f h = record { at = λ d i pre. h.at d i (f d.objects pre) }

    -- An action that writes neither objects nor the index.
    pub Keeps-still :
        {A : Type 0} {Pre : Objects → Type 0} (m : Act A)
        → Leaves core m
        → Keeps ws Pre (λ _ _. Unit) m
    Keeps-still m l = record {
      at = λ d i pre.
          let same = l.at d in
          let objects = ap (λ (c : IndexFile × Objects). c.1) same in
          (
            subst (IsIntactCore ws) (sym same) i,
            λ o bytes e. subst (λ (x : Objects). get x o ≡ some bytes) (sym objects) e,
            λ _ _. tt,
          );
    }

    pub Keeps-pure :
        {A : Type 0} {Pre : Objects → Type 0} {Q : Objects → A → Type 0} (a : A)
        → ((o : Objects) → Pre o → Q o a)
        → Keeps ws Pre Q (pure a)
    unfolding pure
    Keeps-pure {Q} a h = record {
      at = λ d i pre.
          (i, λ o bytes e. e, λ b e. subst (Q d.objects) (ok_inj a b e) (h d.objects pre));
    }

    pub Keeps-load :
        {Pre : Objects → Type 0} → Keeps ws Pre (λ o i. FilesHaveContent i o) (load_index ws)
    unfolding load_index ◌>>=◌
    Keeps-load = record { at = λ d i pre. (i, λ o bytes e. e, λ j e. i.files j e) }

    pub Keeps-save :
        {Pre : Objects → Type 0} (i : Index)
        → ((o : Objects) → Pre o → FilesHaveContent i o)
        → Keeps ws Pre (λ _ _. Unit) (save_index ws i)
    unfolding save_index modify
    Keeps-save i h = record {
      at = λ d intact pre. (
        record {
          addressed = intact.addressed;
          files =
              λ j e. subst (λ x. FilesHaveContent x d.objects) (index_inj i j e) (h d.objects pre);
        },
        λ o bytes e. e,
        λ _ _. tt,
      );
    }

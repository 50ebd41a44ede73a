-- ===== src/Workspace/Snapshot/Integrity/Writes.antt =====
-- The writing operations keep a workspace's objects and records intact.
use omnicode_mcp.Prelude.{
  ℕ, ◌≡◌, refl, sym, ap, subst, ◌∙◌, inl, inr, Option, none, some, String, List, [], ◌∷◌, ◌++◌,
  arith, Option-cases,
}
use omnicode_mcp.Prelude.Eq.{string_eq}
use omnicode_mcp.Prelude.Dict.{
  get, put, get-put, has-get, get-put_self, get-put_cases, get-pop-some,
}
use omnicode_mcp.Prelude.Text.{◌+++◌, append_inj}
use omnicode_mcp.Prelude.Exec.{◌>>=◌}
use omnicode_mcp.Prelude.Exec.Rules.{leaves_rules}
use omnicode_mcp.Workspace.Snapshot.Types.{SnapshotRecord, Index, Host, WorkspaceDir}
use omnicode_mcp.Workspace.Snapshot.Objects.{FileItem, store_object, object_rel, store_file}
use omnicode_mcp.Workspace.Snapshot.Batch.{
  add_record, add_tombstone, batch_files, batch_deletes, with_default_encoding,
}
use omnicode_mcp.Workspace.Snapshot.Integrity.{
  Objects, Grows, IsAddressed, HasContent, FilesHaveContent, IsIntact, Keeps, Stable,
  HasContent-Grows, Keeps-bind, Keeps-weaken, Keeps-still, Keeps-pure,
}
use omnicode_mcp.Workspace.Snapshot.Integrity.Kept.{
  utc_now-Leaves, verify_content-Leaves, delete_mirror-Leaves, materialize-Leaves, tombstone-Leaves,
  stable_pair, stable_unit, stored_Stable, files_Stable, add_record_content,
}

object_rel_inj : (a b : String) → object_rel a ≡ object_rel b → a ≡ b
unfolding object_rel
object_rel_inj a b e = append_inj "objects/sha256/" a b e

Grows-put :
    (objects : Objects) (o : String) (bytes : List ℕ)
    → get objects o ≡ none
    → Grows objects (put objects o bytes)
Grows-put objects o bytes absent p b e =
    ground (arith, get-put objects o p bytes, string_eq.same_iff o p)

store_object_lem :
    (o : String) (bytes : List ℕ) (d : WorkspaceDir)
    → (store_object o bytes d).1
      ≡ elim (get d.objects o) [ none ↦ record d { objects = put d.objects o bytes } | some _ ↦ d ]
unfolding store_object ◌>>=◌
store_object_lem o bytes d = elim (Option-cases (get d.objects o)) [
  | inl none_there ↦ rw (has-get d.objects o, none_there)
  | inr (b, there) ↦ rw (has-get d.objects o, there)
]

module _ (host : Host) where
  IsAddressed-put :
      (objects : Objects) (bytes : List ℕ)
      → IsAddressed host objects
      → IsAddressed host (put objects (object_rel (host.sha256 bytes)) bytes)
  IsAddressed-put objects bytes h o b e =
      elim (get-put_cases objects (object_rel (host.sha256 bytes)) o bytes b e) [
        | inl (same, kept) ↦ sym same ∙ ap (λ x. object_rel (host.sha256 x)) kept
        | inr before ↦ h o b before
      ]

  module _ {ws : String} where
    stored_object :
        (bytes : List ℕ) (d : WorkspaceDir) (found : Option (List ℕ))
        → get d.objects (object_rel (host.sha256 bytes)) ≡ found
        → IsIntact host ws d
        → (d' : WorkspaceDir)
        → d' ≡ elim found [
          | none ↦ record d { objects = put d.objects (object_rel (host.sha256 bytes)) bytes }
          | some _ ↦ d
        ]
        → IsIntact host ws d'
          × Grows d.objects d'.objects
          × ((b : List ℕ) × (get d'.objects (object_rel (host.sha256 bytes)) ≡ some b)
              × (host.sha256 bytes ≡ host.sha256 b))
    stored_object bytes d none absent i d' e =
        let grows = Grows-put d.objects (object_rel (host.sha256 bytes)) bytes absent in
        subst
          (λ x.
            IsIntact host ws x
            × Grows d.objects x.objects
            × ((b : List ℕ) × (get x.objects (object_rel (host.sha256 bytes)) ≡ some b)
                × (host.sha256 bytes ≡ host.sha256 b)))
          (sym e)
          (
            record {
              addressed = IsAddressed-put d.objects bytes i.addressed;
              files = λ j r k rec p. HasContent-Grows host grows (i.files j r k rec p);
            },
            grows,
            (bytes, get-put_self d.objects (object_rel (host.sha256 bytes)) bytes, refl),
          )
    stored_object bytes d (some b) present i d' e =
        subst
          (λ x.
            IsIntact host ws x
            × Grows d.objects x.objects
            × ((c : List ℕ) × (get x.objects (object_rel (host.sha256 bytes)) ≡ some c)
                × (host.sha256 bytes ≡ host.sha256 c)))
          (sym e) (i, λ o c h. h, (b, present, object_rel_inj _ _ (i.addressed _ b present)))

    pub Keeps-store_object :
        {Pre : Objects → Type 0} (bytes : List ℕ)
        → Keeps host ws Pre
            (λ o _.
              (b : List ℕ) × (get o (object_rel (host.sha256 bytes)) ≡ some b)
              × (host.sha256 bytes ≡ host.sha256 b))
            (store_object (object_rel (host.sha256 bytes)) bytes)
    Keeps-store_object bytes = record {
      at = λ d i _.
          let (intact, grows, there) =
            stored_object bytes d (get d.objects (object_rel (host.sha256 bytes))) refl i
              (store_object (object_rel (host.sha256 bytes)) bytes d).1
              (store_object_lem (object_rel (host.sha256 bytes)) bytes d) in
          (intact, grows, λ _ _. there);
    }

module _ (host : Host) where
  module _ {ws : String} where
    -- The bytes of a file's object are there under its record.
    pub Keeps-store_file :
        {Pre : Objects → Type 0} (revision : ℕ) (item : FileItem)
        → Stable host Pre
        → Keeps host ws Pre (λ o rec. HasContent host o rec) (store_file host revision item)
    unfolding store_file
    Keeps-store_file revision item stable =
        Keeps-bind host (λ _ _. Unit) _ _ stable (Keeps-still host _ (search leaves_rules))
          λ rel.
            Keeps-bind host (λ _ _. Unit) _ _ (stable_unit host stable)
              (Keeps-still host _ (verify_content-Leaves host item))
              λ bytes.
                Keeps-bind host _ _ _ (stable_unit host (stable_unit host stable))
                  (Keeps-store_object host bytes)
                  λ _.
                    Keeps-bind host (λ _ _. Unit) _ _
                      (stable_pair host (stable_unit host (stable_unit host stable))
                        (stored_Stable host _ _))
                      (Keeps-still host _ (materialize-Leaves host rel bytes))
                      λ mirror.
                        Keeps-bind host (λ _ _. Unit) _ _
                          (stable_unit host (
                            stable_pair host (stable_unit host (stable_unit host stable))
                              (stored_Stable host _ _)))
                          (Keeps-still host _ (utc_now-Leaves host))
                          λ now. Keeps-pure host _ λ o (((_, (b, there, same)), _), _). record {
                            bytes = b;
                            present = there;
                            hashed = ap (λ d. "sha256:" +++ d) same;
                          }

    pub Keeps-batch_files :
        (revision : ℕ) (items : List FileItem) (i : Index) (records : List SnapshotRecord)
        → Keeps host ws
            (λ o. FilesHaveContent host i o)
            (λ o r. FilesHaveContent host r.0 o)
            (batch_files host revision i records items)
    unfolding batch_files
    Keeps-batch_files revision [] i records = Keeps-pure host _ λ o pre. pre
    Keeps-batch_files revision (item ∷ items) i records =
        Keeps-bind host _ _ _ (files_Stable host i)
          (Keeps-store_file revision (with_default_encoding item) (files_Stable host i))
          λ rec.
            Keeps-weaken host _
              (λ o (files, content). add_record_content host i rec o files content)
              (Keeps-batch_files revision items (add_record i rec) (records ++ rec ∷ []))

    pub Keeps-batch_deletes :
        (revision : ℕ) (paths : List String) (i : Index)
        → Keeps host ws
            (λ o. FilesHaveContent host i o)
            (λ o r. FilesHaveContent host r o)
            (batch_deletes host revision i paths)
    unfolding batch_deletes add_tombstone
    Keeps-batch_deletes revision [] i = Keeps-pure host _ λ o pre. pre
    Keeps-batch_deletes revision (path ∷ paths) i =
        Keeps-bind host (λ _ _. Unit) _ _ (files_Stable host i)
          (Keeps-still host _ (search leaves_rules))
          λ rel.
            Keeps-bind host (λ _ _. Unit) _ _ (stable_unit host (files_Stable host i))
              (Keeps-still host _ (tombstone-Leaves host rel revision))
              λ stone.
                Keeps-bind host (λ _ _. Unit) _ _
                  (stable_unit host (stable_unit host (files_Stable host i)))
                  (Keeps-still host _ (search (leaves_rules, delete_mirror-Leaves host) depth 9))
                  λ _.
                    Keeps-weaken host _
                      (λ o (((files, _), _), _) k rec e.
                        files k rec (get-pop-some i.files rel k rec e))
                      (Keeps-batch_deletes revision paths (add_tombstone i rel stone))

-- ===== src/Workspace/Snapshot/Effect.antt =====
-- What a batch and a single operation do to the index, over whole inputs.
use omnicode_mcp.Prelude.{
  ℕ, ◌≡◌, refl, ◌⊎◌, none, String, Bool, true, false, List, [], ◌∷◌, ◌++◌, any, arith,
  if◌then◌else◌,
}
use omnicode_mcp.Prelude.Eq.{◌==◌, string_eq}
use omnicode_mcp.Prelude.Dict.{get, has, get-put, get-pop, has-put, has-pop}
use omnicode_mcp.Prelude.Result.{ok, raise}
use omnicode_mcp.Prelude.Exec.{lift}
use omnicode_mcp.Workspace.Snapshot.Types.{SnapshotRecord, Tombstone, Index, Host}
use omnicode_mcp.Workspace.Snapshot.Objects.{FileItem, normalized, store_file}
use omnicode_mcp.Workspace.Snapshot.Batch.{
  add_record, add_tombstone, batch_files, batch_deletes, with_default_encoding,
}
use omnicode_mcp.Workspace.Snapshot.Commits.{
  Gives, Gives-any, Gives-lift, Gives-pure, Gives-bind, Gives-weaken,
}

-- No path is both a file and a tombstone.
abbrev pub IsDisjoint : Index → Type 0
IsDisjoint i = (k : String) → (get i.files k ≡ none) ⊎ (get i.deletes k ≡ none)

-- The path text names the normalised path `k`.
abbrev pub names : String → String → Bool
names path k = elim (normalized path) [ ok rel ↦ rel == k | raise _ ↦ false ]

abbrev pub item_names : String → FileItem → Bool
item_names k item = names item.path k

-- Whether `k` is a live file after a batch, from whether it was one before.
abbrev pub live_after : List FileItem → List String → Bool → String → Bool
live_after files deletes before k =
    if any (λ path. names path k) deletes
    then false
    else if any (item_names k) files
    then true
    else before

-- The effect on the index in memory: the revisions stay, the files and tombstones are kept apart.
pub record KeepsIndex (i j : Index) : Type 0 where
  pub accepted : j.accepted_revision ≡ i.accepted_revision
  pub indexed : j.indexed_revision ≡ i.indexed_revision
  pub disjoint : IsDisjoint i → IsDisjoint j

pub KeepsIndex-refl : (i : Index) → KeepsIndex i i
KeepsIndex-refl i = record { accepted = refl; indexed = refl; disjoint = λ h. h }

KeepsIndex-trans : {i j k : Index} → KeepsIndex i j → KeepsIndex j k → KeepsIndex i k
KeepsIndex-trans a b = record {
  accepted = omega arith;
  indexed = omega arith;
  disjoint = λ h. b.disjoint (a.disjoint h);
}

add_record-KeepsIndex : (i : Index) (rec : SnapshotRecord) → KeepsIndex i (add_record i rec)
unfolding add_record
add_record-KeepsIndex i rec = record {
  accepted = refl;
  indexed = refl;
  disjoint =
      λ h k. ground (arith, h k, get-put i.files rec.path k rec, get-pop i.deletes rec.path k);
}

add_tombstone-KeepsIndex :
    (i : Index) (rel : String) (stone : Tombstone) → KeepsIndex i (add_tombstone i rel stone)
unfolding add_tombstone
add_tombstone-KeepsIndex i rel stone = record {
  accepted = refl;
  indexed = refl;
  disjoint = λ h k. ground (arith, h k, get-pop i.files rel k, get-put i.deletes rel k stone);
}

-- The record of a stored file carries the normalised path and the revision.
pub store_file-Gives :
    (host : Host) (revision : ℕ) (item : FileItem)
    → Gives
        (λ rec. (normalized item.path ≡ ok rec.path) × (rec.revision ≡ revision))
        (store_file host revision item)
unfolding store_file
store_file-Gives host revision item =
    Gives-bind _ (lift (normalized item.path)) _ (Gives-lift _) λ rel e.
      Gives-bind (λ _. Unit {0}) _ _ Gives-any
        λ encoded _.
          Gives-bind (λ _. Unit {0}) _ _ Gives-any
            λ _ _.
              Gives-bind (λ _. Unit {0}) _ _ Gives-any
                λ m _. Gives-bind (λ _. Unit {0}) _ _ Gives-any λ now _. Gives-pure _ (e, refl)

names-normalized : (path rel k : String) → normalized path ≡ ok rel → names path k ≡ (rel == k)
names-normalized path rel k e = rw (e, names)

with_file :
    (item : FileItem) (items : List FileItem) (i : Index) (rec : SnapshotRecord)
    → normalized item.path ≡ ok rec.path
    → (k : String) (j : Index)
    → has j.files k ≡ (if any (item_names k) items then true else has (add_record i rec).files k)
    → has j.files k ≡ (if any (item_names k) (item ∷ items) then true else has i.files k)
unfolding add_record
with_file item items i rec e k j h =
    ground (arith, names-normalized item.path rec.path k e, has-put i.files rec.path k rec)

with_stone :
    (path : String) (paths : List String) (i : Index) (rel : String) (stone : Tombstone)
    → normalized path ≡ ok rel
    → (k : String) (j : Index)
    → has j.files k
      ≡ (if any (λ p. names p k) paths then false else has (add_tombstone i rel stone).files k)
    → has j.files k ≡ (if any (λ p. names p k) (path ∷ paths) then false else has i.files k)
unfolding add_tombstone
with_stone path paths i rel stone e k j h =
    ground (arith, names-normalized path rel k e, has-pop i.files rel k)

module _ (host : Host) (revision : ℕ) where
  pub batch_files-Gives :
      (items : List FileItem) (i : Index) (records : List SnapshotRecord)
      → Gives
          (λ out.
            KeepsIndex i out.0
            × ((k : String)
                → has out.0.files k ≡ (if any (item_names k) items then true else has i.files k)))
          (batch_files host revision i records items)
  unfolding batch_files
  batch_files-Gives [] i records = Gives-pure _ (KeepsIndex-refl i, λ k. refl)
  batch_files-Gives (item ∷ items) i records =
      Gives-bind _ _ _ (store_file-Gives host revision (with_default_encoding item)) λ rec named.
        Gives-weaken
          (λ out h. (
            KeepsIndex-trans (add_record-KeepsIndex i rec) h.0,
            λ k. with_file item items i rec named.0 k (out.0) (h.1 k),
          ))
          (batch_files-Gives items (add_record i rec) (records ++ rec ∷ []))

  pub batch_deletes-Gives :
      (paths : List String) (i : Index)
      → Gives
          (λ j.
            KeepsIndex i j
            × ((k : String)
                → has j.files k
                  ≡ (if any (λ path. names path k) paths then false else has i.files k)))
          (batch_deletes host revision i paths)
  unfolding batch_deletes
  batch_deletes-Gives [] i = Gives-pure _ (KeepsIndex-refl i, λ k. refl)
  batch_deletes-Gives (path ∷ paths) i =
      Gives-bind _ _ _ (Gives-lift (normalized path)) λ rel named.
        Gives-bind (λ _. Unit {0}) _ _ Gives-any
          λ stone _.
            Gives-bind (λ _. Unit {0}) _ _ Gives-any
              λ _ _.
                Gives-weaken
                  (λ j h. (
                    KeepsIndex-trans (add_tombstone-KeepsIndex i rel stone) h.0,
                    λ k. with_stone path paths i rel stone named k j (h.1 k),
                  ))
                  (batch_deletes-Gives paths (add_tombstone i rel stone))

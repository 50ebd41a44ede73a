-- ===== src/Workspace/Snapshot/Outcomes.antt =====
-- What a batch, an upsert, a delete and a mark_indexed promise of the index.
use omnicode_mcp.Prelude.{
  ℕ, max, ◌≤◌, ◌≡◌, refl, String, Bool, true, false, List, any, arith, ltb, if◌then◌else◌,
}
use omnicode_mcp.Prelude.Eq.{string_eq}
use omnicode_mcp.Prelude.Dict.{has, put, pop}
use omnicode_mcp.Prelude.Result.{ok}
use omnicode_mcp.Workspace.Snapshot.Types.{SnapshotRecord, Tombstone, Index}
use omnicode_mcp.Workspace.Snapshot.Index.{set_accepted_revision, choose_coverage, record_coverage}
use omnicode_mcp.Workspace.Snapshot.Objects.{FileItem, normalized}
use omnicode_mcp.Workspace.Snapshot.Effect.{IsDisjoint, names, item_names, live_after, KeepsIndex}

-- The index `j` follows `i` after a batch at the given revision.
pub record BatchEffect (revision : ℕ) (files : List FileItem) (deletes : List String) (i j : Index)
    : Type 0 where
  pub accepted : j.accepted_revision ≡ max i.accepted_revision revision
  pub latest : j.latest_revision ≡ j.accepted_revision
  pub indexed : j.indexed_revision ≡ i.indexed_revision
  pub disjoint : IsDisjoint i → IsDisjoint j
  pub live : (k : String) → has j.files k ≡ live_after files deletes (has i.files k) k

pub batch_effect :
    {revision : ℕ} {files : List FileItem} {deletes : List String} (i f j : Index) (ws : String)
    → KeepsIndex i f
      × ((k : String) → has f.files k ≡ (if any (item_names k) files then true else has i.files k))
    → KeepsIndex f j
      × ((k : String)
          → has j.files k ≡ (if any (λ path. names path k) deletes then false else has f.files k))
    → BatchEffect revision files deletes i
        (record (set_accepted_revision j revision) { workspace_id = ws })
unfolding set_accepted_revision
batch_effect i f j ws filled emptied = record {
  accepted = ground (arith, filled.0.accepted, emptied.0.accepted);
  latest = refl;
  indexed = ground (arith, filled.0.indexed, emptied.0.indexed);
  disjoint = λ h. emptied.0.disjoint (filled.0.disjoint h);
  live = λ k. rw (emptied.1 k, filled.1 k);
}

-- The index after `upsert` of one file.
pub record UpsertEffect (item : FileItem) (revision : ℕ) (i j : Index) : Type 0 where
  pub rec : SnapshotRecord
  pub named : normalized item.path ≡ ok rec.path
  pub stamped : rec.revision ≡ revision
  pub files : j.files ≡ put i.files rec.path rec
  pub deletes : j.deletes ≡ i.deletes
  pub accepted : j.accepted_revision ≡ max i.accepted_revision revision
  pub latest : j.latest_revision ≡ j.accepted_revision
  pub indexed : j.indexed_revision ≡ i.indexed_revision

-- The index after `delete` of one path.
pub record DeleteEffect (path : String) (revision : ℕ) (i j : Index) : Type 0 where
  pub rel : String
  pub stone : Tombstone
  pub named : normalized path ≡ ok rel
  pub files : j.files ≡ pop i.files rel
  pub deletes : j.deletes ≡ put i.deletes rel stone
  pub accepted : j.accepted_revision ≡ max i.accepted_revision revision
  pub latest : j.latest_revision ≡ j.accepted_revision
  pub indexed : j.indexed_revision ≡ i.indexed_revision

-- The index after `mark_indexed`.
pub record MarkEffect (revision : ℕ) (i j : Index) : Type 0 where
  pub within : revision ≤ i.accepted_revision
  pub indexed : j.indexed_revision ≡ max i.indexed_revision revision
  pub accepted : j.accepted_revision ≡ i.accepted_revision
  pub latest : j.latest_revision ≡ i.latest_revision
  pub files : j.files ≡ i.files
  pub deletes : j.deletes ≡ i.deletes

-- The coverage fields are all that `record_coverage` changes.
pub record SameButCoverage (i j : Index) : Type 0 where
  pub indexed : j.indexed_revision ≡ i.indexed_revision
  pub accepted : j.accepted_revision ≡ i.accepted_revision
  pub latest : j.latest_revision ≡ i.latest_revision
  pub files : j.files ≡ i.files
  pub deletes : j.deletes ≡ i.deletes

choose_coverage-SameButCoverage :
    (a b c d e : Bool) (i : Index) (coverage : String)
    → SameButCoverage i (choose_coverage a b c d e i coverage)
unfolding choose_coverage
choose_coverage-SameButCoverage a b c d e i coverage = record {
  indexed = ground arith;
  accepted = ground arith;
  latest = ground arith;
  files = ground arith;
  deletes = ground arith;
}

record_coverage-SameButCoverage :
    (i : Index) (coverage : String) → SameButCoverage i (record_coverage i coverage)
unfolding record_coverage
record_coverage-SameButCoverage i coverage = choose_coverage-SameButCoverage _ _ _ _ _ i coverage

pub upsert_effect :
    (item : FileItem) (revision : ℕ) (i : Index) (rec : SnapshotRecord) (ws : String)
    → (normalized item.path ≡ ok rec.path) × (rec.revision ≡ revision)
    → UpsertEffect item revision i
        (record (set_accepted_revision (record i { files = put i.files rec.path rec }) revision) {
          workspace_id = ws;
        })
unfolding set_accepted_revision
upsert_effect item revision i rec ws named = record {
  rec = rec;
  named = named.0;
  stamped = named.1;
  files = refl;
  deletes = refl;
  accepted = refl;
  latest = refl;
  indexed = refl;
}

pub delete_effect :
    (path : String) (revision : ℕ) (i : Index) (rel : String) (stone : Tombstone) (ws : String)
    → normalized path ≡ ok rel
    → DeleteEffect path revision i
        (record (set_accepted_revision
          (record i { files = pop i.files rel; deletes = put i.deletes rel stone })
          revision) { workspace_id = ws })
unfolding set_accepted_revision
delete_effect path revision i rel stone ws named = record {
  rel = rel;
  stone = stone;
  named = named;
  files = refl;
  deletes = refl;
  accepted = refl;
  latest = refl;
  indexed = refl;
}

pub mark_effect :
    (i : Index) (coverage : String) (revision : ℕ) (ws : String)
    → ltb i.accepted_revision revision ≡ false
    → MarkEffect revision i (
        record_coverage
          (record i { indexed_revision = max i.indexed_revision revision; workspace_id = ws })
          coverage)
mark_effect i coverage revision ws within =
    let marked = record i {
      indexed_revision = max i.indexed_revision revision;
      workspace_id = ws;
    } in
    let same = record_coverage-SameButCoverage marked coverage in
    record {
      within = ground arith;
      indexed = same.indexed;
      accepted = same.accepted;
      latest = same.latest;
      files = same.files;
      deletes = same.deletes;
    }

-- ===== src/Workspace/Queue/Lost.antt =====
-- A change that is marked while its batch is under way, in `mark_accepted`.

use omnicode_mcp.Prelude.{
  ℕ, ◌≡◌, refl, sym, ap, ◌∙◌, inl, inr, String, Bool, true, false, not, ◌||◌, Option, none, some,
  List, [], ◌∷◌, keep, All, Bool-cases, arith, length, ltb,
}
use omnicode_mcp.Prelude.Eq.{◌==◌, string_eq, eq_of_beq}
use omnicode_mcp.Prelude.Dict.{get, get-put_self}
use omnicode_mcp.Prelude.Result.{Result, ok}
use omnicode_mcp.Prelude.Exec.{◌>>=◌}
use omnicode_mcp.Workspace.Path.{PathError}
use omnicode_mcp.Workspace.Manifest.{
  regular, Local, to_relative, to_absolute, FileMeta, PendingItem, Manifest, Settings, is_ignored,
  has_nul, mark_changed, queue_change, record_entry, record_content, ManifestChange,
}
use omnicode_mcp.Workspace.Manifest.Consistent.{hash_in, hash_at}
use omnicode_mcp.Workspace.Queue.{SyncBatch, paths, among, mark_accepted}
use omnicode_mcp.Workspace.Queue.Accepted.{set_uploaded-hash, drop_deleted-hash}

-- The path is not ignored, and it is a regular file that the manifest takes.
pub record IsTracked (local : Local) (settings : Settings) (path rel : String) (content : List ℕ)
    (mtime_ms : ℕ) : Type 0 where
  pub target : String
  pub located : to_relative local path ≡ ok rel
  pub watched : is_ignored settings rel ≡ ok false
  pub resolved : to_absolute local rel ≡ ok target
  pub there : local.look target ≡ regular content mtime_ms
  pub small : (ltb settings.max_file_bytes (length content) || has_nul content) ≡ false

mark_changed_tracked :
    (local : Local) (settings : Settings) (path rel : String) (content : List ℕ) (mtime_ms : ℕ)
    → IsTracked local settings path rel content mtime_ms
    → (force : Bool) (m : Manifest)
    → mark_changed local settings path force m ≡ record_content local rel force content mtime_ms m
unfolding mark_changed record_entry ◌>>=◌
mark_changed_tracked local settings path rel content mtime_ms t force m =
    rw (t.located, t.watched, t.resolved, t.there, t.small)

known_content :
    (local : Local) (rel : String) (content : List ℕ) (mtime_ms : ℕ) (m : Manifest)
    → hash_at (record_content local rel false content mtime_ms m).1.files rel
      ≡ some (local.sha256_bytes content)
unfolding record_content queue_change ◌>>=◌
known_content local rel content mtime_ms m = go (get m.files rel) refl
  where
    same_hash :
        (meta : FileMeta)
        → (meta.hash == local.sha256_bytes content) ≡ true
        → meta.hash ≡ local.sha256_bytes content
    same_hash meta e = ground (arith, string_eq.same_iff meta.hash (local.sha256_bytes content))

    go :
        (found : Option FileMeta)
        → get m.files rel ≡ found
        → hash_at (record_content local rel false content mtime_ms m).1.files rel
          ≡ some (local.sha256_bytes content)
    go none e = rw e (ap hash_in (get-put_self m.files rel _))
    go (some meta) e = elim (Bool-cases (meta.hash == local.sha256_bytes content)) [
      | inl holds ↦
          rw (e, holds) (ap hash_in (get-put_self m.files rel _) ∙ ap some (same_hash meta holds))
      | inr fails ↦ rw (e, fails) (ap hash_in (get-put_self m.files rel _))
    ]

unchanged_content :
    (local : Local) (rel : String) (content : List ℕ) (mtime_ms : ℕ) (m : Manifest)
    (found : Option FileMeta)
    → get m.files rel ≡ found
    → hash_at m.files rel ≡ some (local.sha256_bytes content)
    → (record_content local rel false content mtime_ms m).0 ≡ ok none
unfolding record_content ◌>>=◌
unchanged_content local rel content mtime_ms m none e h = cc
unchanged_content local rel content mtime_ms m (some meta) e h =
    rw (e, same (sym (ap hash_in e) ∙ h))
  where
    same :
        some meta.hash ≡ some (local.sha256_bytes content)
        → (meta.hash == local.sha256_bytes content) ≡ true
    same e = ground (arith, string_eq.same_iff meta.hash (local.sha256_bytes content), e)

unsent_differs :
    (p rel : String) (ps : List String)
    → among rel ps ≡ true
    → among p ps ≡ false
    → (p == rel) ≡ false
unsent_differs p rel ps sent unsent = elim (Bool-cases (p == rel)) [
  | inl holds ↦ cc (ap (λ x. among x ps) (eq_of_beq p rel holds), sent, unsent)
  | inr fails ↦ fails
]

kept_unsent :
    (rel : String) (ps : List String) (items : List PendingItem)
    → among rel ps ≡ true
    → All (λ item. (item.path == rel) ≡ false) (keep (λ item. not (among item.path ps)) items)
unfolding keep
kept_unsent rel ps [] sent = tt
kept_unsent rel ps (item ∷ items) sent = elim (Bool-cases (among item.path ps)) [
  | inl holds ↦ rw holds (kept_unsent rel ps items sent)
  | inr fails ↦ rw fails (unsent_differs item.path rel ps sent fails, kept_unsent rel ps items sent)
]

-- A change that is marked while a batch with an older version of the same file is under way: the
-- acknowledgement of the batch takes the change out of the queue, and marking the path again, with
-- the same content on the disk, queues nothing.
pub acknowledged_loses_change :
    (local : Local) (settings : Settings) (path rel : String) (content : List ℕ) (mtime_ms : ℕ)
    → IsTracked local settings path rel content mtime_ms
    → (batch : SyncBatch) (accepted indexed : Option ℕ) → among rel (paths batch) ≡ true
    → among rel batch.deletes ≡ false
    → (m : Manifest)
    → All
        (λ item. (item.path == rel) ≡ false)
        (mark_accepted batch accepted indexed (mark_changed local settings path false m).1).pending
      × ((mark_changed local settings path false
            (mark_accepted batch accepted indexed (mark_changed local settings path false m).1)).0
          ≡ ok none)
unfolding mark_accepted
acknowledged_loses_change local settings path rel content mtime_ms t batch accepted indexed sent
      live m =
    let known =
      drop_deleted-hash batch.deletes _ rel live
      ∙ set_uploaded-hash _ batch.files _ rel
      ∙ ap (λ (r : Result PathError (Option ManifestChange) × Manifest). hash_at r.1.files rel)
          (mark_changed_tracked local settings path rel content mtime_ms t false m)
      ∙ known_content local rel content mtime_ms m in
    (
      kept_unsent rel (paths batch) (mark_changed local settings path false m).1.pending sent,
      ap (λ (r : Result PathError (Option ManifestChange) × Manifest). r.0)
            (mark_changed_tracked local settings path rel content mtime_ms t false _)
          ∙ unchanged_content local rel content mtime_ms _ _ refl known,
    )

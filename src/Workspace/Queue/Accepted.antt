-- ===== src/Workspace/Queue/Accepted.antt =====
-- What an acknowledgement of the server does to the manifest.
use omnicode_mcp.Prelude.Keep.{All-keep}
use omnicode_mcp.Prelude.{
  ℕ, ◌≡◌, refl, ap, ◌∙◌, inl, inr, String, Bool, true, false, not, Option, none, some, List, [],
  ◌∷◌, ◌++◌, map, Bool-cases, arith,
}
use omnicode_mcp.Prelude.Eq.{◌==◌, string_eq}
use omnicode_mcp.Prelude.Dict.{Dict, get, put, pop, get-put, get-pop}
use omnicode_mcp.Workspace.Manifest.{Local, FileMeta, Manifest, Settings, mark_changed, new_data}
use omnicode_mcp.Workspace.Manifest.Consistent.{
  hash_in, hash_at, Agrees, IsConsistent, Distinct-keep, mark_changed-IsConsistent,
}
use omnicode_mcp.Workspace.Queue.{
  SyncFile, SyncBatch, paths, among, set_uploaded, drop_deleted, mark_accepted,
}

not-true : (b : Bool) → not b ≡ true → b ≡ false
not-true true h = cc
not-true false h = refl

among_back : (p : String) (xs ys : List String) → among p (xs ++ ys) ≡ false → among p ys ≡ false
unfolding among
among_back p [] ys h = h
among_back p (x ∷ xs) ys h = elim (Bool-cases (x == p)) [
  | inl holds ↦ cc (h, holds)
  | inr fails ↦ among_back p xs ys (ground (arith, h, fails))
]

set_uploaded_step :
    (accepted : ℕ) (fs : List SyncFile) (path q : String) (files : Dict String FileMeta)
    → ((rest : Dict String FileMeta) → hash_at (set_uploaded accepted fs rest) q ≡ hash_at rest q)
    → (found : Option FileMeta) → get files path ≡ found
    → hash_at
        (elim found [
          | none ↦ set_uploaded accepted fs files
          | some meta ↦
              set_uploaded accepted fs
                (put files path (record meta { last_uploaded_revision = accepted }))
        ])
        q
      ≡ hash_at files q
set_uploaded_step accepted fs path q files h none e = h files
set_uploaded_step accepted fs path q files h (some meta) e =
    let marked = record meta { last_uploaded_revision = accepted } in
    h (put files path marked)
    ∙ ground (arith, get-put files path q marked, string_eq.same_iff path q)

pub set_uploaded-hash :
    (accepted : ℕ) (fs : List SyncFile) (files : Dict String FileMeta) (q : String)
    → hash_at (set_uploaded accepted fs files) q ≡ hash_at files q
unfolding set_uploaded
set_uploaded-hash accepted [] files q = refl
set_uploaded-hash accepted (f ∷ fs) files q =
    set_uploaded_step accepted fs f.path q files (λ rest. set_uploaded-hash accepted fs rest q)
      (get files f.path) refl

pub drop_deleted-hash :
    (ds : List String) (files : Dict String FileMeta) (q : String)
    → among q ds ≡ false
    → hash_at (drop_deleted ds files) q ≡ hash_at files q
unfolding drop_deleted among
drop_deleted-hash [] files q h = refl
drop_deleted-hash (d ∷ ds) files q h = elim (Bool-cases (d == q)) [
  | inl holds ↦ cc (h, holds)
  | inr fails ↦
      drop_deleted-hash ds (pop files d) q (ground (arith, h, fails))
      ∙ ap hash_in (get-pop files d q ∙ (rw fails))
]

module _ (batch : SyncBatch) (accepted_revision indexed_revision : Option ℕ) (m : Manifest) where
  -- An acknowledgement keeps the queue and the files of the manifest in agreement.
  pub mark_accepted-IsConsistent :
      IsConsistent m → IsConsistent (mark_accepted batch accepted_revision indexed_revision m)
  unfolding mark_accepted paths
  mark_accepted-IsConsistent h = record {
    distinct = Distinct-keep _ m.pending h.distinct;
    agrees =
        All-keep (Agrees m.files) _ _ m.pending
          (λ item e a. (
            drop_deleted-hash batch.deletes _ item.path (
                  among_back item.path (map (λ f. f.path) batch.files) batch.deletes (not-true _ e))
                ∙ set_uploaded-hash _ batch.files m.files item.path
                ∙ a.0,
            a.1,
          ))
          h.agrees;
  }

-- One thing that happens to a manifest: a path is marked as changed, the files standing as `local`
-- says, or the server acknowledges a batch.
pub data Event : Type 0 where
  changed : Local → String → Bool → Event
  acknowledged : SyncBatch → Option ℕ → Option ℕ → Event

unfoldable pub happen : Settings → List Event → Manifest → Manifest
happen settings [] m = m
happen settings (changed local path force ∷ events) m =
    happen settings events (mark_changed local settings path force m).1
happen settings (acknowledged batch accepted indexed ∷ events) m =
    happen settings events (mark_accepted batch accepted indexed m)

happen-IsConsistent :
    (settings : Settings) (events : List Event) (m : Manifest)
    → IsConsistent m
    → IsConsistent (happen settings events m)
unfolding happen
happen-IsConsistent settings [] m h = h
happen-IsConsistent settings (changed local path force ∷ events) m h =
    happen-IsConsistent settings events _ (mark_changed-IsConsistent local settings path force m h)
happen-IsConsistent settings (acknowledged batch accepted indexed ∷ events) m h =
    happen-IsConsistent settings events _ (mark_accepted-IsConsistent batch accepted indexed m h)

-- From a new manifest, after any changes of the files and any acknowledgements, for any batches: no
-- two pending items have one path, a pending upsert has the hash that the manifest has for its
-- path, and a pending delete's path has no entry.
pub happen_new-IsConsistent :
    (settings : Settings) (workspace_id client_id : String) (events : List Event)
    → IsConsistent (happen settings events (new_data workspace_id client_id))
happen_new-IsConsistent settings workspace_id client_id events =
    happen-IsConsistent settings events _ (record { distinct = tt; agrees = tt })

-- ===== src/Workspace/Snapshot/Integrity/Kept.antt =====
-- What the steps of an operation leave alone, and what stays true as objects are added.
use omnicode_mcp.Prelude.{ℕ, ◌≡◌, refl, subst, inl, inr, some, String, List}
use omnicode_mcp.Prelude.Eq.{string_eq}
use omnicode_mcp.Prelude.Dict.{get, get-put_cases}
use omnicode_mcp.Prelude.Exec.{◌>>=◌}
use omnicode_mcp.Prelude.Exec.Rules.{Leaves, leaves_rules, Leaves-modify}
use omnicode_mcp.Workspace.Snapshot.Types.{SnapshotRecord, Index, Host}
use omnicode_mcp.Workspace.Snapshot.Index.{utc_now}
use omnicode_mcp.Workspace.Snapshot.Objects.{
  FileItem, verify_content, check_mirror, write_mirror, delete_mirror, materialize, tombstone,
}
use omnicode_mcp.Workspace.Snapshot.Batch.{add_record}
use omnicode_mcp.Workspace.Snapshot.Integrity.{
  Objects, core, HasContent, FilesHaveContent, Stable, HasContent-Grows,
}

module _ (host : Host) where
  pub utc_now-Leaves : Leaves core (utc_now host)
  unfolding utc_now ◌>>=◌
  utc_now-Leaves = record { at = λ d. refl }

  pub verify_content-Leaves : (item : FileItem) → Leaves core (verify_content host item)
  unfolding verify_content
  verify_content-Leaves item = search leaves_rules depth 9

  check_mirror-Leaves : (path : String) → Leaves core (check_mirror host path)
  unfolding check_mirror
  check_mirror-Leaves path = search leaves_rules depth 9

  write_mirror-Leaves :
      (path : String) (bytes : List ℕ) → Leaves core (write_mirror host path bytes)
  unfolding write_mirror
  write_mirror-Leaves path bytes = search (leaves_rules, Leaves-modify, check_mirror-Leaves) depth 9

  pub delete_mirror-Leaves : (path : String) → Leaves core (delete_mirror host path)
  unfolding delete_mirror
  delete_mirror-Leaves path = search (leaves_rules, Leaves-modify, check_mirror-Leaves) depth 9

  pub materialize-Leaves :
      (rel : String) (bytes : List ℕ) → Leaves core (materialize host rel bytes)
  unfolding materialize
  materialize-Leaves rel bytes = search (leaves_rules, write_mirror-Leaves) depth 9

  pub tombstone-Leaves : (rel : String) (revision : ℕ) → Leaves core (tombstone host rel revision)
  unfolding tombstone
  tombstone-Leaves rel revision = search (leaves_rules, utc_now-Leaves) depth 9

  pub stable_pair :
      {P Q : Objects → Type 0} → Stable host P → Stable host Q → Stable host (λ o. P o × Q o)
  stable_pair p q a b g (x, y) = (p a b g x, q a b g y)

  pub stable_unit : {P : Objects → Type 0} → Stable host P → Stable host (λ o. P o × Unit {0})
  stable_unit p a b g (x, _) = (p a b g x, tt)

  pub stored_Stable :
      (o : String) (h : List ℕ → Type 0)
      → Stable host (λ x. (b : List ℕ) × (get x o ≡ some b) × h b)
  stored_Stable o h a b g (bytes, there, rest) = (bytes, g o bytes there, rest)

  pub files_Stable : (i : Index) → Stable host (λ o. FilesHaveContent host i o)
  files_Stable i a b g files k rec e = HasContent-Grows host g (files k rec e)

  pub add_record_content :
      (i : Index) (rec : SnapshotRecord) (o : Objects)
      → FilesHaveContent host i o
      → HasContent host o rec
      → FilesHaveContent host (add_record i rec) o
  unfolding add_record
  add_record_content i rec o files content k r e = elim (get-put_cases i.files rec.path k rec r e) [
    | inl (_, same) ↦ subst (HasContent host o) same content
    | inr before ↦ files k r before
  ]

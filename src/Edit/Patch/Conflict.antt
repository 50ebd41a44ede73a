-- ===== src/Edit/Patch/Conflict.antt =====
-- An edit behind a preview: what the recorded baseline lets through.
use omnicode_mcp.Prelude.{ℕ, ◌≡◌, ◌≢◌, ◌⊎◌, inl, inr, String, Bool-cases, none, some, List}
use omnicode_mcp.Prelude.Eq.{◌==◌, string_eq, eq_of_beq, ne_of_beq}
use omnicode_mcp.Prelude.Dict.{Dict, get, get-put_self, get-pop_self}
use omnicode_mcp.Edit.Patch.{
  Host, Store, conflict, is_some, hash_text, resolve, text_or_empty, preview_key,
  record_preview_baseline, preview_patch, preview_conflict, write_patch, apply_patch, with_folder,
}

module _ (host : Host) (file_path new_content source : String) (metadata : Dict String String)
    (s : Store) (disk : Dict String (List ℕ)) where
  abbrev text_before : String
  text_before = text_or_empty host (get s.disk (resolve host file_path))

  abbrev text_now : String
  text_now = text_or_empty host (get disk (resolve host file_path))

  abbrev store_now : Store
  store_now = record (preview_patch host file_path new_content s).1 { disk = disk }

  baseline_found :
      get store_now.previews (preview_key host file_path new_content)
      ≡ some (record {
        file_path = file_path;
        original_hash = hash_text host text_before;
        new_hash = hash_text host new_content;
        file_existed = is_some (get s.disk (resolve host file_path));
        timestamp = host.now s.count;
      })
  unfolding preview_patch record_preview_baseline
  baseline_found = get-put_self s.previews (preview_key host file_path new_content) _

  -- An edit after a preview of the same content, the files having changed or not. Where the file's
  -- text has the hash that the preview saw, the new content is written and the baseline is gone;
  -- where it has another hash, the edit reports the two hashes and changes nothing, but that it
  -- makes the folder of a file that is not there.
  pub apply_after_preview :
      ((hash_text host text_before ≡ hash_text host text_now)
        × (get
              (apply_patch host file_path new_content source metadata store_now).1.disk
              (resolve host file_path)
            ≡ some (host.encode new_content))
        × (get
              (apply_patch host file_path new_content source metadata store_now).1.previews
              (preview_key host file_path new_content)
            ≡ none))
      ⊎ ((hash_text host text_before ≢ hash_text host text_now)
          × (apply_patch host file_path new_content source metadata store_now ≡ (
            conflict (hash_text host text_before) (hash_text host text_now),
            with_folder host file_path store_now,
          )))
  unfolding apply_patch preview_conflict write_patch with_folder
  apply_after_preview = elim (Bool-cases (hash_text host text_before == hash_text host text_now)) [
    | inl holds ↦ inl (
      eq_of_beq _ _ holds,
      rw (baseline_found, holds)
          (get-put_self disk (resolve host file_path) (host.encode new_content)),
      rw (baseline_found, holds)
          (get-pop_self store_now.previews (preview_key host file_path new_content)),
    )
    | inr fails ↦ inr (ne_of_beq _ _ fails, rw (baseline_found, fails))
  ]

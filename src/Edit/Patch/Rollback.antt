-- ===== src/Edit/Patch/Rollback.antt =====
-- What `rollback_patch` restores, whatever happened since the edit.
use omnicode_mcp.Prelude.{
  ℕ, ◌≡◌, refl, sym, ap, subst, String, true, false, Option, none, some, List, All, arith,
}
use omnicode_mcp.Prelude.Eq.{string_eq}
use omnicode_mcp.Prelude.Dict.{Dict, get, put, get-put_self}
use omnicode_mcp.Edit.Patch.{
  Host, EditSession, Store, already_rolled_back, rolled_back, read, resolve, text_or_empty,
  preview_conflict, new_session, write_patch, apply_patch, with_folder, rollback_session,
  rollback_patch, preview_key,
}
use omnicode_mcp.Prelude.Newlines.{universal_newlines}
use omnicode_mcp.Edit.Patch.Newlines.{universal_newlines_twice}
use omnicode_mcp.Edit.Patch.Held.{Step, steps, Spares, IsKeyed, put-IsKeyed, Holds, steps-Holds}

-- A session that is held and stands as applied is rolled back to the text of its snapshot, once.
roll_held :
    (host : Host) (n : ℕ) (session : EditSession) (text : String) (s : Store)
    → host.decode (host.encode text) ≡ some text
    → Holds host n session (host.encode text) s
    → session.applied ≡ true
    → session.rolled_back ≡ false
    → universal_newlines text ≡ text
    → ((rollback_patch host (host.uuid n) s).0 ≡ rolled_back (host.uuid n) session.file_path)
      × (get (rollback_patch host (host.uuid n) s).1.disk (resolve host session.file_path)
          ≡ some (host.encode text))
      × ((rollback_patch host (host.uuid n) (rollback_patch host (host.uuid n) s).1).0
          ≡ already_rolled_back)
unfolding rollback_patch
roll_held host n session text s round_trip h is_applied fresh normal =
    rw (h.session_there, fresh, is_applied, h.snapshot_there, round_trip, normal)
      (
        refl,
        get-put_self s.disk (resolve host session.file_path) (host.encode text),
        ap
            (λ (o : Option EditSession).
              (rollback_session host (host.uuid n)
                (record s {
                  disk = put s.disk (resolve host session.file_path) (host.encode text);
                  sessions =
                      put s.sessions session.session_id
                        (record session { applied = true; rolled_back = true });
                })
                o).0)
            (subst
              (λ k.
                get (put s.sessions k (record session { applied = true; rolled_back = true }))
                  (host.uuid n)
                ≡ some (record session { applied = true; rolled_back = true }))
              (sym (h.keyed (host.uuid n) session h.session_there))
              (get-put_self s.sessions (host.uuid n)
                (record session { applied = true; rolled_back = true }))),
      )

text_normal :
    (host : Host) (found : Option (List ℕ))
    → universal_newlines (text_or_empty host found) ≡ text_or_empty host found
unfolding read universal_newlines
text_normal host none = refl
text_normal host (some bytes) = universal_newlines_twice (host.decode_ignore bytes)

module _ (host : Host) (unique : (a b : ℕ) → host.uuid a ≡ host.uuid b → a ≡ b) where
  edited-Holds :
      (s : Store) (file_path original new_content source : String) (metadata : Dict String String)
      → IsKeyed s.sessions
      → Holds host s.count
          (new_session host file_path original new_content source metadata s)
          (host.encode original)
          (write_patch host file_path original new_content source metadata s)
  unfolding write_patch new_session
  edited-Holds s file_path original new_content source metadata keyed = record {
    session_there = get-put_self s.sessions (host.uuid s.count) _;
    snapshot_there = get-put_self s.snapshots (host.uuid s.count) (host.encode original);
    used = omega arith;
    keyed =
        put-IsKeyed s.sessions (new_session host file_path original new_content source metadata s)
          keyed;
  }

  -- Where no two uuids agree and the snapshot's codec gives the text of the file back: an edit that
  -- was not refused is rolled back by its session's id whatever happened since, except
  -- a rollback of that session: the call reports the rollback, the file then holds the text that the
  -- edit had read, empty for a file that was not there, and a second rollback is refused. No
  -- change of the file in between is looked at.
  pub rollback_restores :
      (s : Store) (file_path new_content source : String) (metadata : Dict String String)
      (xs : List Step)
      → IsKeyed s.sessions
      → preview_conflict host
          (text_or_empty host (get s.disk (resolve host file_path)))
          (get s.previews (preview_key host file_path new_content))
        ≡ none
      → All (Spares (host.uuid s.count)) xs
      → host.decode (host.encode (text_or_empty host (get s.disk (resolve host file_path))))
        ≡ some (text_or_empty host (get s.disk (resolve host file_path)))
      → ((rollback_patch host
            (host.uuid s.count)
            (steps host xs (apply_patch host file_path new_content source metadata s).1)).0
          ≡ rolled_back (host.uuid s.count) file_path)
        × (get
              (rollback_patch host
                (host.uuid s.count)
                (steps host xs (apply_patch host file_path new_content source metadata s).1)).1.disk
              (resolve host file_path)
            ≡ some (host.encode (text_or_empty host (get s.disk (resolve host file_path)))))
        × ((rollback_patch host
              (host.uuid s.count)
              (rollback_patch host
                (host.uuid s.count)
                (steps host xs (apply_patch host file_path new_content source metadata s).1)).1).0
            ≡ already_rolled_back)
  unfolding apply_patch new_session with_folder
  rollback_restores s file_path new_content source metadata xs keyed clear spared round_trip =
      let original = text_or_empty host (get s.disk (resolve host file_path)) in
      let held = steps-Holds host unique s.count _ _ xs _ spared (
        edited-Holds (with_folder host file_path s) file_path original new_content source metadata
          keyed) in
      rw clear (
        roll_held host s.count
          (new_session host file_path original new_content source metadata
            (with_folder host file_path s))
          original _ round_trip held refl refl
          (text_normal host (get s.disk (resolve host file_path))))

-- ===== src/Edit/Patch/Held.antt =====
-- Calls and other programs between an edit and its rollback, and what they leave of its session.
use omnicode_mcp.Prelude.{
  ℕ, ◌<◌, ◌≡◌, ◌≢◌, refl, sym, ap, ◌∙◌, inl, inr, String, Bool, true, false, not, Option, none,
  some, List, [], ◌∷◌, All, arith, if◌then◌else◌,
}
use omnicode_mcp.Prelude.Eq.{string_eq}
use omnicode_mcp.Prelude.Dict.{Dict, get, put, pop, get-put, get-put_cases}
use omnicode_mcp.Edit.Patch.{
  Host, EditSession, Store, PatchResult, already_rolled_back, never_applied,
  record_preview_baseline, preview_patch, new_session, write_patch, finish_patch, apply_patch,
  with_folder, restore_text, restore_snapshot, rollback_session, rollback_patch,
}

-- What may happen between an edit and its rollback: calls of the manager, and other programs that
-- write and remove files.
pub data Step : Type 0 where
  previewed : String → String → Step
  edited : String → String → String → Dict String String → Step
  rolled : String → Step
  written : String → List ℕ → Step
  removed : String → Step

unfoldable pub step : Host → Step → Store → Store
step host (previewed file_path new_content) s = (preview_patch host file_path new_content s).1
step host (edited file_path new_content source metadata) s =
    (apply_patch host file_path new_content source metadata s).1
step host (rolled session_id) s = (rollback_patch host session_id s).1
step host (written path bytes) s = record s { disk = put s.disk path bytes }
step host (removed path) s = record s { disk = pop s.disk path }

unfoldable pub steps : Host → List Step → Store → Store
steps host [] s = s
steps host (x ∷ xs) s = steps host xs (step host x s)

-- The step is no rollback of the session.
abbrev pub Spares : String → Step → Type 0
Spares session_id (rolled other) = other ≢ session_id
Spares session_id _ = Unit

-- A session is filed under its own id.
abbrev pub IsKeyed : Dict String EditSession → Type 0
IsKeyed sessions = (sid : String) (x : EditSession) → get sessions sid ≡ some x → x.session_id ≡ sid

pub put-IsKeyed :
    (sessions : Dict String EditSession) (session : EditSession)
    → IsKeyed sessions
    → IsKeyed (put sessions session.session_id session)
put-IsKeyed sessions session h sid x e =
    elim (get-put_cases sessions session.session_id sid session x e) [
      | inl (same, kept) ↦ sym (ap (λ (y : EditSession). y.session_id) kept) ∙ same
      | inr before ↦ h sid x before
    ]

put_other :
    {V : Type 0} (d : Dict String V) (k j : String) (v w : V)
    → k ≢ j
    → get d j ≡ some w
    → get (put d k v) j ≡ some w
put_other d k j v w n h = ground (arith, get-put d k j v, string_eq.same_iff k j, h)

-- The store holds the session and its snapshot, and its uuid is used up.
pub record Holds (host : Host) (n : ℕ) (session : EditSession) (bytes : List ℕ) (s : Store)
    : Type 0 where
  pub session_there : get s.sessions (host.uuid n) ≡ some session
  pub snapshot_there : get s.snapshots (host.uuid n) ≡ some bytes
  pub used : n < s.count
  pub keyed : IsKeyed s.sessions

module _ (host : Host) (unique : (a b : ℕ) → host.uuid a ≡ host.uuid b → a ≡ b) (n : ℕ)
    (session : EditSession) (bytes : List ℕ) where
  other_uuid : (k : ℕ) → n < k → host.uuid k ≢ host.uuid n
  other_uuid k l e = let same = unique k n e in omega arith

  finish-Holds :
      (file_path original new_content source : String) (metadata : Dict String String) (s : Store)
      (refused : Option PatchResult)
      → Holds host n session bytes s
      → Holds host n session bytes
          (finish_patch host file_path original new_content source metadata s refused).1
  unfolding write_patch new_session
  finish-Holds file_path original new_content source metadata s (some r) h = h
  finish-Holds file_path original new_content source metadata s none h = record {
    session_there = put_other s.sessions _ _ _ session (other_uuid s.count h.used) h.session_there;
    snapshot_there = put_other s.snapshots _ _ _ bytes (other_uuid s.count h.used) h.snapshot_there;
    used = omega (arith, h.used);
    keyed =
        put-IsKeyed s.sessions (new_session host file_path original new_content source metadata s)
          h.keyed;
  }

  folder-Holds :
      (file_path : String) (s : Store)
      → Holds host n session bytes s
      → Holds host n session bytes (with_folder host file_path s)
  unfolding with_folder
  folder-Holds file_path s h = record {
    session_there = h.session_there;
    snapshot_there = h.snapshot_there;
    used = h.used;
    keyed = h.keyed;
  }

  restore-Holds :
      (sid : String) (x : EditSession) (s : Store) (text : Option String)
      → sid ≢ host.uuid n
      → x.session_id ≡ sid
      → Holds host n session bytes s
      → Holds host n session bytes (restore_text host sid x s text).1
  restore-Holds sid x s none other own h = h
  restore-Holds sid x s (some t) other own h = record {
    session_there =
        put_other s.sessions x.session_id _ _ session (λ e. other (sym own ∙ e)) h.session_there;
    snapshot_there = h.snapshot_there;
    used = h.used;
    keyed = put-IsKeyed s.sessions (record x { rolled_back = true }) h.keyed;
  }

  rollback-Holds :
      (sid : String) (s : Store) (found : Option EditSession)
      → get s.sessions sid ≡ found
      → sid ≢ host.uuid n
      → Holds host n session bytes s
      → Holds host n session bytes (rollback_session host sid s found).1
  rollback-Holds sid s none e other h = h
  rollback-Holds sid s (some x) e other h = go x.rolled_back x.applied (get s.snapshots sid)
    where
      go :
          (a b : Bool) (snapshot : Option (List ℕ))
          → Holds host n session bytes
              (if a
                then (already_rolled_back, s)
                else if not b
                then (never_applied, s)
                else restore_snapshot host sid x s snapshot).1
      go true b snapshot = h
      go false false snapshot = h
      go false true none = h
      go false true (some image) =
          restore-Holds sid x s (host.decode image) other (h.keyed sid x e) h

  step-Holds :
      (x : Step) (s : Store)
      → Spares (host.uuid n) x
      → Holds host n session bytes s
      → Holds host n session bytes (step host x s)
  unfolding step preview_patch record_preview_baseline apply_patch rollback_patch
  step-Holds (previewed file_path new_content) s spared h = record {
    session_there = h.session_there;
    snapshot_there = h.snapshot_there;
    used = h.used;
    keyed = h.keyed;
  }
  step-Holds (edited file_path new_content source metadata) s spared h =
      finish-Holds file_path _ new_content source metadata (with_folder host file_path s) _
        (folder-Holds file_path s h)
  step-Holds (rolled sid) s spared h = rollback-Holds sid s (get s.sessions sid) refl spared h
  step-Holds (written path image) s spared h = record {
    session_there = h.session_there;
    snapshot_there = h.snapshot_there;
    used = h.used;
    keyed = h.keyed;
  }
  step-Holds (removed path) s spared h = record {
    session_there = h.session_there;
    snapshot_there = h.snapshot_there;
    used = h.used;
    keyed = h.keyed;
  }

  pub steps-Holds :
      (xs : List Step) (s : Store)
      → All (Spares (host.uuid n)) xs
      → Holds host n session bytes s
      → Holds host n session bytes (steps host xs s)
  unfolding steps
  steps-Holds [] s spared h = h
  steps-Holds (x ∷ xs) s spared h =
      steps-Holds xs (step host x s) spared.1 (step-Holds x s spared.0 h)

-- ===== src/Examples/Reading.antt =====
-- A file is written and read back, with an injective digest.
use omnicode_mcp.Prelude.{
  ℕ, zero, suc, ◌≡◌, refl, ap, none, some, String, Bool, false, List, [], ◌∷◌, if◌then◌else◌,
}
use omnicode_mcp.Prelude.Eq.{◌==◌, string_eq}
use omnicode_mcp.Prelude.Result.{ok}
use omnicode_mcp.Prelude.Text.{strip, is_empty, starts_with_char}
use omnicode_mcp.Workspace.Snapshot.{
  Host, FileItem, SnapshotRecord, empty_dir, validate_workspace_id, upsert_unlocked,
  read_text_unlocked, store_file, normalized, verify_content, expected_digest, store_object,
  materialize, utc_now, load_index, save_index, object_rel,
}
use omnicode_mcp.Prelude.Exec.{◌>>=◌}
use omnicode_mcp.Prelude.Dict.{has}
use omnicode_mcp.Workspace.Snapshot.Integrity.Runs.{empty-IsIntact}
use omnicode_mcp.Workspace.Snapshot.Integrity.Reading.{read_encoding, read_text-upsert}
use text.Mathlib.TextLemmas.{tail-eq_of_cons-eq}
use omnicode_mcp.Prelude.Newlines.{universal_newlines}

-- A number as a row of marks, in front of a text.
abbrev marks : ℕ → String → String
marks zero t = String.◌∷◌ "," t
marks (suc n) t = String.◌∷◌ "i" (marks n t)

abbrev digest : List ℕ → String
digest [] = ""
digest (b ∷ bytes) = marks b (digest bytes)

abbrev starts : String → Bool
starts = starts_with_char "i"

marks_unique : (a b : ℕ) (s t : String) → marks a s ≡ marks b t → (a ≡ b) × (s ≡ t)
marks_unique zero zero s t e = (refl, tail-eq_of_cons-eq e)
marks_unique zero (suc b) s t e = cc (ap starts e)
marks_unique (suc a) zero s t e = cc (ap starts e)
marks_unique (suc a) (suc b) s t e =
    let (n, rest) = marks_unique a b s t (tail-eq_of_cons-eq e) in (ap suc n, rest)

marks_nonempty : (b : ℕ) (t : String) → is_empty (marks b t) ≡ false
marks_nonempty zero t = refl
marks_nonempty (suc b) t = refl

digest_unique : (a b : List ℕ) → digest a ≡ digest b → a ≡ b
digest_unique [] [] e = refl
digest_unique [] (y ∷ ys) e = cc (ap is_empty e, marks_nonempty y (digest ys))
digest_unique (x ∷ xs) [] e = cc (ap is_empty e, marks_nonempty x (digest xs))
digest_unique (x ∷ xs) (y ∷ ys) e =
    let (n, rest) = marks_unique x y (digest xs) (digest ys) e in cc (n, digest_unique xs ys rest)

abbrev plain_host : Host
plain_host = record {
  sha256 = digest;
  encode = λ encoding content. some (if content == "" then [] else 1 ∷ []);
  decode = λ encoding bytes. elim bytes [ [] ↦ "" | _ ∷ _ ↦ "hello" ];
  utc_now = λ ticks. "now";
  mirror_answer = λ names path. none;
  materialize_mirror = false;
}

abbrev note : FileItem
note = record {
  path = "a.md";
  content = "hello";
  hash = "";
  size = 1;
  mtime_ms = 5;
  encoding = "utf-8";
}

abbrev note_record : SnapshotRecord
note_record = record {
  path = "a.md";
  hash = "sha256:i,";
  size = 1;
  mtime_ms = 5;
  encoding = "utf-8";
  object_path = "objects/sha256/i,";
  revision = 1;
  updated_at = "now";
  mirror_path = none;
}

valid : validate_workspace_id "w1" ≡ ok "w1"
unfolding validate_workspace_id strip
valid = refl

written : (upsert_unlocked plain_host "w1" note 1 empty_dir).0 ≡ ok note_record
unfolding upsert_unlocked ◌>>=◌ validate_workspace_id store_file normalized verify_content
    expected_digest store_object has materialize utc_now load_index save_index object_rel
written = refl

read_text-upsert_example :
    (read_text_unlocked plain_host "w1" "a.md"
      (upsert_unlocked plain_host "w1" note 1 empty_dir).1).0
    ≡ ok (some (universal_newlines (plain_host.decode (read_encoding "utf-8") (1 ∷ []))))
read_text-upsert_example =
    read_text-upsert plain_host digest_unique "w1" valid note 1 note_record (1 ∷ []) empty_dir
      (empty-IsIntact plain_host "w1") refl written

-- ===== src/Examples/Snapshot.antt =====
-- The snapshot store on one workspace with a few files.
use omnicode_mcp.Prelude.{◌≡◌, refl, none, some, true, List, [], ◌∷◌, if◌then◌else◌}
use omnicode_mcp.Prelude.Eq.{◌==◌, string_eq}
use omnicode_mcp.Prelude.Result.{ok}
use omnicode_mcp.Prelude.Text.{strip, lstrip, rstrip, is_space}
use omnicode_mcp.Workspace.Path.{normalize_snapshot_path, normalize_rel}
use omnicode_mcp.Workspace.Path.Normal.{IsPart, IsNormal, normalize-IsNormal, normalize_agree}
use omnicode_mcp.Workspace.Path.Drift.{normalize_drifts}
use omnicode_mcp.Workspace.Snapshot.{
  Host, FileItem, empty_dir, validate_workspace_id, status, status_unlocked, apply_batch_unlocked,
}
use omnicode_mcp.Workspace.Snapshot.Commits.{Commits}
use omnicode_mcp.Workspace.Snapshot.Transactions.{apply_batch-Commits}
use omnicode_mcp.Workspace.Snapshot.Outcomes.{BatchEffect}
use omnicode_mcp.Workspace.Snapshot.Invariants.{
  Call, IsValid, run, reachable-IsValid, status-eq-status_unlocked,
}
use omnicode_mcp.Workspace.Snapshot.Integrity.{IsIntact, Grows}
use omnicode_mcp.Workspace.Snapshot.Integrity.Runs.{run-IsIntact, empty-IsIntact}

abbrev toy_host : Host
toy_host = record {
  sha256 = λ bytes. elim bytes [ [] ↦ "00" | _ ↦ "ff" ];
  encode = λ encoding content.
      if encoding == "utf-8" then some (if content == "" then [] else 1 ∷ []) else none;
  decode = λ encoding bytes. "text";
  utc_now = λ ticks. "now";
  mirror_answer = λ names path. none;
  materialize_mirror = true;
}

abbrev readme : FileItem
readme = record {
  path = "docs/readme.md";
  content = "hello";
  hash = "sha256:ff";
  size = 1;
  mtime_ms = 5;
  encoding = "utf-8";
}

abbrev calls : List Call
calls =
    Call.upsert readme 3
    ∷ Call.apply_batch (readme ∷ []) ("old.py" ∷ []) 4
    ∷ Call.mark_indexed 4 "semantic_full"
    ∷ Call.delete "docs/readme.md" 5
    ∷ []

valid : validate_workspace_id "w1" ≡ ok "w1"
unfolding validate_workspace_id strip
valid = refl

reachable-IsValid_example : IsValid "w1" (run toy_host "w1" calls empty_dir)
reachable-IsValid_example = reachable-IsValid toy_host "w1" valid calls

run-IsIntact_example :
    IsIntact toy_host "w1" (run toy_host "w1" calls empty_dir)
    × Grows empty_dir.objects (run toy_host "w1" calls empty_dir).objects
run-IsIntact_example =
    run-IsIntact toy_host "w1" valid calls empty_dir (empty-IsIntact toy_host "w1")

apply_batch-Commits_example :
    Commits "w1"
      (BatchEffect 4 (readme ∷ []) ("old.py" ∷ []))
      (apply_batch_unlocked toy_host "w1" (readme ∷ []) ("old.py" ∷ []) 4)
apply_batch-Commits_example =
    apply_batch-Commits toy_host "w1" "w1" valid (readme ∷ []) ("old.py" ∷ []) 4

status-eq-status_unlocked_example :
    (status "w1" (run toy_host "w1" calls empty_dir)).0
    ≡ (status_unlocked "w1" (run toy_host "w1" calls empty_dir)).0
status-eq-status_unlocked_example = status-eq-status_unlocked toy_host "w1" valid calls

normal_path : normalize_snapshot_path "docs//./a.py" ≡ ok "docs/a.py"
unfolding normalize_snapshot_path
normal_path = refl

normalize-IsNormal_example : IsNormal "docs/a.py"
normalize-IsNormal_example = normalize-IsNormal "docs//./a.py" "docs/a.py" normal_path

stripped : strip "docs/a.py" ≡ "docs/a.py"
unfolding strip
stripped = refl

plain-IsPart : IsPart "a.py"
plain-IsPart = record {
  not_noise = refl;
  not_parent = refl;
  no_slash = (refl, (refl, (refl, (refl, tt))));
  no_backslash = (refl, (refl, (refl, (refl, tt))));
}

blank-IsPart : IsPart " a.py"
blank-IsPart = record {
  not_noise = refl;
  not_parent = refl;
  no_slash = (refl, (refl, (refl, (refl, (refl, tt)))));
  no_backslash = (refl, (refl, (refl, (refl, (refl, tt)))));
}

left : lstrip "a.py" ≡ "a.py"
unfolding lstrip is_space
left = refl

right : rstrip "a.py" ≡ "a.py"
unfolding rstrip is_space
right = refl

normalize_drifts_example :
    (normalize_snapshot_path "./ a.py" ≡ ok " a.py") × (normalize_snapshot_path " a.py" ≡ ok "a.py")
normalize_drifts_example = normalize_drifts "a" ".py" plain-IsPart blank-IsPart left right

normalize_agree_example : normalize_rel "docs//./a.py" ≡ normalize_snapshot_path "docs//./a.py"
normalize_agree_example = normalize_agree "docs//./a.py"

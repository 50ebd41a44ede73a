-- ===== src/Workspace/Snapshot/Index.antt =====
-- Loading, changing and saving index.json and status.json.
use omnicode_mcp.Prelude.{
  ℕ, ◌+◌, max, String, Bool, true, false, not, ◌&&◌, ◌||◌, Option, none, some, [], length, leb, ltb,
  if◌then◌else◌,
}
use omnicode_mcp.Prelude.Eq.{◌==◌, string_eq, nat_eq}
use omnicode_mcp.Prelude.Result.{Result, ok, raise}
use omnicode_mcp.Prelude.Exec.{Exec, pure, lift, gets, guard, modify, ◌>>=◌, ◌>>◌}
use omnicode_mcp.Prelude.Text.{strip, is_empty, count_chars, all_chars}
use omnicode_mcp.Workspace.Snapshot.Types.{
  StoreError, workspace_id_empty, workspace_id_invalid, index_corrupt, indexed_exceeds_accepted,
  Index, Status, IndexFile, missing, corrupt, stored, WorkspaceDir, Host,
}

abbrev pub Act : Type 0 → Type 0
Act A = Exec WorkspaceDir StoreError A

-- [A-Za-z0-9_.:-]
unfoldable pub is_id_char : ℕ → Bool
is_id_char c =
    (leb b'A' c && leb c b'Z')
    || (leb b'a' c && leb c b'z')
    || (leb b'0' c && leb c b'9')
    || c == b'_'
    || c == b'.'
    || c == b':'
    || c == b'-'

unfoldable pub validate_workspace_id : String → Result StoreError String
unfolding strip is_id_char
validate_workspace_id workspace_id =
    let value = strip workspace_id in
    if is_empty value
    then raise workspace_id_empty
    else if value == "."
        || value == ".."
        || not (leb (count_chars value) 80 && all_chars is_id_char value)
    then raise workspace_id_invalid
    else ok value

abbrev pub new_index : String → Index
new_index workspace = record {
  workspace_id = workspace;
  latest_revision = 0;
  accepted_revision = 0;
  indexed_revision = 0;
  semantic_index_coverage = none;
  semantic_initial_exact_only = false;
  files = [];
  deletes = [];
}

abbrev pub read_index : String → IndexFile → Result StoreError Index
read_index workspace missing = ok (new_index workspace)
read_index workspace corrupt = raise index_corrupt
read_index workspace (stored index) = ok index

unfoldable pub load_index : String → Act Index
load_index workspace = do file ← gets (λ d. d.index_file); lift (read_index workspace file)

-- `index.get("semantic_index_coverage") or "unknown"`
abbrev pub coverage_or_unknown : Option String → String
coverage_or_unknown none = "unknown"
coverage_or_unknown (some c) = if is_empty c then "unknown" else c

unfoldable pub status_from_index : String → Index → Status
status_from_index workspace index = record {
  workspace_id = workspace;
  latest_revision = index.accepted_revision;
  accepted_revision = index.accepted_revision;
  indexed_revision = index.indexed_revision;
  semantic_index_coverage = coverage_or_unknown index.semantic_index_coverage;
  semantic_initial_exact_only = index.semantic_initial_exact_only;
  file_count = length index.files;
  delete_count = length index.deletes;
}

unfoldable pub save_index : String → Index → Act Unit
save_index workspace index = modify (λ d. record d {
  index_file = stored index;
  status_file = some (status_from_index workspace index);
})

unfoldable pub set_accepted_revision : Index → ℕ → Index
set_accepted_revision index revision =
    let accepted = max index.accepted_revision revision in
    record index { accepted_revision = accepted; latest_revision = accepted }

-- datetime.now(timezone.utc)
unfoldable pub utc_now : Host → Act String
utc_now host = do
  now ← gets (λ d. host.utc_now d.ticks)
  modify (λ d. record d { ticks = d.ticks + 1 })
  pure now

abbrev pub is_exact_only : String → Bool
is_exact_only coverage =
    coverage == "initial_sync_exact_only"
    || coverage == "initial_sync_large_repo_exact_only"
    || coverage == "exact_only_initial_sync"

-- The coverage fields after a batch, by the tests on the batch's coverage: whether it is empty,
-- exact only, one of `semantic_full`, `selected_files` and `filtered`, one of `unchanged` and
-- `deletes_only`, and `filtered_empty`.
unfoldable pub choose_coverage : Bool → Bool → Bool → Bool → Bool → Index → String → Index
choose_coverage none_given exact_only semantic idle filtered_empty index coverage =
    if none_given
    then index
    else if exact_only
    then record index {
      semantic_initial_exact_only = true;
      semantic_index_coverage = some "exact_only_initial_sync";
    }
    else if index.semantic_initial_exact_only
    then (if semantic
        then record index {
          semantic_initial_exact_only = false;
          semantic_index_coverage = some coverage;
        }
        else if idle || filtered_empty
        then index
        else record index { semantic_index_coverage = some "partial_after_exact_only" })
    else if idle
    then index
    else record index { semantic_index_coverage = some coverage }

unfoldable pub record_coverage : Index → String → Index
record_coverage index coverage =
    choose_coverage (is_empty coverage) (is_exact_only coverage)
      (coverage == "semantic_full" || coverage == "selected_files" || coverage == "filtered")
      (coverage == "unchanged" || coverage == "deletes_only") (coverage == "filtered_empty") index
      coverage

unfoldable pub mark_indexed_unlocked : String → ℕ → String → Act ℕ
mark_indexed_unlocked workspace_id revision semantic_coverage = do
  workspace ← lift (validate_workspace_id workspace_id)
  index ← load_index workspace
  guard (ltb index.accepted_revision revision) indexed_exceeds_accepted
  let indexed = max index.indexed_revision revision
  let marked = record index { indexed_revision = indexed; workspace_id = workspace }
  save_index workspace (record_coverage marked (strip semantic_coverage))
  pure indexed

unfoldable pub status_unlocked : String → Act Status
status_unlocked workspace = do
  index ← load_index workspace
  pure (status_from_index workspace index)

abbrev pub with_fallback : Option Status → Act Status → Act Status
with_fallback (some fast) m = pure fast
with_fallback none m = m

unfoldable pub status : String → Act Status
status workspace_id = do
  workspace ← lift (validate_workspace_id workspace_id)
  fast ← gets (λ d. d.status_file)
  with_fallback fast (status_unlocked workspace)

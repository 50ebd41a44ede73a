-- ===== src/Examples/Edit.antt =====
-- One edit of a file, other calls, and its rollback.
use omnicode_mcp.Prelude.{
  ℕ, zero, suc, ◌≡◌, ◌≢◌, refl, ap, sym, ◌∙◌, ◌⊎◌, none, some, String, List, [], ◌∷◌, if◌then◌else◌,
}
use omnicode_mcp.Prelude.Eq.{◌==◌, string_eq, nat_eq}
use omnicode_mcp.Prelude.Dict.{Dict, get}
use omnicode_mcp.Prelude.Text.{count_chars}
use omnicode_mcp.Edit.Patch.{
  Host, Store, rolled_back, already_rolled_back, rollback_patch, apply_patch, conflict,
  preview_patch, resolve, text_or_empty, hash_text, preview_key, preview_conflict, read,
  with_folder,
}
use omnicode_mcp.Prelude.Newlines.{universal_newlines}
use omnicode_mcp.Edit.Patch.Rollback.{rollback_restores}
use omnicode_mcp.Edit.Patch.Held.{Step, edited, written, steps, IsKeyed}
use omnicode_mcp.Edit.Patch.Conflict.{apply_after_preview}

-- 0, 1, 2 ... as "", "i", "ii" ...
abbrev unary : ℕ → String
unary zero = ""
unary (suc n) = String.◌∷◌ "i" (unary n)

unary_length : (n : ℕ) → count_chars (unary n) ≡ n
unary_length zero = refl
unary_length (suc n) = ap suc (unary_length n)

unary_unique : (a b : ℕ) → unary a ≡ unary b → a ≡ b
unary_unique a b e = sym (unary_length a) ∙ ap count_chars e ∙ unary_length b

abbrev toy_text : List ℕ → String
toy_text [] = "new"
toy_text (b ∷ bytes) = if b == 1 then "old" else "new"

abbrev toy_host : Host
toy_host = record {
  working_dir = "/w";
  decode_ignore = toy_text;
  decode = λ bytes. some (toy_text bytes);
  encode = λ text. if text == "old" then 1 ∷ [] else 2 ∷ [];
  sha256 = λ text. text;
  now = λ n. "now";
  uuid = unary;
  unified_diff = λ before after path. "+x";
}

abbrev store : Store
store = record {
  disk = ("/w/a.py", 1 ∷ []) ∷ [];
  snapshots = [];
  sessions = [];
  folders = [];
  previews = [];
  count = 0;
}

-- an edit of another program, and a further edit
abbrev since : List Step
since = written "/w/a.py" (2 ∷ []) ∷ edited "a.py" "newer" "external" [] ∷ []

text_lem : text_or_empty toy_host (get store.disk (resolve toy_host "a.py")) ≡ "old"
unfolding get resolve read universal_newlines
text_lem = refl

readable :
    toy_host.decode
      (toy_host.encode (text_or_empty toy_host (get store.disk (resolve toy_host "a.py"))))
    ≡ some (text_or_empty toy_host (get store.disk (resolve toy_host "a.py")))
unfolding get resolve read universal_newlines
readable = refl

no_sessions : IsKeyed store.sessions
unfolding get
no_sessions sid x e = cc

no_preview :
    preview_conflict toy_host
      (text_or_empty toy_host (get store.disk (resolve toy_host "a.py")))
      (get store.previews (preview_key toy_host "a.py" "new"))
    ≡ none
unfolding get preview_conflict
no_preview = refl

rollback_restores_example :
    ((rollback_patch toy_host ""
        (steps toy_host since (apply_patch toy_host "a.py" "new" "external" [] store).1)).0
      ≡ rolled_back "" "a.py")
    × (get
          (rollback_patch toy_host ""
            (steps toy_host since (apply_patch toy_host "a.py" "new" "external" [] store).1)).1.disk
          (resolve toy_host "a.py")
        ≡ some
            (toy_host.encode (text_or_empty toy_host (get store.disk (resolve toy_host "a.py")))))
    × ((rollback_patch toy_host ""
          (rollback_patch toy_host ""
            (steps toy_host since (apply_patch toy_host "a.py" "new" "external" [] store).1)).1).0
        ≡ already_rolled_back)
rollback_restores_example =
    rollback_restores toy_host unary_unique store "a.py" "new" "external" [] since no_sessions
      no_preview (tt, (tt, tt)) readable

-- the disk after the preview
abbrev changed_disk : Dict String (List ℕ)
changed_disk = ("/w/a.py", 3 ∷ []) ∷ []

apply_after_preview_example :
    ((hash_text toy_host (text_or_empty toy_host (get store.disk (resolve toy_host "a.py")))
        ≡ hash_text toy_host (text_or_empty toy_host (get changed_disk (resolve toy_host "a.py"))))
      × (get
            (apply_patch toy_host "a.py" "new" "external" []
              (record (preview_patch toy_host "a.py" "new" store).1 { disk = changed_disk })).1.disk
            (resolve toy_host "a.py")
          ≡ some (toy_host.encode "new"))
      × (get
            (apply_patch toy_host "a.py" "new" "external" []
              (record (preview_patch toy_host "a.py" "new" store).1 {
                disk = changed_disk;
              })).1.previews
            (preview_key toy_host "a.py" "new")
          ≡ none))
    ⊎ ((hash_text toy_host (text_or_empty toy_host (get store.disk (resolve toy_host "a.py")))
          ≢ hash_text toy_host
              (text_or_empty toy_host (get changed_disk (resolve toy_host "a.py"))))
        × (apply_patch toy_host "a.py" "new" "external" []
              (record (preview_patch toy_host "a.py" "new" store).1 { disk = changed_disk })
            ≡ (
              conflict
                  (hash_text toy_host
                    (text_or_empty toy_host (get store.disk (resolve toy_host "a.py"))))
                  (hash_text toy_host
                    (text_or_empty toy_host (get changed_disk (resolve toy_host "a.py")))),
              with_folder toy_host "a.py"
                  (record (preview_patch toy_host "a.py" "new" store).1 { disk = changed_disk }),
            )))
apply_after_preview_example =
    apply_after_preview toy_host "a.py" "new" "external" [] store changed_disk

-- ===== src/Workspace/Path/Drift.antt =====
-- Normalising twice: the white space that `strip` meets only the second time.
use Prim.Native.Char.{Char}
use Prim.Native.String.{String}
use omnicode_mcp.Prelude.{◌≡◌, refl, ap, ◌∙◌, List, [], ◌∷◌, keep}
use omnicode_mcp.Prelude.Eq.{string_eq}
use omnicode_mcp.Prelude.Result.{ok}
use omnicode_mcp.Prelude.Text.{
  strip, lstrip, rstrip, join, replace_char, replace_char_absent, split, split_single, split_step,
}
use omnicode_mcp.Workspace.Path.{slash, backslash, posix_parts, normalize_snapshot_path}
use omnicode_mcp.Workspace.Path.Normal.{
  IsPart, normalize-IsNormal, normalize_fixed, normalize_run, collect_id, keep_id, posix_parts_lem,
  posix_parts-join,
}

-- A normalised path that has no white space at its ends is a fixed point of the normaliser.
pub normalize_idempotent :
    (path q : String)
    → normalize_snapshot_path path ≡ ok q
    → strip q ≡ q
    → normalize_snapshot_path q ≡ ok q
normalize_idempotent path q h e = normalize_fixed q (normalize-IsNormal path q h) e

module _ (c : Char) (s : String) where
  -- a name, the name behind a blank, and that behind `./`
  abbrev pub name : String
  name = String.◌∷◌ c s

  abbrev pub blank_name : String
  blank_name = String.◌∷◌ " " name

  abbrev pub dotted : String
  dotted = String.◌∷◌ "." (String.◌∷◌ "/" blank_name)

  module _ (part : IsPart name) (blank-IsPart : IsPart blank_name) (left : lstrip name ≡ name)
      (right : rstrip name ≡ name) where
    strip_blank : strip blank_name ≡ name
    unfolding strip
    strip_blank = rw (left, right)

    parts_name : posix_parts name ≡ name ∷ []
    unfolding join
    parts_name = posix_parts-join name [] (part, tt)

    strip-dotted : strip dotted ≡ dotted
    unfolding strip
    strip-dotted = rw right

    raw_dotted : replace_char backslash slash (strip dotted) ≡ dotted
    raw_dotted =
        rw strip-dotted
          (replace_char_absent backslash slash dotted (refl, (refl, blank-IsPart.no_backslash)))

    split-dotted : split slash dotted ≡ "." ∷ blank_name ∷ []
    split-dotted =
        split_step slash "." blank_name (refl, tt)
        ∙ ap (λ (ps : List String). "." ∷ ps) (split_single slash blank_name blank-IsPart.no_slash)

    parts_dotted : posix_parts dotted ≡ blank_name ∷ []
    unfolding keep
    parts_dotted = rw (posix_parts_lem, split-dotted) (keep_id (blank_name ∷ []) (blank-IsPart, tt))

    -- The normaliser is not idempotent: `./ name` becomes ` name`, and that becomes `name`.
    pub normalize_drifts :
        (normalize_snapshot_path dotted ≡ ok blank_name)
        × (normalize_snapshot_path blank_name ≡ ok name)
    unfolding join
    normalize_drifts = (
      normalize_run dotted dotted blank_name [] raw_dotted refl refl
          (rw parts_dotted (collect_id (blank_name ∷ []) (blank-IsPart, tt))),
      normalize_run blank_name name name []
          (rw strip_blank (replace_char_absent backslash slash name part.no_backslash)) refl
          part.no_slash.0 (rw parts_name (collect_id (name ∷ []) (part, tt))),
    )

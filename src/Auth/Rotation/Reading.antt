-- ===== src/Auth/Rotation/Reading.antt =====
-- What the provider registry reads after a rotation, whatever comes of it.
use omnicode_mcp.Prelude.{
  ℕ, ◌≡◌, refl, sym, ap, subst, ◌∙◌, ◌⊎◌, inl, inr, String, Bool, true, false, not, ◌||◌, if_either,
  Option, none, some, if◌then◌else◌,
}
use omnicode_mcp.Prelude.Eq.{string_eq}
use omnicode_mcp.Prelude.Dict.{get, put, keys, get-put_self}
use omnicode_mcp.Prelude.Names.{NoRepeat}
use omnicode_mcp.Prelude.Result.{Result, raise}
use omnicode_mcp.Prelude.Text.{strip, is_empty, ◌+++◌}
use omnicode_mcp.Auth.SecretBox.{Fernet, open_box, is_encrypted, decrypt}
use omnicode_mcp.Auth.Rotation.{
  Rows, Disk, World, RotationError, rows_not_written, Report, over_rows, decrypt_row, encrypt_row,
  write_all, new_key, rewrite, replace_key, with_box, with_files, rotate_master_key,
}
use omnicode_mcp.Auth.Rotation.Rows.{read_row, box_of, row_of, read_secret, rows_kept}

open_box-valid :
    (f : Fernet) (content key : String) → open_box f content ≡ some key → f.valid_key key ≡ true
unfolding open_box
open_box-valid f content key h = go (is_empty (strip content)) (f.valid_key (strip content)) refl h
  where
    go :
        (e v : Bool)
        → f.valid_key (strip content) ≡ v
        → (if e then none else if v then some (strip content) else none) ≡ some key
        → f.valid_key key ≡ true
    go true v same p = cc
    go false false same p = cc
    go false true same p =
        subst (λ k. f.valid_key k ≡ true)
          (ap (λ (o : Option String). elim o [ some x ↦ x | none ↦ strip content ]) p) same

-- backup.
abbrev pub Stranded : World → Option String → Disk → Result RotationError Report × Disk → Type 0
Stranded w new d out =
    (out.0 ≡ raise rows_not_written)
    × (out.1.rows ≡ d.rows)
    × (out.1.key_file ≡ some (strip (new_key w new) +++ "\n"))
    × (get out.1.backups w.timestamp ≡ d.key_file)

module _ (w : World)
    (law : (key random text : String)
      → w.fernet.valid_key key ≡ true
      → w.fernet.unseal key (w.fernet.seal key random text) ≡ some text)
    (new : Option String) (d : Disk) (name plain : String) (full : is_empty plain ≡ false)
    (clear : is_encrypted plain ≡ false) (before : read_secret w.fernet d name ≡ some plain) where
  abbrev Reads : Result RotationError Report × Disk → Type 0
  Reads out = (read_secret w.fernet out.1 name ≡ some plain) ⊎ Stranded w new d out

  module _ (rows : Rows) (content key : String) (skipped : ℕ) (once : NoRepeat (keys rows))
      (rows_same : d.rows ≡ some rows) (file_same : d.key_file ≡ some content)
      (opens : open_box w.fernet content ≡ some key) where
    abbrev in_memory : Rows
    in_memory = over_rows (λ n. decrypt_row w.fernet key) rows

    old_read :
        (value : Option String)
        → get rows name ≡ some value
        → decrypt w.fernet (some key) value ≡ some plain
    old_read value found =
        let at_files : read_row w.fernet (box_of w.fernet (some content)) (row_of (some rows) name)
            ≡ some plain =
          subst (λ k. read_row w.fernet (box_of w.fernet k) (row_of (some rows) name) ≡ some plain)
            file_same
            (subst
              (λ r. read_row w.fernet (box_of w.fernet d.key_file) (row_of r name) ≡ some plain)
              rows_same before) in
        rw (opens, found) at at_files

    value_found : (value : Option String) × (get rows name ≡ some value)
    value_found = go (get rows name) refl
      where
        go :
            (o : Option (Option String))
            → get rows name ≡ o
            → (value : Option String) × (get rows name ≡ some value)
        go none e =
            let gone : row_of d.rows name ≡ none = ap (λ r. row_of r name) rows_same ∙ e in
            cc (ap (read_row w.fernet (box_of w.fernet d.key_file)) gone, before)
        go (some value) e = (value, e)

    abbrev copied : Disk
    copied = record d { backups = put d.backups w.timestamp content }

    abbrev new_file : String
    new_file = strip (new_key w new) +++ "\n"

    rewrite-Reads :
        (opened : Option String)
        → open_box w.fernet new_file ≡ opened
        → Reads (
            rewrite w rows in_memory skipped content
              (record copied { key_file = some new_file })
              opened)
    rewrite-Reads none e = inl (
        subst (λ k. read_row w.fernet (box_of w.fernet k) (row_of d.rows name) ≡ some plain)
          file_same before)
    rewrite-Reads (some key') e =
        let (value, found) = value_found in
        if_either Reads w.writes_rows _ _
          (inl (
            ap
              (λ box.
                read_row w.fernet box
                  (get (write_all rows (over_rows (encrypt_row w.fernet key') in_memory)) name))
              e
            ∙ rows_kept w.fernet rows key key' name value plain
                (law key' name plain (open_box-valid w.fernet new_file key' e)) full clear once
                found (old_read value found)))
          (inr (refl, refl, refl, get-put_self d.backups w.timestamp content ∙ sym file_same))

    replace-Reads : Reads (replace_key w new rows in_memory skipped content d)
    replace-Reads = if_either Reads (not w.copies_key) _ _ (inl before) (
        if_either Reads (not (w.fernet.valid_key (new_key w new)) || not w.writes_key) _ _
          (inl before) (rewrite-Reads (open_box w.fernet new_file) refl))

  with_box-Reads :
      (rows : Rows) (content : String)
      → NoRepeat (keys rows)
      → d.rows ≡ some rows
      → d.key_file ≡ some content
      → (opened : Option String) → open_box w.fernet content ≡ opened
      → Reads (with_box w new rows content d opened)
  with_box-Reads rows content once rows_same file_same none e = inl before
  with_box-Reads rows content once rows_same file_same (some key) e =
      if_either Reads w.reads_rows _ _ (replace-Reads rows content key _ once rows_same file_same e)
        (inl before)

  with_files-Reads :
      (rows : Option Rows) (key_file : Option String)
      → ((table : Rows) → rows ≡ some table → NoRepeat (keys table))
      → d.rows ≡ rows
      → d.key_file ≡ key_file
      → Reads (with_files w new d rows key_file)
  with_files-Reads none key_file once rows_same file_same = inl before
  with_files-Reads (some rows) none once rows_same file_same = inl before
  with_files-Reads (some rows) (some content) once rows_same file_same =
      with_box-Reads rows content (once rows refl) rows_same file_same (open_box w.fernet content)
        refl

  -- Where a token is opened by the key that made it, and the provider table has each name once: a
  -- secret that could be read before a rotation, and is neither empty nor looks encrypted itself, can
  -- be read after it, whether the rotation succeeds or raises at any point, with one exception:
  -- where the rows could not be written back, the call raises with the rows as they were,
  -- the new key in the key file, and the old key in the backup.
  pub rotate_reads :
      ((table : Rows) → d.rows ≡ some table → NoRepeat (keys table))
      → (read_secret w.fernet (rotate_master_key w new d).1 name ≡ some plain)
        ⊎ Stranded w new d (rotate_master_key w new d)
  unfolding rotate_master_key
  rotate_reads once =
      if_either Reads w.installed _ _ (with_files-Reads d.rows d.key_file once refl refl)
        (inl before)

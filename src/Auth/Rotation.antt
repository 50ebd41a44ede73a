-- ===== src/Auth/Rotation.antt =====
-- `rotate_master_key` of omnicode_core/auth/rotation.py: the provider keys, encrypted under a key file,
-- are read with the old key, and written back under a new one.
pub mod Rows
pub mod Reading
use omnicode_mcp.Prelude.{
  ℕ, suc, ◌+◌, String, Bool, true, false, not, ◌||◌, Option, none, some, List, [], ◌∷◌,
  if◌then◌else◌,
}
use omnicode_mcp.Prelude.Eq.{◌==◌, string_eq}
use omnicode_mcp.Prelude.Dict.{Dict, get, put}
use omnicode_mcp.Prelude.Result.{Result, ok, raise}
use omnicode_mcp.Prelude.Text.{strip, is_empty, ◌+++◌}
use omnicode_mcp.Auth.SecretBox.{Fernet, open_box, is_encrypted, encrypt, decrypt}

-- The provider table, by the primary key `name`, with its column `api_key`; a NULL is none.
abbrev pub Rows : Type 0
Rows = Dict String (Option String)

pub record Disk : Type 0 where
  pub rows : Option Rows
  pub key_file : Option String
  pub backups : Dict String String

-- What the call meets: the libraries, and whether each access to a file succeeds.
pub record World : Type 0 where
  pub fernet : Fernet
  pub installed : Bool
  pub generated_key : String
  pub timestamp : String
  pub reads_rows : Bool
  pub copies_key : Bool
  pub writes_key : Bool
  pub writes_rows : Bool

pub data RotationError : Type 0 where
  no_cryptography no_database no_key_file key_not_opened rows_not_read key_not_copied :
      RotationError
  key_not_written new_key_not_opened rows_not_written : RotationError

pub record Report : Type 0 where
  pub rows_re_encrypted : ℕ
  pub rows_skipped : ℕ

unfoldable pub over_rows : (String → Option String → Option String) → Rows → Rows
over_rows change [] = []
over_rows change ((name, value) ∷ rows) = (name, change name value) ∷ over_rows change rows

unfoldable pub count_rows : (Option String → Bool) → Rows → ℕ
count_rows test [] = 0
count_rows test ((name, value) ∷ rows) =
    let rest = count_rows test rows in if test value then rest + 1 else rest

-- A row in memory: none, its text, or, where the old key does not open it, its ciphertext.
abbrev pub plain_or : String → Option String → Option String
plain_or ciphertext none = some ciphertext
plain_or ciphertext (some plain) = some plain

abbrev pub is_none : Option String → Bool
is_none none = true
is_none (some text) = false

unfoldable pub decrypt_row : Fernet → String → Option String → Option String
decrypt_row f key none = none
decrypt_row f key (some ciphertext) =
    if is_empty ciphertext
    then none
    else plain_or ciphertext (decrypt f (some key) (some ciphertext))

abbrev pub is_skipped : Fernet → String → Option String → Bool
is_skipped f key none = false
is_skipped f key (some ciphertext) =
    if is_empty ciphertext then false else is_none (decrypt f (some key) (some ciphertext))

unfoldable pub encrypt_row : Fernet → String → String → Option String → Option String
encrypt_row f key name none = none
encrypt_row f key name (some plain) =
    if is_encrypted plain then some plain else encrypt f (some key) name (some plain)

abbrev pub is_wrapped : Option String → Bool
is_wrapped none = false
is_wrapped (some plain) = not (is_encrypted plain)

-- UPDATE providers SET api_key = value WHERE name = name
unfoldable pub update_row : Rows → String → Option String → Rows
update_row [] name value = []
update_row ((n, v) ∷ rows) name value =
    (n, if n == name then value else v) ∷ update_row rows name value

-- `_write_all_api_keys`
unfoldable pub write_all : Rows → Rows → Rows
write_all table [] = table
write_all table ((name, value) ∷ items) = write_all (update_row table name value) items

module _ (w : World) where
  abbrev pub new_key : Option String → String
  new_key none = w.generated_key
  new_key (some key) = if is_empty key then w.generated_key else key

  -- Steps 4 and 5, with the new key in its file.
  abbrev pub rewrite :
      Rows → Rows → ℕ → String → Disk → Option String → Result RotationError Report × Disk
  rewrite rows plain skipped old_file d none =
      (raise new_key_not_opened, record d { key_file = some old_file })
  rewrite rows plain skipped old_file d (some key) =
      if w.writes_rows
      then (
        ok (record { rows_re_encrypted = count_rows is_wrapped plain; rows_skipped = skipped }),
        record d { rows = some (write_all rows (over_rows (encrypt_row w.fernet key) plain)) },
      )
      else (raise rows_not_written, d)

  -- Step 3: the old key is copied before the new one is written over it.
  abbrev pub replace_key :
      Option String → Rows → Rows → ℕ → String → Disk → Result RotationError Report × Disk
  replace_key new rows plain skipped old_file d =
      let copied = record d { backups = put d.backups w.timestamp old_file } in
      let content = strip (new_key new) +++ "\n" in
      if not w.copies_key
      then (raise key_not_copied, d)
      else if not (w.fernet.valid_key (new_key new)) || not w.writes_key
      then (raise key_not_written, copied)
      else rewrite rows plain skipped old_file (record copied { key_file = some content })
          (open_box w.fernet content)

  -- Step 2
  abbrev pub with_box :
      Option String → Rows → String → Disk → Option String → Result RotationError Report × Disk
  with_box new rows old_file d none = (raise key_not_opened, d)
  with_box new rows old_file d (some key) =
      if w.reads_rows
      then replace_key new rows (over_rows (λ name. decrypt_row w.fernet key) rows)
          (count_rows (is_skipped w.fernet key) rows) old_file d
      else (raise rows_not_read, d)

  abbrev pub with_files :
      Option String → Disk → Option Rows → Option String → Result RotationError Report × Disk
  with_files new d none key_file = (raise no_database, d)
  with_files new d (some rows) none = (raise no_key_file, d)
  with_files new d (some rows) (some content) =
      with_box new rows content d (open_box w.fernet content)

  unfoldable pub rotate_master_key : Option String → Disk → Result RotationError Report × Disk
  rotate_master_key new d =
      if w.installed then with_files new d d.rows d.key_file else (raise no_cryptography, d)

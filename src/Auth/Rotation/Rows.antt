-- ===== src/Auth/Rotation/Rows.antt =====
-- The rows of the provider table through `rotate_master_key`.
use omnicode_mcp.Prelude.{
  ◌≡◌, refl, sym, ap, subst, ◌∙◌, inl, inr, String, true, false, Bool-cases, Option, none, some, [],
  ◌∷◌, arith, if◌then◌else◌,
}
use omnicode_mcp.Prelude.Eq.{◌==◌, string_eq, eq_of_beq}
use omnicode_mcp.Prelude.Dict.{get, has, keys, has-get}
use omnicode_mcp.Prelude.Names.{mem, NoRepeat}
use omnicode_mcp.Prelude.Text.{is_empty}
use omnicode_mcp.Auth.SecretBox.{
  Fernet, open_box, is_encrypted, decrypt, decrypt-encrypt, decrypt-none, decrypt_empty,
}
use omnicode_mcp.Auth.Rotation.{
  Rows, Disk, over_rows, decrypt_row, encrypt_row, update_row, write_all,
}

-- What the registry reads of a provider's key: no row, no key file and a text that the key does not
-- open give none.
abbrev pub read_row : Fernet → Option String → Option (Option String) → Option String
read_row f box none = none
read_row f box (some value) = decrypt f box value

abbrev pub box_of : Fernet → Option String → Option String
box_of f none = none
box_of f (some content) = open_box f content

abbrev pub row_of : Option Rows → String → Option (Option String)
row_of none name = none
row_of (some rows) name = get rows name

abbrev pub read_secret : Fernet → Disk → String → Option String
read_secret f d name = read_row f (box_of f d.key_file) (row_of d.rows name)

some_text : (a b : String) → some a ≡ some b → a ≡ b
some_text a b e = ap (λ (o : Option String). elim o [ some x ↦ x | none ↦ a ]) e

row_kept :
    (f : Fernet) (key key' name : String) (value : Option String) (plain : String)
    → f.unseal key' (f.seal key' name plain) ≡ some plain
    → is_empty plain ≡ false
    → is_encrypted plain ≡ false
    → decrypt f (some key) value ≡ some plain
    → decrypt f (some key') (encrypt_row f key' name (decrypt_row f key value)) ≡ some plain
unfolding decrypt_row encrypt_row
row_kept f key key' name none plain law full clear h = cc (decrypt-none f (some key), h)
row_kept f key key' name (some v) plain law full clear h = elim (Bool-cases (is_empty v)) [
  | inl e ↦
      let same : v ≡ plain = some_text v plain (sym (decrypt_empty f (some key) v e) ∙ h) in
      cc (e, full, ap is_empty same)
  | inr filled ↦ rw (filled, h, clear) (decrypt-encrypt f key' name plain law full clear)
]

get-over_rows :
    (change : String → Option String → Option String) (rows : Rows) (name : String)
    (value : Option String)
    → get rows name ≡ some value
    → get (over_rows change rows) name ≡ some (change name value)
unfolding get over_rows
get-over_rows change [] name value h = cc
get-over_rows change ((n, v) ∷ rows) name value h = elim (Bool-cases (n == name)) [
  | inl same ↦ rw same (
      ap (λ k. some (change k v)) (eq_of_beq n name same)
      ∙ ap (λ (o : Option (Option String)). elim o [ some u ↦ some (change name u) | none ↦ none ])
          (rw same at h))
  | inr other ↦ rw other (get-over_rows change rows name value (rw other at h))
]

keys-over_rows :
    (change : String → Option String → Option String) (rows : Rows)
    → keys (over_rows change rows) ≡ keys rows
unfolding over_rows
keys-over_rows change [] = refl
keys-over_rows change ((n, v) ∷ rows) = ap (◌∷◌ n) (keys-over_rows change rows)

has-update_row :
    (rows : Rows) (n m : String) (v : Option String) → has (update_row rows n v) m ≡ has rows m
unfolding has update_row
has-update_row [] n m v = refl
has-update_row ((k, u) ∷ rows) n m v = ground (arith, has-update_row rows n m v)

get-update_row :
    (rows : Rows) (n m : String) (v : Option String)
    → get (update_row rows n v) m
      ≡ (if n == m then (if has rows m then some v else none) else get rows m)
unfolding has get update_row
get-update_row [] n m v = ground arith
get-update_row ((k, u) ∷ rows) n m v = ground (
  arith,
  string_eq.same_iff n m,
  string_eq.same_iff k m,
  string_eq.same_iff k n,
  get-update_row rows n m v,
)

write_all_other :
    (items table : Rows) (name : String)
    → mem name (keys items) ≡ false
    → get (write_all table items) name ≡ get table name
unfolding write_all
write_all_other [] table name absent = refl
write_all_other ((n, v) ∷ items) table name absent = elim (Bool-cases (n == name)) [
  | inl same ↦ ground (arith, absent, same)
  | inr other ↦
      write_all_other items (update_row table n v) name (ground (arith, absent, other))
      ∙ rw (get-update_row, other) refl
]

write_all_found :
    (items table : Rows) (name : String) (value : Option String)
    → NoRepeat (keys items)
    → has table name ≡ true
    → get items name ≡ some value
    → get (write_all table items) name ≡ some value
unfolding write_all get
write_all_found [] table name value once there h = cc
write_all_found ((n, v) ∷ items) table name value once there h = elim (Bool-cases (n == name)) [
  | inl same ↦
      let absent = subst (λ k. mem k (keys items) ≡ false) (eq_of_beq n name same) once.0 in
      write_all_other items (update_row table n v) name absent
      ∙ rw (get-update_row, same, there) (rw same at h)
  | inr other ↦
      write_all_found items (update_row table n v) name value once.1
        (has-update_row table n name v ∙ there) (rw other at h)
]

has_found :
    (rows : Rows) (name : String) (value : Option String)
    → get rows name ≡ some value
    → has rows name ≡ true
has_found rows name value h = rw (has-get, h) refl

-- All rows, from the old key to the new one.
pub rows_kept :
    (f : Fernet) (rows : Rows) (key key' name : String) (value : Option String) (plain : String)
    → f.unseal key' (f.seal key' name plain) ≡ some plain
    → is_empty plain ≡ false
    → is_encrypted plain ≡ false
    → NoRepeat (keys rows)
    → get rows name ≡ some value
    → decrypt f (some key) value ≡ some plain
    → read_row f (some key') (
        get
          (write_all rows
            (over_rows (encrypt_row f key') (over_rows (λ n. decrypt_row f key) rows)))
          name)
      ≡ some plain
rows_kept f rows key key' name value plain law full clear once found h =
    let decrypted = over_rows (λ n. decrypt_row f key) rows in
    let items = over_rows (encrypt_row f key') decrypted in
    let same_keys =
      keys-over_rows (encrypt_row f key') decrypted
      ∙ keys-over_rows (λ n. decrypt_row f key) rows in
    let written =
      write_all_found items rows name (encrypt_row f key' name (decrypt_row f key value))
        (subst NoRepeat (sym same_keys) once) (has_found rows name value found)
        (get-over_rows (encrypt_row f key') decrypted name _
          (get-over_rows (λ n. decrypt_row f key) rows name value found)) in
    ap (read_row f (some key')) written ∙ row_kept f key key' name value plain law full clear h

-- The new key stands in its file, the rows are still under the old key, and the old key is in the

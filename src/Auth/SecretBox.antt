-- ===== src/Auth/SecretBox.antt =====
-- `SecretBox` of omnicode/llm/secret_box.py, on the content of a key file that is there.
use omnicode_mcp.Prelude.{◌≡◌, refl, String, Bool, true, false, Option, none, some, if◌then◌else◌}
use omnicode_mcp.Prelude.Text.{strip, is_empty, behind, has_prefix, ◌+++◌}

abbrev pub encrypted_prefix : String
encrypted_prefix = "ofb1:"

-- Fernet and base64: whether a text is a key, the token of a text under a key, by the random bytes
-- that it is made with, and the text of a token, none for a token of another key.
pub record Fernet : Type 0 where
  pub valid_key : String → Bool
  pub seal : String → String → String → String
  pub unseal : String → String → Option String

-- `_load_or_create_key` and `_init_fernet` where the file is there: the key, or none for a box that is
-- not available.
unfoldable pub open_box : Fernet → String → Option String
open_box f content =
    let key = strip content in
    if is_empty key then none else if f.valid_key key then some key else none

-- SecretBox.is_encrypted
abbrev pub is_encrypted : String → Bool
is_encrypted value = has_prefix value encrypted_prefix

abbrev pub seal_with : Fernet → Option String → String → String → Option String
seal_with f none random value = some value
seal_with f (some key) random value =
    if is_encrypted value then some value else some (encrypted_prefix +++ f.seal key random value)

unfoldable pub encrypt : Fernet → Option String → String → Option String → Option String
encrypt f box random none = none
encrypt f box random (some value) =
    if is_empty value then some value else seal_with f box random value

abbrev pub unseal_with : Fernet → Option String → String → Option String
unseal_with f none payload = none
unseal_with f (some key) payload = f.unseal key payload

abbrev pub decrypt_text : Fernet → Option String → String → Option String → Option String
decrypt_text f box value none = some value
decrypt_text f box value (some payload) = unseal_with f box payload

unfoldable pub decrypt : Fernet → Option String → Option String → Option String
decrypt f box none = none
decrypt f box (some value) =
    if is_empty value then some value else decrypt_text f box value (behind encrypted_prefix value)

pub behind-prefix : (t : String) → behind encrypted_prefix (encrypted_prefix +++ t) ≡ some t
unfolding behind
behind-prefix t = refl

-- A text that is not empty and has no prefix is read back by the same key.
pub decrypt-encrypt :
    (f : Fernet) (key random value : String)
    → f.unseal key (f.seal key random value) ≡ some value
    → is_empty value ≡ false
    → is_encrypted value ≡ false
    → decrypt f (some key) (encrypt f (some key) random (some value)) ≡ some value
unfolding decrypt encrypt
decrypt-encrypt f key random value law full plain =
    rw (full, plain, behind-prefix (f.seal key random value), law) refl

pub decrypt-none : (f : Fernet) (box : Option String) → decrypt f box none ≡ none
unfolding decrypt
decrypt-none f box = refl

pub decrypt_empty :
    (f : Fernet) (box : Option String) (value : String)
    → is_empty value ≡ true
    → decrypt f box (some value) ≡ some value
unfolding decrypt
decrypt_empty f box value e = rw e refl

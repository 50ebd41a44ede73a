-- ===== src/Examples/Auth.antt =====
-- A rotation of one key, and a token of a user whose role changes.
use omnicode_mcp.Prelude.{
  ◌≡◌, ◌≢◌, refl, ap, subst, ◌⊎◌, inr, String, true, not, Option, none, some, List, [], ◌∷◌, arith,
}
use omnicode_mcp.Prelude.Eq.{◌==◌, string_eq}
use omnicode_mcp.Prelude.Dict.{get, has, keys}
use omnicode_mcp.Prelude.Names.{NoRepeat}
use omnicode_mcp.Prelude.Result.{ok}
use omnicode_mcp.Prelude.Text.{
  is_empty, strip, lstrip, rstrip, is_space, behind, behind-append, ◌+++◌,
}
use omnicode_mcp.Auth.SecretBox.{Fernet, open_box, decrypt}
use omnicode_mcp.Auth.Rotation.{Rows, Disk, World, rotate_master_key}
use omnicode_mcp.Auth.Rotation.Reading.{Stranded, rotate_reads}
use omnicode_mcp.Auth.Rotation.Rows.{read_secret}
use omnicode_mcp.Auth.Users.{
  editor, viewer, User, Database, TokenIssued, get_user, issue_token, authenticate,
}
use omnicode_mcp.Auth.Users.Calls.{Call, role_updated, deleted, authenticated, calls}
use omnicode_mcp.Auth.Users.Access.{authenticate-issue}

abbrev fernet : Fernet
fernet = record {
  valid_key = λ key. not (is_empty key);
  seal = λ key random text. key +++ text;
  unseal = λ key payload. behind key payload;
}

abbrev world : World
world = record {
  fernet = fernet;
  installed = true;
  generated_key = "k2";
  timestamp = "20260101T000000Z";
  reads_rows = true;
  copies_key = true;
  writes_key = true;
  writes_rows = true;
}

abbrev disk : Disk
disk = record {
  rows = some (("openai", some "ofb1:k1sk-1") ∷ ("local", none) ∷ []);
  key_file = some "k1";
  backups = [];
}

readable : read_secret fernet disk "openai" ≡ some "sk-1"
unfolding get open_box strip lstrip rstrip is_space decrypt behind
readable = refl

some_rows : (a b : Rows) → some a ≡ some b → a ≡ b
some_rows a b e = ap (λ (o : Option Rows). elim o [ some x ↦ x | none ↦ a ]) e

rotate_reads_example :
    (read_secret fernet (rotate_master_key world none disk).1 "openai" ≡ some "sk-1")
    ⊎ Stranded world none disk (rotate_master_key world none disk)
unfolding behind
rotate_reads_example =
    rotate_reads world (λ key random text valid. behind-append key text) none disk "openai" "sk-1"
      refl refl readable
      (λ table e. subst (λ t. NoRepeat (keys t)) (some_rows _ table e) (refl, (refl, tt)))

abbrev hash : String → String
hash token = token

abbrev database : Database
database = record { users = ("ann", record { role = viewer; created_at = 1 }) ∷ []; tokens = [] }

abbrev answer : TokenIssued
answer = record {
  token = "omn_x";
  token_hash = "omn_x";
  username = "ann";
  role = viewer;
  label = none;
}

issued_ok : (issue_token hash "ann" none (some 1) 100 "x" database).0 ≡ ok answer
unfolding issue_token get_user get has
issued_ok = refl

bob_is_other : ◌≢◌ {A = String} "bob" "ann"
bob_is_other e = cc (ap (λ (k : String). k == "bob") e)

abbrev between : List Call
between = role_updated "ann" editor ∷ deleted "bob" ∷ authenticated "omn_x" 150 ∷ []

authenticate-issue_example :
    (user : User) × (get_user "ann"
        (calls hash between (issue_token hash "ann" none (some 1) 100 "x" database).1)
      ≡ some user)
    × ((authenticate hash "omn_x" 200
          (calls hash between (issue_token hash "ann" none (some 1) 100 "x" database).1)).0
        ≡ some user)
authenticate-issue_example =
    authenticate-issue hash "ann" none (some 1) 100 "x" answer between 200 database issued_ok
      (tt, (bob_is_other, (inr (omega arith), tt))) (omega arith)

abbrev held : Database
held = record database {
  tokens =
      (
        "omn_x",
        record {
          username = "ann";
          label = none;
          created_at = 100;
          last_used_at = none;
          expires_at = some 86500;
        },
      )
      ∷ [];
}

-- ===== src/Auth/Users.antt =====
-- `UserStore` of omnicode_core/auth/users.py: users with a role, and tokens that stand for them. The two
-- SQL tables are dictionaries by their primary keys, and a time is a number. One call is one step.
pub mod Calls
pub mod Standing
pub mod Access
pub mod Ended
use omnicode_mcp.Prelude.{
  ℕ, ◌+◌, ◌*◌, String, Bool, true, false, not, ◌||◌, Option, none, some, List, [], ◌∷◌, keep,
  length, ltb, if◌then◌else◌,
}
use omnicode_mcp.Prelude.Eq.{◌==◌, string_eq}
use omnicode_mcp.Prelude.Dict.{Dict, get, put, pop, has}
use omnicode_mcp.Prelude.Result.{Result, ok, raise}
use omnicode_mcp.Prelude.Text.{strip, is_empty, ◌+++◌}

pub data Role : Type 0 where
  admin editor viewer : Role

pub record User : Type 0 where
  pub username : String
  pub role : Role
  pub created_at : ℕ

pub record UserRow : Type 0 where
  pub role : Role
  pub created_at : ℕ

pub record TokenRow : Type 0 where
  pub username : String
  pub label : Option String
  pub created_at : ℕ
  pub last_used_at : Option ℕ
  pub expires_at : Option ℕ

pub record Database : Type 0 where
  pub users : Dict String UserRow
  pub tokens : Dict String TokenRow

pub record TokenIssued : Type 0 where
  pub token : String
  pub token_hash : String
  pub username : String
  pub role : Role
  pub label : Option String

pub data UsersError : Type 0 where
  empty_username duplicate_token : UsersError
  user_exists unknown_user : String → UsersError

abbrev pub user_of : String → Option UserRow → Option User
user_of username none = none
user_of username (some row) =
    some (record { username = username; role = row.role; created_at = row.created_at })

unfoldable pub get_user : String → Database → Option User
get_user username db = user_of username (get db.users username)

unfoldable pub create_user :
    String → Role → ℕ → Database → Result UsersError (Option User) × Database
create_user name role now db =
    let username = strip name in
    let db' = record db {
      users = put db.users username (record { role = role; created_at = now });
    } in
    if is_empty name || is_empty username
    then (raise empty_username, db)
    else if has db.users username
    then (raise (user_exists username), db)
    else (ok (get_user username db'), db')

abbrev pub with_role : String → Role → Database → Option UserRow → Option User × Database
with_role username role db none = (none, db)
with_role username role db (some row) =
    let db' = record db { users = put db.users username (record row { role = role }) } in
    (get_user username db', db')

unfoldable pub update_role : String → Role → Database → Option User × Database
update_role username role db = with_role username role db (get db.users username)

-- The rows of `tokens` whose user is another one.
abbrev pub of_others : String → Dict String TokenRow → Dict String TokenRow
of_others username = keep (λ e. not (e.1.username == username))

-- DELETE FROM users, which cascades to the tokens of the user
unfoldable pub delete_user : String → Database → Bool × Database
delete_user username db =
    if has db.users username
    then (true, record { users = pop db.users username; tokens = of_others username db.tokens })
    else (false, db)

unfoldable pub revoke_token : String → Database → Bool × Database
revoke_token token_hash db =
    (has db.tokens token_hash, record db { tokens = pop db.tokens token_hash })

unfoldable pub revoke_user_tokens : String → Database → ℕ × Database
revoke_user_tokens username db = (
  length (keep (λ e. e.1.username == username) db.tokens),
  record db { tokens = of_others username db.tokens },
)

abbrev pub expiry : Option ℕ → ℕ → Option ℕ
expiry none now = none
expiry (some days) now = if ltb 0 days then some (now + days * 86400) else none

abbrev pub is_expired : Option ℕ → ℕ → Bool
is_expired none now = false
is_expired (some expires_at) now = ltb expires_at now

-- The row of the JOIN: the token's and its user's.
abbrev pub admit : String → ℕ → Database → TokenRow → Option User → Option User × Database
admit digest now db row none = (none, db)
admit digest now db row (some user) =
    if is_expired row.expires_at now then (none, record db { tokens = pop db.tokens digest }) else (
      some user,
      record db { tokens = put db.tokens digest (record row { last_used_at = some now }) },
    )

abbrev pub admit_token : String → ℕ → Database → Option TokenRow → Option User × Database
admit_token digest now db none = (none, db)
admit_token digest now db (some row) = admit digest now db row (get_user row.username db)

module _ (sha256 : String → String) where
  abbrev pub issue_to :
      String
      → Option String
      → Option ℕ
      → ℕ
      → String
      → Database
      → Option User
      → Result UsersError TokenIssued × Database
  issue_to username label days now token db none = (raise (unknown_user username), db)
  issue_to username label days now token db (some user) =
      if has db.tokens (sha256 token) then (raise duplicate_token, db) else (
        ok (record {
          token = token;
          token_hash = sha256 token;
          username = username;
          role = user.role;
          label = label;
        }),
        record db {
          tokens = put db.tokens (sha256 token) (record {
            username = username;
            label = label;
            created_at = now;
            last_used_at = none;
            expires_at = expiry days now;
          });
        },
      )

  -- `secret` is what `secrets.token_urlsafe` gives.
  unfoldable pub issue_token :
      String
      → Option String
      → Option ℕ
      → ℕ
      → String
      → Database
      → Result UsersError TokenIssued × Database
  issue_token username label days now secret db =
      issue_to username label days now ("omn_" +++ secret) db (get_user username db)

  unfoldable pub authenticate : String → ℕ → Database → Option User × Database
  authenticate token now db =
      if is_empty token
      then (none, db)
      else admit_token (sha256 token) now db (get db.tokens (sha256 token))

-- ===== src/Auth/Users/Ended.antt =====
-- A token that was revoked, ran out or lost its user is never admitted again.
use omnicode_mcp.Prelude.{◌≡◌, ◌≢◌, String, true, false, none, some}
use omnicode_mcp.Prelude.Eq.{string_eq}
use omnicode_mcp.Prelude.Dict.{Dict, get, has}
use omnicode_mcp.Prelude.Result.{Result}
use omnicode_mcp.Prelude.Text.{is_empty, ◌+++◌}
use omnicode_mcp.Auth.Users.{User, TokenRow, Database, get_user, is_expired}
use omnicode_mcp.Auth.Users.Calls.{Call, deleted, issued, revoked, user_revoked, authenticated}

abbrev Absent : String → Database → Type 0
Absent digest db = get db.tokens digest ≡ none

module _ (sha256 : String → String) where
  -- The call issues no token with that digest.
  abbrev pub IssuesOther : String → Call → Type 0
  IssuesOther digest (issued username label days now secret) = sha256 ("omn_" +++ secret) ≢ digest
  IssuesOther digest _ = Unit

  -- The call ends the token: it revokes it, revokes the tokens of its user, deletes the user, or
  -- presents it after its end.
  abbrev pub Ends : Database → String → Call → Type 0
  Ends db digest (revoked token_hash) = token_hash ≡ digest
  Ends db digest (user_revoked username) =
      (row : TokenRow) × (get db.tokens digest ≡ some row) × (row.username ≡ username)
  Ends db digest (deleted username) =
      (row : TokenRow) × (get db.tokens digest ≡ some row)
      × (row.username ≡ username)
      × (has db.users username ≡ true)
  Ends db digest (authenticated token now) =
      (row : TokenRow) × (user : User) × (is_empty token ≡ false)
      × (sha256 token ≡ digest)
      × (get db.tokens digest ≡ some row)
      × (get_user row.username db ≡ some user)
      × (is_expired row.expires_at now ≡ true)
  Ends db digest _ = ⊥

  module _ (digest : String) (db : Database) (gone : Absent digest db) where
    abbrev Gone : {R : Type 0} → R × Database → Type 0
    Gone out = Absent digest out.1

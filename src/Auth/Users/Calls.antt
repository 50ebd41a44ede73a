-- ===== src/Auth/Users/Calls.antt =====
-- The calls of the user store, and runs of them.
use omnicode_mcp.Prelude.{ℕ, String, Option, List, [], ◌∷◌}
use omnicode_mcp.Prelude.Eq.{string_eq}
use omnicode_mcp.Auth.Users.{
  Role, Database, create_user, update_role, delete_user, issue_token, revoke_token,
  revoke_user_tokens, authenticate,
}

-- A call of the store, with the time of those that read the clock.
pub data Call : Type 0 where
  created : String → Role → ℕ → Call
  role_updated : String → Role → Call
  deleted : String → Call
  issued : String → Option String → Option ℕ → ℕ → String → Call
  revoked : String → Call
  user_revoked : String → Call
  authenticated : String → ℕ → Call

module _ (sha256 : String → String) where
  unfoldable pub call : Call → Database → Database
  call (created username role now) db = (create_user username role now db).1
  call (role_updated username role) db = (update_role username role db).1
  call (deleted username) db = (delete_user username db).1
  call (issued username label days now secret) db =
      (issue_token sha256 username label days now secret db).1
  call (revoked token_hash) db = (revoke_token token_hash db).1
  call (user_revoked username) db = (revoke_user_tokens username db).1
  call (authenticated token now) db = (authenticate sha256 token now db).1

  unfoldable pub calls : List Call → Database → Database
  calls [] db = db
  calls (c ∷ cs) db = calls cs (call c db)

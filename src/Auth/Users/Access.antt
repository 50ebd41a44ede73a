-- ===== src/Auth/Users/Access.antt =====
-- An issued token stands for its user, whatever is done to others in between.
use omnicode_mcp.Prelude.{
  ℕ, ◌≡◌, refl, sym, ap, subst, inl, inr, String, false, Bool-cases, Option, none, some, List, All,
}
use omnicode_mcp.Prelude.Eq.{string_eq}
use omnicode_mcp.Prelude.Dict.{get, has, get-put_self}
use omnicode_mcp.Prelude.Result.{Result, ok, raise}
use omnicode_mcp.Prelude.Text.{is_empty, ◌+++◌}
use omnicode_mcp.Auth.Users.{
  UsersError, User, UserRow, Database, TokenIssued, user_of, get_user, expiry, issue_to,
  issue_token, authenticate,
}
use omnicode_mcp.Auth.Users.Calls.{Call, calls}
use omnicode_mcp.Auth.Users.Standing.{InTime, Spares, Stands, not_expired, calls-Stands}

module _ (sha256 : String → String) where
  row_of_user :
      (username : String) (found : Option UserRow) (user : User)
      → user_of username found ≡ some user
      → (row : UserRow) × (found ≡ some row)
  row_of_user username none user e = cc
  row_of_user username (some row) user e = (row, refl)

  ok_token :
      (a b : TokenIssued)
      → ◌≡◌ {A = Result UsersError TokenIssued} (ok a) (ok b)
      → a.token ≡ b.token
  ok_token a b e =
      ap (λ (r : Result UsersError TokenIssued). elim r [ ok x ↦ x.token | raise _ ↦ a.token ]) e

  issue_to-Stands :
      (username : String) (label : Option String) (days : Option ℕ) (now : ℕ) (token : String)
      (answer : TokenIssued) (db : Database) (user : Option User)
      → get_user username db ≡ user
      → (issue_to sha256 username label days now token db user).0 ≡ ok answer
      → (token ≡ answer.token)
        × Stands
            (sha256 token)
            username
            (expiry days now)
            (issue_to sha256 username label days now token db user).1
  unfolding get_user
  issue_to-Stands username label days now token answer db none known e = cc
  issue_to-Stands username label days now token answer db (some user) known e =
      elim (Bool-cases (has db.tokens (sha256 token))) [
        | inl taken ↦ cc (rw taken at e)
        | inr free ↦
            let (user_row, user_found) = row_of_user username (get db.users username) user known in
            rw free (
              ok_token _ answer (rw free at e),
              record {
                row = _;
                found = get-put_self db.tokens (sha256 token) _;
                owner = refl;
                ends = refl;
                user_row = user_row;
                user_found = user_found;
              },
            )
      ]

  Stands-admitted :
      (token username : String) (expires_at : Option ℕ) (later : ℕ) (db : Database)
      → is_empty token ≡ false
      → Stands (sha256 token) username expires_at db
      → InTime expires_at later
      → (user : User) × (get_user username db ≡ some user)
        × ((authenticate sha256 token later db).0 ≡ some user)
  unfolding authenticate get_user
  Stands-admitted token username expires_at later db full h time = (
    record { username = username; role = h.user_row.role; created_at = h.user_row.created_at },
    rw h.user_found refl,
    rw (full, h.found, h.owner, h.user_found, h.ends, not_expired expires_at later time) refl,
  )

  -- An issued token stands for its user: after calls that neither delete the user nor revoke the
  -- token, and use it only in its time, it is admitted in its time, as the user with the role of
  -- that moment.
  pub authenticate-issue :
      (username : String) (label : Option String) (days : Option ℕ) (now : ℕ) (secret : String)
      (answer : TokenIssued) (cs : List Call) (later : ℕ) (db : Database)
      → (issue_token sha256 username label days now secret db).0 ≡ ok answer
      → All (Spares sha256 (sha256 answer.token) username (expiry days now)) cs
      → InTime (expiry days now) later
      → (user : User) × (get_user username
            (calls sha256 cs (issue_token sha256 username label days now secret db).1)
          ≡ some user)
        × ((authenticate sha256 answer.token later
              (calls sha256 cs (issue_token sha256 username label days now secret db).1)).0
            ≡ some user)
  unfolding issue_token
  authenticate-issue username label days now secret answer cs later db returned spared time =
      let token = "omn_" +++ secret in
      let (same, stands) =
        issue_to-Stands username label days now token answer db (get_user username db) refl
          returned in
      let after =
        calls-Stands sha256 (sha256 token) username (expiry days now) cs
          (issue_token sha256 username label days now secret db).1
          (subst (λ t. All (Spares sha256 (sha256 t) username (expiry days now)) cs) (sym same)
            spared)
          stands in
      subst
        (λ t.
          (user : User) × (get_user username
              (calls sha256 cs (issue_token sha256 username label days now secret db).1)
            ≡ some user)
          × ((authenticate sha256 t later
                (calls sha256 cs (issue_token sha256 username label days now secret db).1)).0
              ≡ some user))
        same (Stands-admitted token username (expiry days now) later _ refl after time)

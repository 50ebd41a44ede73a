-- ===== src/Auth/Users/Standing.antt =====
-- What keeps a token and its user in their tables.
use omnicode_mcp.Prelude.{
  ℕ, ◌≤◌, ◌≡◌, ◌≢◌, refl, sym, ap, ◌∙◌, ◌⊎◌, inl, inr, String, true, false, not, ◌||◌, Bool-cases,
  if_either, Option, none, some, List, [], ◌∷◌, All, arith,
}
use omnicode_mcp.Prelude.Eq.{◌==◌, string_eq, beq_false, eq_of_beq}
use omnicode_mcp.Prelude.Dict.{Dict, get, put, has, has-get, get-put, get-pop}
use omnicode_mcp.Prelude.Filter.{get-keep-some}
use omnicode_mcp.Prelude.Result.{Result}
use omnicode_mcp.Prelude.Text.{strip, is_empty, ◌+++◌}
use omnicode_mcp.Auth.Users.{
  Role, UsersError, User, UserRow, TokenRow, Database, get_user, create_user, with_role,
  update_role, of_others, delete_user, issue_to, issue_token, revoke_token, revoke_user_tokens,
  is_expired, admit, admit_token, authenticate,
}
use omnicode_mcp.Auth.Users.Calls.{
  Call, created, role_updated, deleted, issued, revoked, user_revoked, authenticated, call, calls,
}

abbrev pub InTime : Option ℕ → ℕ → Type 0
InTime none now = Unit
InTime (some expires_at) now = now ≤ expires_at

pub not_expired :
    (expires_at : Option ℕ) (now : ℕ) → InTime expires_at now → is_expired expires_at now ≡ false
not_expired none now h = refl
not_expired (some e) now h = ground (arith, h)

-- The token's row and its user's are there.
pub record Stands (digest username : String) (expires_at : Option ℕ) (db : Database) : Type 0 where
  pub row : TokenRow
  pub found : get db.tokens digest ≡ some row
  pub owner : row.username ≡ username
  pub ends : row.expires_at ≡ expires_at
  pub user_row : UserRow
  pub user_found : get db.users username ≡ some user_row

module _ (sha256 : String → String) where
  -- The call neither deletes the user nor revokes the token, and comes before its end if it presents
  -- a token with that digest.
  abbrev pub Spares : String → String → Option ℕ → Call → Type 0
  Spares digest username expires_at (deleted other) = other ≢ username
  Spares digest username expires_at (revoked token_hash) = token_hash ≢ digest
  Spares digest username expires_at (user_revoked other) = other ≢ username
  Spares digest username expires_at (authenticated token now) =
      (sha256 token ≢ digest) ⊎ InTime expires_at now
  Spares digest username expires_at _ = Unit

  some_row : (a b : TokenRow) → some a ≡ some b → a ≡ b
  some_row a b e = ap (λ (o : Option TokenRow). elim o [ some x ↦ x | none ↦ a ]) e

  still_there :
      {V : Type 0} (d : Dict String V) (k j : String) (v w : V)
      → get d j ≡ some w
      → (u : V) × (get (put d k v) j ≡ some u)
  still_there d k j v w h = elim (Bool-cases (k == j)) [
    | inl same ↦ (v, rw (get-put, same) refl)
    | inr other ↦ (w, rw (get-put, other) h)
  ]

  module _ (digest username : String) (expires_at : Option ℕ) (db : Database)
      (h : Stands digest username expires_at db) where
    abbrev Here : Database → Type 0
    Here = Stands digest username expires_at

    abbrev After : {R : Type 0} → R × Database → Type 0
    After out = Here out.1

    users_put : (name : String) (row : UserRow) → Here (record db { users = put db.users name row })
    users_put name row =
        let (user_row, found) = still_there db.users name username row h.user_row h.user_found in
        record {
          row = h.row;
          found = h.found;
          owner = h.owner;
          ends = h.ends;
          user_row = user_row;
          user_found = found;
        }

    tokens_changed :
        (tokens : Dict String TokenRow) (row : TokenRow)
        → get tokens digest ≡ some row
        → row.username ≡ username
        → row.expires_at ≡ expires_at
        → Here (record db { tokens = tokens })
    tokens_changed tokens row found owner ends = record {
      row = row;
      found = found;
      owner = owner;
      ends = ends;
      user_row = h.user_row;
      user_found = h.user_found;
    }

    others_found :
        (other : String) → other ≢ username → get (of_others other db.tokens) digest ≡ some h.row
    others_found other apart =
        get-keep-some (λ e. not (e.1.username == other)) db.tokens digest h.row h.found
          (rw (h.owner, beq_false username other (λ e. apart (sym e))) refl)

    Here-create : (name : String) (role : Role) (now : ℕ) → After (create_user name role now db)
    unfolding create_user
    Here-create name role now =
        if_either (After {R = Result UsersError (Option User)})
          (is_empty name || is_empty (strip name)) _ _ h
          (if_either (After {R = Result UsersError (Option User)}) (has db.users (strip name)) _ _ h
            (users_put (strip name) (record { role = role; created_at = now })))

    Here-with_role :
        (name : String) (role : Role) (found : Option UserRow)
        → After (with_role name role db found)
    Here-with_role name role none = h
    Here-with_role name role (some row) = users_put name (record row { role = role })

    Here-delete : (other : String) → other ≢ username → After (delete_user other db)
    unfolding delete_user
    Here-delete other apart =
        if_either After (has db.users other) _ _
          (record {
            row = h.row;
            found = others_found other apart;
            owner = h.owner;
            ends = h.ends;
            user_row = h.user_row;
            user_found = rw (get-pop, beq_false other username apart) h.user_found;
          })
          h

    has_found : has db.tokens digest ≡ true
    has_found = rw (has-get, h.found) refl

    Here-issue :
        (name : String) (label : Option String) (days : Option ℕ) (now : ℕ) (token : String)
        (user : Option User)
        → After (issue_to sha256 name label days now token db user)
    Here-issue name label days now token none = h
    Here-issue name label days now token (some user) =
        elim (Bool-cases (has db.tokens (sha256 token))) [
          | inl taken ↦ rw taken h
          | inr free ↦
              let apart : (sha256 token == digest) ≡ false =
                beq_false (sha256 token) digest λ e. cc (ap (has db.tokens) e, free, has_found) in
              rw free (tokens_changed _ h.row (rw (get-put, apart) h.found) h.owner h.ends)
        ]

    Here-revoke : (token_hash : String) → token_hash ≢ digest → After (revoke_token token_hash db)
    unfolding revoke_token
    Here-revoke token_hash apart =
        tokens_changed _ h.row (rw (get-pop, beq_false token_hash digest apart) h.found) h.owner
          h.ends

    Here-revoke_user : (other : String) → other ≢ username → After (revoke_user_tokens other db)
    unfolding revoke_user_tokens
    Here-revoke_user other apart = tokens_changed _ h.row (others_found other apart) h.owner h.ends

    Here-admit :
        (hash : String) (now : ℕ) (row : TokenRow) (user : Option User)
        → get db.tokens hash ≡ some row
        → (hash ≢ digest) ⊎ InTime expires_at now
        → After (admit hash now db row user)
    Here-admit hash now row none found apart = h
    Here-admit hash now row (some user) found apart = elim (Bool-cases (hash == digest)) [
      | inl same ↦
          let own : row ≡ h.row =
            some_row row h.row
              (sym found ∙ ap (get db.tokens) (eq_of_beq hash digest same) ∙ h.found) in
          let ends : row.expires_at ≡ expires_at =
            ap (λ (r : TokenRow). r.expires_at) own ∙ h.ends in
          rw (ap (λ o. is_expired o now) ends, in_time (eq_of_beq hash digest same) apart)
            (tokens_changed _ (record row { last_used_at = some now }) (rw (get-put, same) refl)
              (ap (λ (r : TokenRow). r.username) own ∙ h.owner) ends)
      | inr other ↦
          if_either (After {R = Option User}) (is_expired row.expires_at now) _ _
            (tokens_changed _ h.row (rw (get-pop, other) h.found) h.owner h.ends)
            (tokens_changed _ h.row (rw (get-put, other) h.found) h.owner h.ends)
    ]
      where
        in_time :
            hash ≡ digest
            → (hash ≢ digest) ⊎ InTime expires_at now
            → is_expired expires_at now ≡ false
        in_time e (inl n) = absurd (n e)
        in_time e (inr t) = not_expired expires_at now t

    Here-admit_token :
        (hash : String) (now : ℕ) (row : Option TokenRow)
        → get db.tokens hash ≡ row
        → (hash ≢ digest) ⊎ InTime expires_at now
        → After (admit_token hash now db row)
    Here-admit_token hash now none found apart = h
    Here-admit_token hash now (some row) found apart = Here-admit hash now row _ found apart

  call-Stands :
      (digest username : String) (expires_at : Option ℕ) (c : Call) (db : Database)
      → Spares digest username expires_at c
      → Stands digest username expires_at db
      → Stands digest username expires_at (call sha256 c db)
  unfolding call update_role issue_token authenticate
  call-Stands digest username ends (created name role now) db spared h =
      Here-create digest username ends db h name role now
  call-Stands digest username ends (role_updated name role) db spared h =
      Here-with_role digest username ends db h name role (get db.users name)
  call-Stands digest username ends (deleted other) db spared h =
      Here-delete digest username ends db h other spared
  call-Stands digest username ends (issued name label days now secret) db spared h =
      Here-issue digest username ends db h name label days now ("omn_" +++ secret)
        (get_user name db)
  call-Stands digest username ends (revoked token_hash) db spared h =
      Here-revoke digest username ends db h token_hash spared
  call-Stands digest username ends (user_revoked other) db spared h =
      Here-revoke_user digest username ends db h other spared
  call-Stands digest username ends (authenticated token now) db spared h =
      if_either (After digest username ends db h) (is_empty token) _ _ h (
        Here-admit_token digest username ends db h (sha256 token) now (get db.tokens (sha256 token))
          refl spared)

  pub calls-Stands :
      (digest username : String) (expires_at : Option ℕ) (cs : List Call) (db : Database)
      → All (Spares digest username expires_at) cs
      → Stands digest username expires_at db
      → Stands digest username expires_at (calls sha256 cs db)
  unfolding calls
  calls-Stands digest username ends [] db spared h = h
  calls-Stands digest username ends (c ∷ cs) db spared h =
      calls-Stands digest username ends cs (call sha256 c db) spared.1
        (call-Stands digest username ends c db spared.0 h)

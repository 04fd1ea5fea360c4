-- ===== src/Auth/Repository.antt =====
-- services/auth-service/internal/infrastructure/repository/postgres/repository.go. A query's text is built by a library; the
-- model has what the query says. LIKE is the database's, and a parameter.
use holdem.Prelude.{
  ℕ, Bool, true, false, ◌&&◌, ◌||◌, not, leb, ◌==◌, Option, none, some, List, [], ◌∷◌, ◌++◌, map,
  keep_if, take, ok, Error, fail_if, or_fail,
}
use holdem.Prelude.Text.{Bytes, bytes_eq, to_lower}
use holdem.Prelude.Ascii.{ascii}
use holdem.Auth.{
  User, Credential, UserWithPassword, RefreshSession, Db, Env, Sql, insert_user, insert_credential,
  find_by_email, find_user, search_users, insert_session, find_session, revoke_session,
  insert_rotated, revoke_by_hash,
}
use holdem.Database.{
  return, query, exec, insert_row, with_tx, find_row, exists_row, update_rows, count_rows, order_by,
  ◌>>=◌, ◌>>◌,
}

abbrev pub has_email : Bytes → User → Bool
has_email e u = bytes_eq u.email e

abbrev pub has_user_id : Bytes → User → Bool
has_user_id id u = bytes_eq u.id id

abbrev pub has_hash : Bytes → RefreshSession → Bool
has_hash h s = bytes_eq s.token_hash h

-- revoked_at IS NULL
abbrev pub is_open : RefreshSession → Bool
is_open s = elim s.revoked_at [ none ↦ true | some t ↦ false ]

abbrev pub revoked : ℕ → RefreshSession → RefreshSession
revoked t s = record s { revoked_at = some t }

-- FROM auth.users JOIN auth.password_credentials
abbrev pub joined : List User → List Credential → List (User × Credential)
joined [] cs = []
joined (u ∷ us) cs =
    map (λ c. (u, c)) (keep_if (λ (c : Credential). bytes_eq c.user_id u.id) cs) ++ joined us cs

-- the row of `FindUserWithPasswordByEmail`
abbrev pub login_row : Bytes → Db → Option (User × Credential)
login_row e db =
    find_row (λ (x : User × Credential). has_email e x.0) (joined db.users db.credentials)

-- a session whose id, token or user the constraints refuse
abbrev pub session_refused : RefreshSession → Db → Bool
session_refused s db =
    exists_row (λ (o : RefreshSession). bytes_eq o.id s.id) db.sessions
    || exists_row (has_hash s.token_hash) db.sessions
    || not (exists_row (has_user_id s.user_id) db.users)

module _ (env : Env) where
  -- `CreateUser`
  unfoldable pub create_user : User → Bytes → Sql (Unit {0})
  create_user user password_hash = with_tx env do
    insert_row env insert_user
        (λ db.
          exists_row (has_user_id user.id) db.users || exists_row (has_email user.email) db.users)
        Error.email_taken (λ db. record db { users = user ∷ db.users })
    insert_row env insert_credential
        (λ db.
          exists_row (λ (c : Credential). bytes_eq c.user_id user.id) db.credentials
          || not (exists_row (has_user_id user.id) db.users))
        Error.statement_failed
        (λ db. record db {
          credentials =
              record { user_id = user.id; password_hash = password_hash } ∷ db.credentials;
        })

  -- `FindUserWithPasswordByEmail`
  unfoldable pub find_user_with_password_by_email : Bytes → Sql UserWithPassword
  find_user_with_password_by_email email = do
    row ← query env find_by_email (login_row (to_lower email))
    found ← return (or_fail row Error.invalid_credentials)
    return (ok (record { user = found.0; password_hash = found.1.password_hash }))

  -- `FindUserByID`
  unfoldable pub find_user_by_id : Bytes → Sql User
  find_user_by_id id = do
    row ← query env find_user (λ db. find_row (has_user_id id) db.users)
    return (or_fail row Error.user_not_found)

  -- `SearchUsersByEmail`
  unfoldable pub search_by_email : (Bytes → Bytes → Bool) → Bytes → ℕ → Sql (List User)
  search_by_email like text limit = query env search_users (λ db. take limit (
      order_by (λ (a b : User). leb b.created_at a.created_at)
        (keep_if (λ (u : User). like u.email (ascii "%" ++ (to_lower text ++ ascii "%")))
          db.users)))

  -- `CreateRefreshSession`
  unfoldable pub create_refresh_session : RefreshSession → Sql (Unit {0})
  create_refresh_session s =
      insert_row env insert_session (session_refused s) Error.statement_failed
        (λ db. record db { sessions = s ∷ db.sessions })

  -- `FindRefreshSessionByTokenHash`
  unfoldable pub find_refresh_session : Bytes → Sql RefreshSession
  find_refresh_session hash = do
    row ← query env find_session (λ db. find_row (has_hash hash) db.sessions)
    return (or_fail row Error.invalid_refresh_token)

  -- the statements of `RotateRefreshSession`
  unfoldable pub rotate_tx : Bytes → RefreshSession → Sql (Unit {0})
  rotate_tx old s = do
    changed ← exec env revoke_session (λ db. (
      count_rows (λ (o : RefreshSession). bytes_eq o.id old && is_open o) db.sessions,
      record db {
        sessions = update_rows (λ o. bytes_eq o.id old && is_open o) (revoked env.now) db.sessions;
      },
    ))
    insert_row env insert_rotated (session_refused s) Error.statement_failed
        (λ db. record db { sessions = s ∷ db.sessions })

  -- `RotateRefreshSession`
  unfoldable pub rotate_refresh_session : Bytes → RefreshSession → Sql (Unit {0})
  rotate_refresh_session old s = with_tx env (rotate_tx old s)

  -- `RevokeRefreshSession`
  unfoldable pub revoke_refresh_session : Bytes → Sql (Unit {0})
  revoke_refresh_session hash = do
    changed ← exec env revoke_by_hash (λ db. (
      count_rows (λ o. has_hash hash o && is_open o) db.sessions,
      record db {
        sessions = update_rows (λ o. has_hash hash o && is_open o) (revoked env.now) db.sessions;
      },
    ))
    return (fail_if (changed == 0) Error.invalid_refresh_token)

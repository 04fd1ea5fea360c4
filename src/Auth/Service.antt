-- ===== src/Auth/Service.antt =====
-- services/auth-service/internal/application/service.go. Password and token libraries are parameters; so are the texts that
-- they make at random, which may depend on all that there is.
use holdem.Prelude.{
  ℕ, Bool, true, false, ◌&&◌, ◌||◌, not, ltb, ◌==◌, if◌then◌else◌, none, some, List, [], ◌∷◌,
  length, map, Outcome, ok, Error, fail_if,
}
use holdem.Prelude.Text.{Bytes, bytes_eq, is_empty, trim_space, to_lower}
use holdem.Prelude.Int.{ℤ, pos, negsuc}
use holdem.Auth.{User, RefreshSession, Db, Env, IdPrefix, Sql, publish_created}
use holdem.Auth.Repository.{
  create_user, find_user_with_password_by_email, find_user_by_id, search_by_email,
  create_refresh_session, find_refresh_session, rotate_refresh_session, revoke_refresh_session,
}
use holdem.Database.{return, ◌>>=◌, ◌>>◌}

-- `TokenManager`, and the functions of the package security for passwords
pub record Library : Type 0 where
  pub issue_access_token : Bytes → Bool → Outcome Bytes
  -- a token, its hash, and when it expires
  pub new_refresh_token : Db → Outcome (Bytes × (Bytes × ℕ))
  pub hash_refresh_token : Bytes → Bytes
  pub hash_password : Bytes → Outcome Bytes
  pub check_password : Bytes → Bytes → Bool

-- `AuthResult`
pub record AuthResult : Type 0 where
  pub access_token : Bytes
  pub refresh_token : Bytes
  pub user : User

-- `normalizeEmail`
unfoldable pub normalize_email : Bytes → Bytes
normalize_email e = to_lower (trim_space e)

-- `NewService`: the keys of its map of admins
abbrev pub admins_of : List Bytes → List Bytes
admins_of emails = map normalize_email emails

abbrev pub listed : Bytes → List Bytes → Bool
listed e [] = false
listed e (a ∷ rest) = bytes_eq a e || listed e rest

-- `isAdminEmail`
unfoldable pub is_admin_email : List Bytes → Bytes → Bool
is_admin_email admins e = listed (normalize_email e) admins

-- strings.Contains, strings.HasPrefix and strings.HasSuffix for "@"
unfoldable pub contains_at : Bytes → Bool
contains_at [] = false
contains_at (b ∷ s) = b == b'@' || contains_at s

unfoldable pub starts_with_at : Bytes → Bool
starts_with_at [] = false
starts_with_at (b ∷ s) = b == b'@'

unfoldable pub ends_with_at : Bytes → Bool
ends_with_at [] = false
ends_with_at (b ∷ []) = b == b'@'
ends_with_at (b ∷ c ∷ s) = ends_with_at (c ∷ s)

-- `isValidEmail`
unfoldable pub is_valid_email : Bytes → Bool
is_valid_email e = contains_at e && not (starts_with_at e) && not (ends_with_at e)

-- `newID`
unfoldable pub new_id : Env → IdPrefix → Sql Bytes
new_id env p db = (ok (env.new_id p db), db)

unfoldable pub new_token : Library → Sql (Bytes × (Bytes × ℕ))
new_token lib db = (lib.new_refresh_token db, db)

-- `PublishUserCreated`, whose error is dropped; without a publisher there is no call
unfoldable pub publish_user : Env → Bool → User → Sql (Unit {0})
publish_user env has_publisher u db = (
  ok tt,
  if has_publisher && not (env.fails publish_created db)
      then record db { published = u ∷ db.published }
      else db,
)

abbrev pub is_blank : Bytes → Bool
is_blank token = is_empty (trim_space token)

-- session.RevokedAt != nil || session.ExpiresAt.Before(now)
abbrev pub is_over : ℕ → RefreshSession → Bool
is_over now s = elim s.revoked_at [ none ↦ ltb s.expires_at now | some t ↦ true ]

module _ (lib : Library) (env : Env) where
  -- `issueSession`
  unfoldable pub issue_session : User → Sql AuthResult
  issue_session user = do
    access ← return (lib.issue_access_token user.id user.is_admin)
    (token, (hash, expires)) ← new_token lib
    id ← new_id env IdPrefix.refresh
    create_refresh_session env (record {
      id = id;
      user_id = user.id;
      token_hash = hash;
      expires_at = expires;
      revoked_at = none;
    })
    return (ok (record { access_token = access; refresh_token = token; user = user }))

  -- `Register`
  unfoldable pub register : List Bytes → Bool → Bytes → Bytes → Sql AuthResult
  register admins has_publisher mail password = do
    return (
        fail_if (not (is_valid_email (normalize_email mail)) || ltb (length password) 8)
          Error.invalid_input)
    password_hash ← return (lib.hash_password password)
    id ← new_id env IdPrefix.user
    user ← return (
        ok (record {
          id = id;
          email = normalize_email mail;
          is_admin = is_admin_email admins (normalize_email mail);
          created_at = env.now;
        }))
    create_user env user password_hash
    publish_user env has_publisher user
    issue_session user

  -- `Login`
  unfoldable pub login : Bytes → Bytes → Sql AuthResult
  login mail password = do
    found ← find_user_with_password_by_email env (normalize_email mail)
    return
        (fail_if (not (lib.check_password found.password_hash password)) Error.invalid_credentials)
    issue_session found.user

  -- the end of `Refresh`: the tokens, and the new session in place of the old one
  unfoldable pub reissue : RefreshSession → User → Sql AuthResult
  reissue session user = do
    access ← return (lib.issue_access_token user.id user.is_admin)
    (next, (hash, expires)) ← new_token lib
    id ← new_id env IdPrefix.refresh
    rotate_refresh_session env session.id (record {
      id = id;
      user_id = user.id;
      token_hash = hash;
      expires_at = expires;
      revoked_at = none;
    })
    return (ok (record { access_token = access; refresh_token = next; user = user }))

  -- the start of `Refresh`: the session of the token, which must not be over
  unfoldable pub live_session : Bytes → Sql RefreshSession
  live_session token = do
    return (fail_if (is_blank token) Error.invalid_refresh_token)
    session ← find_refresh_session env (lib.hash_refresh_token token)
    return (fail_if (is_over env.now session) Error.invalid_refresh_token)
    return (ok session)

  -- `Refresh`
  unfoldable pub refresh : Bytes → Sql AuthResult
  refresh token = do
    session ← live_session token
    user ← find_user_by_id env session.user_id
    reissue session user

  -- `Logout`
  unfoldable pub logout : Bytes → Sql (Unit {0})
  logout token = do
    return (fail_if (is_blank token) Error.invalid_refresh_token)
    revoke_refresh_session env (lib.hash_refresh_token token)

-- `Me`
unfoldable pub me : Env → Bytes → Sql User
me env id = do return (fail_if (is_blank id) Error.user_not_found); find_user_by_id env id

-- the limit of `SearchUsersByEmail`
abbrev pub search_limit : ℤ → ℕ
search_limit (pos n) = if n == 0 then 20 else n
search_limit (negsuc n) = 20

-- `SearchUsersByEmail`
unfoldable pub search_users_by_email : Env → (Bytes → Bytes → Bool) → Bytes → ℤ → Sql (List User)
search_users_by_email env like text limit = do
  return (fail_if (is_empty (normalize_email text)) Error.invalid_input)
  search_by_email env like (normalize_email text) (search_limit limit)

-- ===== src/Auth/Registered.antt =====
-- services/auth-service/internal/application/service.go: what `Register` leaves, and the login after it.
use holdem.Prelude.{
  ◌≡◌, refl, sym, ap, ◌∙◌, subst, ℕ, Bool, true, false, ◌&&◌, ◌||◌, not, ltb, Bool-cases, inl, inr,
  some, List, [], ◌∷◌, keep_if, length, ok, arith,
}
use holdem.Prelude.Text.{Bytes, bytes_eq_refl, to_lower, lower_byte, trim_space}
use holdem.Auth.{User, Credential, Db, Env, publish_created}
use holdem.Auth.Repository.{
  joined, login_row, create_user, create_refresh_session, find_user_with_password_by_email,
}
use holdem.Auth.Service.{
  Library, AuthResult, normalize_email, is_valid_email, is_admin_email, new_id, new_token,
  publish_user, issue_session, register, login,
}
use holdem.Database.{IsHealthy, return, query, find_row, ◌>>=◌}
use holdem.Database.Inversion.{went, >>=-Went, insert_row-ok, with_tx-ok, not_failed, ok_value}

-- the tables after `CreateUser`
abbrev pub created_db : User → Bytes → Db → Db
created_db u hash db = record db {
  users = u ∷ db.users;
  credentials = record { user_id = u.id; password_hash = hash } ∷ db.credentials;
}

create_user-ok :
    (env : Env) (u : User) (hash : Bytes) (db : Db) {v : Unit {0}}
    → (create_user env u hash db).0 ≡ ok v
    → (create_user env u hash db).1 ≡ created_db u hash db
unfolding create_user
create_user-ok env u hash db h =
    let body = with_tx-ok env _ db h in
    ap (λ x. x.1) body ∙ (elim (>>=-Went _ _ db (ap (λ x. x.0) (sym body) ∙ h)) [
      | went v between inserts goes ends ↦
          let first = sym inserts ∙ insert_row-ok env _ _ _ _ db (ap (λ x. x.0) inserts) in
          ap (λ x. x.1) (goes ∙ insert_row-ok env _ _ _ _ between ends)
          ∙ ap
              (λ x. record x.1 {
                credentials = record { user_id = u.id; password_hash = hash } ∷ x.1.credentials;
              })
              first
    ])

-- the accounts of two states are the same
pub record SameAccounts (db db' : Db) : Type 0 where
  pub same_users : db'.users ≡ db.users
  pub same_credentials : db'.credentials ≡ db.credentials

publish_user-SameAccounts :
    (env : Env) (b : Bool) (u : User) (db : Db) → SameAccounts db (publish_user env b u db).1
unfolding publish_user
publish_user-SameAccounts env b u db = elim (Bool-cases (b && not (env.fails publish_created db))) [
  | inl taken ↦ rw taken (record { same_users = refl; same_credentials = refl })
  | inr dropped ↦ rw dropped (record { same_users = refl; same_credentials = refl })
]

-- A session that is issued is the user's, and leaves the accounts.
issue_session-ok :
    (lib : Library) (env : Env) (u : User) (db : Db) (r : AuthResult)
    → (issue_session lib env u db).0 ≡ ok r
    → (r.user ≡ u) × SameAccounts db (issue_session lib env u db).1
unfolding issue_session return new_token new_id create_refresh_session
issue_session-ok lib env u db r h = elim (>>=-Went _ _ db h) [
  | went access db1 issues goes1 h ↦ elim (>>=-Went _ _ db1 h) [
    | went fresh db2 makes goes2 h ↦ elim (>>=-Went _ _ db2 h) [
      | went id db3 ids goes3 h ↦ elim (>>=-Went _ _ db3 h) [
        | went v after inserts goes4 ends ↦
            let same : db3 ≡ db =
              sym (ap (λ x. x.1) ids) ∙ (sym (ap (λ x. x.1) makes) ∙ sym (ap (λ x. x.1) issues)) in
            let row = sym inserts ∙ insert_row-ok env _ _ _ _ db3 (ap (λ x. x.0) inserts) in
            let there = ap (λ x. x.1) (goes1 ∙ (goes2 ∙ (goes3 ∙ goes4))) ∙ ap (λ x. x.1) row in
            (
              ap (λ x. x.user) (sym (ok_value ends)),
              record {
                same_users = ap (λ d. d.users) there ∙ ap (λ d. d.users) same;
                same_credentials = ap (λ d. d.credentials) there ∙ ap (λ d. d.credentials) same;
              },
            )
      ]
    ]
  ]
]

-- What `Register` leaves: a user with the normalized email, whom the configuration makes an admin or not, and the
-- hash of the password.
pub record Registered (lib : Library) (admins : List Bytes) (mail password : Bytes) (before : Db)
    (user : User) (after : Db) : Type 0 where
  pub password_hash : Bytes
  pub hashed : lib.hash_password password ≡ ok password_hash
  pub valid : is_valid_email (normalize_email mail) ≡ true
  pub long_enough : ltb (length password) 8 ≡ false
  pub of_email : user.email ≡ normalize_email mail
  pub admin : user.is_admin ≡ is_admin_email admins (normalize_email mail)
  pub with_user : after.users ≡ user ∷ before.users
  pub with_credential :
      after.credentials
      ≡ record { user_id = user.id; password_hash = password_hash } ∷ before.credentials

pub register-Registered :
    (lib : Library) (env : Env) (admins : List Bytes) (publishes : Bool) (mail password : Bytes)
    (db : Db) (r : AuthResult)
    → (register lib env admins publishes mail password db).0 ≡ ok r
    → Registered lib admins mail password db r.user
        (register lib env admins publishes mail password db).1
unfolding register return new_id
register-Registered lib env admins publishes mail password db r h = elim (>>=-Went _ _ db h) [
  | went _ db0 checks goes0 h ↦
      let (valid, long) =
        either (is_valid_email (normalize_email mail)) (ltb (length password) 8)
          (not_failed _ _ (ap (λ x. x.0) checks)) in
      elim (>>=-Went _ _ db0 h) [
        | went hash db1 hashes goes1 h ↦ elim (>>=-Went _ _ db1 h) [
          | went id db2 ids goes2 h ↦ elim (>>=-Went _ _ db2 h) [
            | went u db3 names goes3 h ↦ elim (>>=-Went _ _ db3 h) [
              | went _ db4 creates goes4 h ↦ elim (>>=-Went _ _ db4 h) [
                | went _ db5 announces goes5 h ↦
                    let (of_result, issued) = issue_session-ok lib env u db5 r h in
                    let is_user = ok_value (ap (λ x. x.0) names) in
                    let start : db3 ≡ db =
                      sym (ap (λ x. x.1) names)
                      ∙ (sym (ap (λ x. x.1) ids)
                          ∙ (sym (ap (λ x. x.1) hashes) ∙ sym (ap (λ x. x.1) checks))) in
                    let created : db4 ≡ created_db u hash db =
                      sym (ap (λ x. x.1) creates)
                      ∙ (create_user-ok env u hash db3 (ap (λ x. x.0) creates)
                          ∙ ap (created_db u hash) start) in
                    let announced : SameAccounts db4 db5 =
                      subst (SameAccounts db4) (ap (λ x. x.1) announces)
                        (publish_user-SameAccounts env publishes u db4) in
                    let after =
                      ap (λ x. x.1) (goes0 ∙ (goes1 ∙ (goes2 ∙ (goes3 ∙ (goes4 ∙ goes5))))) in
                    subst
                      (λ v.
                        Registered lib admins mail password db v
                          (register lib env admins publishes mail password db).1)
                      (sym of_result)
                      (record {
                        password_hash = hash;
                        hashed = ap (λ x. x.0) hashes;
                        valid = valid;
                        long_enough = long;
                        of_email = ap (λ x. x.email) (sym is_user);
                        admin = ap (λ x. x.is_admin) (sym is_user);
                        with_user =
                            ap (λ d. d.users) after
                            ∙ (issued.same_users
                                ∙ (announced.same_users ∙ ap (λ d. d.users) created));
                        with_credential =
                            ap (λ d. d.credentials) after
                            ∙ (issued.same_credentials
                                ∙ (announced.same_credentials ∙ ap (λ d. d.credentials) created));
                      })
              ]
            ]
          ]
        ]
      ]
]
  where
    either : (a b : Bool) → (not a || b) ≡ false → (a ≡ true) × (b ≡ false)
    either true b e = (refl, e)
    either false b e = cc

lower_byte-twice : (b : ℕ) → lower_byte (lower_byte b) ≡ lower_byte b
unfolding lower_byte
lower_byte-twice b = ground arith

to_lower-twice : (s : Bytes) → to_lower (to_lower s) ≡ to_lower s
unfolding to_lower
to_lower-twice [] = refl
to_lower-twice (b ∷ s) = rw (lower_byte-twice b) (ap (λ l. lower_byte b ∷ l) (to_lower-twice s))

-- The newest user is found by the email.
login_row-new :
    (u : User) (hash : Bytes) (db after : Db)
    → after.users ≡ u ∷ db.users
    → after.credentials ≡ record { user_id = u.id; password_hash = hash } ∷ db.credentials
    → login_row u.email after ≡ some (u, record { user_id = u.id; password_hash = hash })
login_row-new u hash db after users credentials =
    rw
      (
        login_row,
        users,
        credentials,
        joined,
        keep_if,
        bytes_eq_refl u.id,
        find_row,
        bytes_eq_refl u.email,
      )
      refl

find_user_with_password_by_email-run :
    (env : Env)
    → IsHealthy env
    → (e : Bytes) (db : Db) {x : User × Credential} → login_row (to_lower e) db ≡ some x
    → find_user_with_password_by_email env e db
      ≡ (ok (record { user = x.0; password_hash = x.1.password_hash }), db)
unfolding find_user_with_password_by_email return ◌>>=◌ query
find_user_with_password_by_email-run env healthy e db there = rw (healthy.runs _ _, there) refl

-- After a registration, a login with the password and an email that is the same but for letter case and spaces comes to the
-- user, and ends as the session that is issued.
pub login-register :
    (lib : Library) (env env' : Env) (admins : List Bytes) (publishes : Bool)
    (mail mail' password : Bytes) (db : Db) (r : AuthResult)
    → IsHealthy env'
    → ((hash : Bytes)
        → lib.hash_password password ≡ ok hash
        → lib.check_password hash password ≡ true)
    → normalize_email mail' ≡ normalize_email mail
    → (register lib env admins publishes mail password db).0 ≡ ok r
    → login lib env' mail' password (register lib env admins publishes mail password db).1
      ≡ issue_session lib env' r.user (register lib env admins publishes mail password db).1
unfolding login return normalize_email ◌>>=◌
login-register lib env env' admins publishes mail mail' password db r healthy checks same h =
    let made = register-Registered lib env admins publishes mail password db r h in
    let after = (register lib env admins publishes mail password db).1 in
    let lower : to_lower (normalize_email mail') ≡ r.user.email =
      to_lower-twice (trim_space mail') ∙ (same ∙ sym made.of_email) in
    let row =
      ap (λ e. login_row e after) lower
      ∙ login_row-new r.user made.password_hash db after made.with_user made.with_credential in
    rw
      (
        find_user_with_password_by_email-run env' healthy (normalize_email mail') after row,
        checks made.password_hash made.hashed,
      )
      refl

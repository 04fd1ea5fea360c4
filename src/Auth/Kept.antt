-- ===== src/Auth/Kept.antt =====
-- services/auth-service: properties of the tables that every call keeps, however it ends.
use holdem.Prelude.{◌≡◌, refl, ℕ, Bool, false, ◌||◌, ◌&&◌, not, List, ◌∷◌, ok, Bool-cases, inl, inr}
use holdem.Prelude.Text.{Bytes}
use holdem.Prelude.Int.{ℤ}
use holdem.Auth.{User, Credential, RefreshSession, Db, Env, Sql, publish_created}
use holdem.Auth.Repository.{
  has_email, has_user_id, is_open, revoked, session_refused, create_user,
  find_user_with_password_by_email, find_user_by_id, search_by_email, create_refresh_session,
  find_refresh_session, rotate_tx, rotate_refresh_session, revoke_refresh_session,
}
use holdem.Auth.Service.{
  Library, is_admin_email, new_id, new_token, publish_user, issue_session, register, login, reissue,
  live_session, refresh, logout, me, search_users_by_email,
}
use holdem.Database.{return, update_rows, exists_row, ◌>>=◌}
use holdem.Database.Keeps.{
  Keeps, >>=-Keeps, >>=-KeepsOk, return-Keeps, Keeps→Ok, query-Keeps, exec-Keeps,
  insert_row-Keeps_new, with_tx-Keeps,
}

-- the sessions after an update that revokes
abbrev pub revoked_db : (RefreshSession → Bool) → ℕ → Db → Db
revoked_db test t db = record db {
  sessions = update_rows (λ o. test o && is_open o) (revoked t) db.sessions;
}

-- What keeps a property of the tables: the rows that the statements write, with what the constraints let through.
pub record Kept (admins : List Bytes) (P : Db → Type 0) : Type 0 where
  pub revoking : (test : RefreshSession → Bool) (t : ℕ) (db : Db) → P db → P (revoked_db test t db)
  pub opening :
      (s : RefreshSession) (db : Db)
      → session_refused s db ≡ false
      → P db
      → P (record db { sessions = s ∷ db.sessions })
  pub signing :
      (u : User) (db : Db)
      → u.is_admin ≡ is_admin_email admins u.email
      → (exists_row (has_user_id u.id) db.users || exists_row (has_email u.email) db.users) ≡ false
      → P db
      → P (record db { users = u ∷ db.users })
  pub crediting :
      (c : Credential) (db : Db) → P db → P (record db { credentials = c ∷ db.credentials })
  pub announcing : (u : User) (db : Db) → P db → P (record db { published = u ∷ db.published })

-- a value that is only named
return-then-Keeps :
    {P : Db → Type 0} {A B : Type 0} (a : A) (f : A → Sql B)
    → Keeps P (f a)
    → Keeps P (return (ok a) >>= f)
unfolding return ◌>>=◌
return-then-Keeps a f keep = keep

module _ (admins : List Bytes) (P : Db → Type 0) (law : Kept admins P) where
  module _ (env : Env) where
    pub create_user-Keeps :
        (u : User) (hash : Bytes)
        → u.is_admin ≡ is_admin_email admins u.email
        → Keeps P (create_user env u hash)
    unfolding create_user
    create_user-Keeps u hash right = with_tx-Keeps P env _ (
        >>=-KeepsOk P _ _
          (Keeps→Ok P _ (insert_row-Keeps_new P env _ _ _ _ (λ db. law.signing u db right)))
          λ v. Keeps→Ok P _ (insert_row-Keeps_new P env _ _ _ _ (λ db free. law.crediting _ db)))

    create_refresh_session-Keeps : (s : RefreshSession) → Keeps P (create_refresh_session env s)
    unfolding create_refresh_session
    create_refresh_session-Keeps s = insert_row-Keeps_new P env _ _ _ _ (law.opening s)

    rotate_refresh_session-Keeps :
        (old : Bytes) (s : RefreshSession) → Keeps P (rotate_refresh_session env old s)
    unfolding rotate_refresh_session rotate_tx
    rotate_refresh_session-Keeps old s = with_tx-Keeps P env _ (
        >>=-KeepsOk P _ _ (Keeps→Ok P _ (exec-Keeps P env _ _ (λ db. law.revoking _ env.now db)))
          λ n. Keeps→Ok P _ (insert_row-Keeps_new P env _ _ _ _ (law.opening s)))

    revoke_refresh_session-Keeps : (hash : Bytes) → Keeps P (revoke_refresh_session env hash)
    unfolding revoke_refresh_session
    revoke_refresh_session-Keeps hash =
        >>=-Keeps P _ _ (exec-Keeps P env _ _ (λ db. law.revoking _ env.now db))
          λ n. return-Keeps P _

    find_user_by_id-Keeps : (id : Bytes) → Keeps P (find_user_by_id env id)
    unfolding find_user_by_id
    find_user_by_id-Keeps id = >>=-Keeps P _ _ (query-Keeps P env _ _) λ row. return-Keeps P _

    pub publish_user-Keeps : (b : Bool) (u : User) → Keeps P (publish_user env b u)
    unfolding publish_user
    publish_user-Keeps b u db p = elim (Bool-cases (b && not (env.fails publish_created db))) [
      | inl taken ↦ rw taken (law.announcing u db p)
      | inr dropped ↦ rw dropped p
    ]

  module _ (lib : Library) (env : Env) where
    pub issue_session-Keeps : (u : User) → Keeps P (issue_session lib env u)
    unfolding issue_session new_token new_id
    issue_session-Keeps u = >>=-Keeps P _ _ (return-Keeps P _) λ access.
        >>=-Keeps P _ _ (λ db p. p)
          λ fresh.
            >>=-Keeps P _ _ (λ db p. p)
              λ id. >>=-Keeps P _ _ (create_refresh_session-Keeps env _) λ v. return-Keeps P _

    pub register-Keeps :
        (b : Bool) (mail password : Bytes) → Keeps P (register lib env admins b mail password)
    unfolding register new_id
    register-Keeps b mail password = >>=-Keeps P _ _ (return-Keeps P _) λ v.
        >>=-Keeps P _ _ (return-Keeps P _) λ hash.
          >>=-Keeps P _ _ (λ db p. p)
            λ id. return-then-Keeps _ _ (
              >>=-Keeps P _ _ (create_user-Keeps env _ hash refl)
                λ v. >>=-Keeps P _ _ (publish_user-Keeps env b _) λ v. issue_session-Keeps _)

    pub login-Keeps : (mail password : Bytes) → Keeps P (login lib env mail password)
    unfolding login find_user_with_password_by_email
    login-Keeps mail password =
        >>=-Keeps P _ _
          (>>=-Keeps P _ _ (query-Keeps P env _ _)
            λ row. >>=-Keeps P _ _ (return-Keeps P _) λ found. return-Keeps P _)
          λ found. >>=-Keeps P _ _ (return-Keeps P _) λ v. issue_session-Keeps found.user

    pub reissue-Keeps : (s : RefreshSession) (u : User) → Keeps P (reissue lib env s u)
    unfolding reissue new_token new_id
    reissue-Keeps s u = >>=-Keeps P _ _ (return-Keeps P _) λ access.
        >>=-Keeps P _ _ (λ db p. p)
          λ fresh.
            >>=-Keeps P _ _ (λ db p. p)
              λ id. >>=-Keeps P _ _ (rotate_refresh_session-Keeps env s.id _) λ v. return-Keeps P _

    pub refresh-Keeps : (token : Bytes) → Keeps P (refresh lib env token)
    unfolding refresh live_session find_refresh_session
    refresh-Keeps token =
        >>=-Keeps P _ _
          (>>=-Keeps P _ _ (return-Keeps P _) λ v.
            >>=-Keeps P _ _ (>>=-Keeps P _ _ (query-Keeps P env _ _) λ row. return-Keeps P _)
              λ s. >>=-Keeps P _ _ (return-Keeps P _) λ v. return-Keeps P _)
          λ s. >>=-Keeps P _ _ (find_user_by_id-Keeps env s.user_id) (reissue-Keeps s)

    pub logout-Keeps : (token : Bytes) → Keeps P (logout lib env token)
    unfolding logout
    logout-Keeps token = >>=-Keeps P _ _ (return-Keeps P _) λ v. revoke_refresh_session-Keeps env _

  pub me-Keeps : (env : Env) (id : Bytes) → Keeps P (me env id)
  unfolding me
  me-Keeps env id = >>=-Keeps P _ _ (return-Keeps P _) λ v. find_user_by_id-Keeps env id

  pub search_users_by_email-Keeps :
      (env : Env) (like : Bytes → Bytes → Bool) (text : Bytes) (limit : ℤ)
      → Keeps P (search_users_by_email env like text limit)
  unfolding search_users_by_email search_by_email
  search_users_by_email-Keeps env like text limit =
      >>=-Keeps P _ _ (return-Keeps P _) λ v. query-Keeps P env _ _

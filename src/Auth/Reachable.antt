-- ===== src/Auth/Reachable.antt =====
-- services/auth-service as a whole: the calls that its server makes of service.go, in any order, with statements that fail at
-- will, and any times, ids and tokens.
use holdem.Prelude.{
  ◌≡◌, ◌≢◌, refl, sym, ap, ◌∙◌, subst, ℕ, Bool, true, false, ◌&&◌, ◌||◌, Option, none, some, List,
  All, ok, ltb,
}
use holdem.Prelude.Text.{Bytes}
use holdem.Prelude.Int.{ℤ}
use holdem.Auth.{User, RefreshSession, Db, Env, Sql, empty_db}
use holdem.Auth.Repository.{has_hash, has_email, has_user_id, is_open, create_user}
use holdem.Auth.Service.{
  Library, AuthResult, is_admin_email, publish_user, issue_session, register, login, live_session,
  reissue, refresh, logout, me, search_users_by_email,
}
use holdem.Auth.Refreshing.{live_session-went, reissue-Reissued}
use holdem.Auth.Kept.{
  Kept, create_user-Keeps, publish_user-Keeps, issue_session-Keeps, reissue-Keeps, register-Keeps,
  login-Keeps, refresh-Keeps, logout-Keeps, me-Keeps, search_users_by_email-Keeps,
}
use holdem.Auth.Held.{Held, Held-found, Held-revoked, Held-opened, Spent-rotated}
use holdem.Auth.Sessions.{
  OwnTokens, Spent, NoRow-exists_row, find_row-All, Spent-revoked, Spent-opened,
  revoke_refresh_session-Spent, OwnTokens-revoked, new_token_hash,
}
use holdem.Database.{exists_row}
use holdem.Database.Inversion.{went, >>=-Went}
use holdem.Database.Selected.{Apart}

-- the tables after a call
abbrev pub called : {A : Type 0} → Sql A → Db → Db
called m db = (m db).1

-- A call of the server, or one of the transactions that calls consist of, so that other calls come in between: what a call
-- read before, and what it then writes, is any session and any user.
pub data Step (admins : List Bytes) (db : Db) : Db → Type 0 where
  registers :
      (lib : Library) (env : Env) (publishes : Bool) (mail password : Bytes)
      → Step admins db (called (register lib env admins publishes mail password) db)
  logs_in :
      (lib : Library) (env : Env) (mail password : Bytes)
      → Step admins db (called (login lib env mail password) db)
  refreshes :
      (lib : Library) (env : Env) (token : Bytes)
      → Step admins db (called (refresh lib env token) db)
  logs_out :
      (lib : Library) (env : Env) (token : Bytes)
      → Step admins db (called (logout lib env token) db)
  asks : (env : Env) (id : Bytes) → Step admins db (called (me env id) db)
  searches :
      (env : Env) (like : Bytes → Bytes → Bool) (text : Bytes) (limit : ℤ)
      → Step admins db (called (search_users_by_email env like text limit) db)
  -- the end of a refresh that read the session and the user before
  reissues :
      (lib : Library) (env : Env) (session : RefreshSession) (user : User)
      → Step admins db (called (reissue lib env session user) db)
  -- the end of a login or a registration
  issues :
      (lib : Library) (env : Env) (user : User)
      → Step admins db (called (issue_session lib env user) db)
  -- the other parts of a registration
  creates :
      (env : Env) (user : User) (hash : Bytes)
      → user.is_admin ≡ is_admin_email admins user.email
      → Step admins db (called (create_user env user hash) db)
  announces :
      (env : Env) (publishes : Bool) (user : User)
      → Step admins db (called (publish_user env publishes user) db)

pub data Reach (admins : List Bytes) (start : Db) : Db → Type 0 where
  here : Reach admins start start
  next : {db db' : Db} → Reach admins start db → Step admins db db' → Reach admins start db'

module _ (admins : List Bytes) (P : Db → Type 0) (law : Kept admins P) where
  Step-Kept : {db db' : Db} → P db → Step admins db db' → P db'
  Step-Kept {db = db} p (registers lib env b mail password) =
      register-Keeps admins P law lib env b mail password db p
  Step-Kept {db = db} p (logs_in lib env mail password) =
      login-Keeps admins P law lib env mail password db p
  Step-Kept {db = db} p (refreshes lib env token) = refresh-Keeps admins P law lib env token db p
  Step-Kept {db = db} p (logs_out lib env token) = logout-Keeps admins P law lib env token db p
  Step-Kept {db = db} p (asks env id) = me-Keeps admins P law env id db p
  Step-Kept {db = db} p (searches env like text limit) =
      search_users_by_email-Keeps admins P law env like text limit db p
  Step-Kept {db = db} p (reissues lib env session user) =
      reissue-Keeps admins P law lib env session user db p
  Step-Kept {db = db} p (issues lib env user) = issue_session-Keeps admins P law lib env user db p
  Step-Kept {db = db} p (creates env user hash right) =
      create_user-Keeps admins P law env user hash right db p
  Step-Kept {db = db} p (announces env publishes user) =
      publish_user-Keeps admins P law env publishes user db p

  Reach-Kept : {start db : Db} → P start → Reach admins start db → P db
  Reach-Kept p here = p
  Reach-Kept p (next r step) = Step-Kept (Reach-Kept p r) step

abbrev TokensOwn : Db → Type 0
TokensOwn db = OwnTokens db.sessions

OwnTokens-Kept : (admins : List Bytes) → Kept admins TokensOwn
OwnTokens-Kept admins = record {
  revoking = λ test t db own. OwnTokens-revoked (λ o. test o && is_open o) t db.sessions own;
  opening = λ s db accepted own.
      (NoRow-exists_row (has_hash s.token_hash) db.sessions (new_token_hash s db accepted), own);
  signing = λ u db right new own. own;
  crediting = λ c db own. own;
  announcing = λ u db own. own;
}

abbrev SpentIn : Bytes → Db → Type 0
SpentIn hash db = Spent hash db.sessions

Spent-Kept : (admins : List Bytes) (hash : Bytes) → Kept admins (SpentIn hash)
Spent-Kept admins hash = record {
  revoking = λ test t db spent. Spent-revoked hash (λ o. test o && is_open o) t db.sessions spent;
  opening = λ s db accepted spent. Spent-opened hash s db accepted spent;
  signing = λ u db right new spent. spent;
  crediting = λ c db spent. spent;
  announcing = λ u db spent. spent;
}

abbrev HeldIn : Bytes → Bytes → Db → Type 0
HeldIn hash id db = Held hash id db.sessions

Held-Kept : (admins : List Bytes) (hash id : Bytes) → Kept admins (HeldIn hash id)
Held-Kept admins hash id = record {
  revoking = λ test t db held. Held-revoked hash id (λ o. test o && is_open o) t db.sessions held;
  opening = λ s db accepted held. Held-opened hash id s db accepted held;
  signing = λ u db right new held. held;
  crediting = λ c db held. held;
  announcing = λ u db held. held;
}

-- A refresh with a spent token does not get past the check of its session.
Spent-refused :
    (lib : Library) (env : Env) (token : Bytes) (db : Db) (s : RefreshSession)
    → Spent (lib.hash_refresh_token token) db.sessions
    → (live_session lib env token db).0 ≢ ok s
Spent-refused lib env token db s spent goes =
    let (found, live, _) = live_session-went lib env token db goes in
    let (closed, mine) =
      find_row-All _ (has_hash (lib.hash_refresh_token token)) db.sessions spent.closed found in
    true_false (sym (rw (mine, open_of s.revoked_at (ltb s.expires_at env.now) live) refl) ∙ closed)
  where
    true_false : true ≡ false → ⊥
    true_false e = cc

    open_of :
        (o : Option ℕ) (late : Bool)
        → elim o as (λ x. Bool) [ none ↦ late | some t ↦ true ] ≡ false
        → elim o as (λ x. Bool) [ none ↦ true | some t ↦ false ] ≡ true
    open_of none late e = refl
    open_of (some t) late e = sym e

-- a refresh that goes well gets past the check
refresh-live :
    (lib : Library) (env : Env) (token : Bytes) (db : Db) {r : AuthResult}
    → (refresh lib env token db).0 ≡ ok r
    → (s : RefreshSession) × ((live_session lib env token db).0 ≡ ok s)
unfolding refresh
refresh-live lib env token db h = elim (>>=-Went _ _ db h) [
  | went s between reads goes ends ↦ (s, ap (λ x. x.0) reads)
]

-- What ends the use of a refresh token, from empty tables: a refresh whose check of the session went well, and which, after
-- any calls that came in between, reissued well; or a logout that went well.
pub data Ended (admins : List Bytes) (lib : Library) (token : Bytes) : Db → Type 0 where
  refreshed :
      {checked db : Db} (at_check env : Env) (s : RefreshSession) (u : User) (r : AuthResult)
      → Reach admins empty_db checked
      → (live_session lib at_check token checked).0 ≡ ok s
      → Reach admins checked db
      → (reissue lib env s u db).0 ≡ ok r
      → Ended admins lib token (called (reissue lib env s u) db)
  logged_out :
      {db : Db} (env : Env)
      → Reach admins empty_db db
      → (logout lib env token db).0 ≡ ok tt
      → Ended admins lib token (called (logout lib env token) db)

logout-Spent :
    (lib : Library) (env : Env) (token : Bytes) (db : Db) {u : Unit {0}}
    → (logout lib env token db).0 ≡ ok u
    → Spent (lib.hash_refresh_token token) (logout lib env token db).1.sessions
unfolding logout
logout-Spent lib env token db h = elim (>>=-Went _ _ db h) [
  | went v between checks goes ends ↦
      subst (λ d. Spent (lib.hash_refresh_token token) d.sessions) (sym (ap (λ x. x.1) goes))
        (revoke_refresh_session-Spent env (lib.hash_refresh_token token) between ends)
]

Ended-Spent :
    (admins : List Bytes) (lib : Library) (token : Bytes) {db : Db}
    → Ended admins lib token db
    → Spent (lib.hash_refresh_token token) db.sessions
Ended-Spent admins lib token
      (refreshed {checked = checked} {db = db} at_check env s u r before reads since goes) =
    let hash : Bytes = lib.hash_refresh_token token in
    let law = OwnTokens-Kept admins in
    let own = Reach-Kept admins TokensOwn law tt before in
    let (found, _, _) = live_session-went lib at_check token checked reads in
    let held =
      Reach-Kept admins (HeldIn hash s.id) (Held-Kept admins hash s.id)
        (Held-found hash checked.sessions own found) since in
    let done = reissue-Reissued lib env s u db r goes in
    let own' =
      reissue-Keeps admins TokensOwn law lib env s u db
        (Reach-Kept admins TokensOwn law own since) in
    subst (SpentIn hash) (sym done.recorded) (
      Spent-rotated hash s.id env.now db.sessions done.next held
        (subst TokensOwn done.recorded own'))
Ended-Spent admins lib token (logged_out {db = db} env before goes) =
    logout-Spent lib env token db goes

-- From empty tables: once a refresh or a logout with a token went well, no refresh whose check of the token's session comes
-- after that gets past the check, and none that starts after that goes well, whatever calls, parts of calls and failures
-- came before, between the check and the end of that refresh, and since.
pub Ended-refused :
    (admins : List Bytes) (lib : Library) (token : Bytes) (db later : Db)
    → Ended admins lib token db
    → Reach admins db later
    → (env : Env) (s : RefreshSession) (r : AuthResult)
    → ((live_session lib env token later).0 ≢ ok s) × ((refresh lib env token later).0 ≢ ok r)
Ended-refused admins lib token db later ended since env s r =
    let spent =
      Reach-Kept admins (SpentIn (lib.hash_refresh_token token))
        (Spent-Kept admins (lib.hash_refresh_token token)) (Ended-Spent admins lib token ended)
        since in
    (
      Spent-refused lib env token later s spent,
      λ goes.
          let (s', reads) = refresh-live lib env token later goes in
          Spent-refused lib env token later s' spent reads,
    )

-- The users: no id and no email twice, and the admins are those whose emails are configured.
pub record Accounts (admins : List Bytes) (db : Db) : Type 0 where
  pub own_ids : Apart (λ (o u : User). has_user_id u.id o) db.users
  pub own_emails : Apart (λ (o u : User). has_email u.email o) db.users
  pub only_admins : All (λ (u : User). u.is_admin ≡ is_admin_email admins u.email) db.users

neither : (a b : Bool) → (a || b) ≡ false → (a ≡ false) × (b ≡ false)
neither true b h = absurd (no h)
  where
    no : true ≡ false → ⊥
    no e = cc
neither false b h = (refl, h)

Accounts-Kept : (admins : List Bytes) → Kept admins (Accounts admins)
Accounts-Kept admins = record {
  revoking = λ test t db a. record {
    own_ids = a.own_ids;
    own_emails = a.own_emails;
    only_admins = a.only_admins;
  };
  opening = λ s db accepted a. record {
    own_ids = a.own_ids;
    own_emails = a.own_emails;
    only_admins = a.only_admins;
  };
  signing = λ u db right new a.
      let (new_id, new_email) =
        neither (exists_row (has_user_id u.id) db.users) (exists_row (has_email u.email) db.users)
          new in
      record {
        own_ids = (NoRow-exists_row (has_user_id u.id) db.users new_id, a.own_ids);
        own_emails = (NoRow-exists_row (has_email u.email) db.users new_email, a.own_emails);
        only_admins = (right, a.only_admins);
      };
  crediting = λ c db a. record {
    own_ids = a.own_ids;
    own_emails = a.own_emails;
    only_admins = a.only_admins;
  };
  announcing = λ u db a. record {
    own_ids = a.own_ids;
    own_emails = a.own_emails;
    only_admins = a.only_admins;
  };
}

-- From empty tables, whatever calls and failures come in whatever order, no two users have an id or an email in common, and a
-- user is an admin just if the email is among the configured ones.
pub Reach-Accounts : (admins : List Bytes) (db : Db) → Reach admins empty_db db → Accounts admins db
Reach-Accounts admins db r =
    Reach-Kept admins (Accounts admins) (Accounts-Kept admins)
      (record { own_ids = tt; own_emails = tt; only_admins = tt }) r

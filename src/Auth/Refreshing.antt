-- ===== src/Auth/Refreshing.antt =====
-- services/auth-service/internal/application/service.go: what stands behind a refresh that went well.
use holdem.Prelude.{
  subst, ◌≡◌, refl, sym, ap, ◌∙◌, false, ◌&&◌, none, some, ◌∷◌, ok, Error, or_fail,
}
use holdem.Prelude.Text.{Bytes, bytes_eq}
use holdem.Auth.{User, RefreshSession, Db, Env}
use holdem.Auth.Repository.{
  has_hash, has_user_id, is_open, revoked, find_refresh_session, find_user_by_id, rotate_tx,
  rotate_refresh_session,
}
use holdem.Auth.Service.{
  Library, AuthResult, is_over, new_token, new_id, reissue, refresh, live_session,
}
use holdem.Database.{return, find_row, update_rows}
use holdem.Database.Inversion.{
  went, >>=-Went, return-went, query-went, exec-ok, insert_row-ok, with_tx-ok, not_failed,
  not_missing, ok_value,
}

-- A session that is found is in the table, and nothing changed.
pub find_refresh_session-went :
    (env : Env) (hash : Bytes) (db : Db) {s : RefreshSession} {db' : Db}
    → find_refresh_session env hash db ≡ (ok s, db')
    → (find_row (has_hash hash) db.sessions ≡ some s) × (db' ≡ db)
unfolding find_refresh_session
find_refresh_session-went env hash db h = elim (>>=-Went _ _ db (ap (λ r. r.0) h)) [
  | went row between reads goes ends ↦
      let (row_is, stays) = query-went env _ _ db reads in
      let (found, stays') =
        return-went (or_fail row Error.invalid_refresh_token) between (sym goes ∙ h) in
      (row_is ∙ not_missing row _ found, stays' ∙ stays)
]

pub find_user_by_id-went :
    (env : Env) (id : Bytes) (db : Db) {u : User} {db' : Db}
    → find_user_by_id env id db ≡ (ok u, db')
    → (find_row (has_user_id id) db.users ≡ some u) × (db' ≡ db)
unfolding find_user_by_id
find_user_by_id-went env id db h = elim (>>=-Went _ _ db (ap (λ r. r.0) h)) [
  | went row between reads goes ends ↦
      let (row_is, stays) = query-went env _ _ db reads in
      let (found, stays') = return-went (or_fail row Error.user_not_found) between (sym goes ∙ h) in
      (row_is ∙ not_missing row _ found, stays' ∙ stays)
]

-- the tables after a rotation
abbrev pub rotated_db : Env → Bytes → RefreshSession → Db → Db
rotated_db env old s db = record db {
  sessions =
      s
      ∷ update_rows (λ (o : RefreshSession). bytes_eq o.id old && is_open o) (revoked env.now)
          db.sessions;
}

rotate_tx-ok :
    (env : Env) (old : Bytes) (s : RefreshSession) (db : Db) {u : Unit {0}}
    → (rotate_tx env old s db).0 ≡ ok u
    → (rotate_tx env old s db).1 ≡ rotated_db env old s db
unfolding rotate_tx
rotate_tx-ok env old s db h = elim (>>=-Went _ _ db h) [
  | went n between ran goes ends ↦
      let revoked_all = sym (exec-ok env _ _ db (ap (λ r. r.0) ran)) ∙ ran in
      ap (λ r. r.1) (goes ∙ insert_row-ok env _ _ _ _ between ends)
      ∙ ap (λ r. record r.1 { sessions = s ∷ r.1.sessions }) (sym revoked_all)
]

pub rotate_refresh_session-ok :
    (env : Env) (old : Bytes) (s : RefreshSession) (db : Db) {u : Unit {0}}
    → (rotate_refresh_session env old s db).0 ≡ ok u
    → (rotate_refresh_session env old s db).1 ≡ rotated_db env old s db
unfolding rotate_refresh_session
rotate_refresh_session-ok env old s db h =
    let body = with_tx-ok env _ db h in
    ap (λ r. r.1) body ∙ rotate_tx-ok env old s db (ap (λ r. r.0) (sym body) ∙ h)

-- What `reissue` does: it issues an access token for the user, revokes the session and puts one for a new token in its place.
pub record Reissued (lib : Library) (env : Env) (session : RefreshSession) (user : User)
    (before : Db) (r : AuthResult) (after : Db) : Type 0 where
  pub of_user : r.user ≡ user
  pub issued : lib.issue_access_token user.id user.is_admin ≡ ok r.access_token
  pub next : RefreshSession
  pub made : lib.new_refresh_token before ≡ ok (r.refresh_token, (next.token_hash, next.expires_at))
  pub same_user : next.user_id ≡ user.id
  pub next_open : next.revoked_at ≡ none
  pub recorded : after ≡ rotated_db env session.id next before

pub reissue-Reissued :
    (lib : Library) (env : Env) (s : RefreshSession) (u : User) (db : Db) (r : AuthResult)
    → (reissue lib env s u db).0 ≡ ok r
    → Reissued lib env s u db r (reissue lib env s u db).1
unfolding reissue return new_token new_id
reissue-Reissued lib env s u db r h = elim (>>=-Went _ _ db h) [
  | went access db1 issues goes1 h ↦ elim (>>=-Went _ _ db1 h) [
    | went fresh db2 makes goes2 h ↦ elim (>>=-Went _ _ db2 h) [
      | went id db3 ids goes3 h ↦ elim (>>=-Went _ _ db3 h) [
        | went v after rotates goes4 ends ↦
            let same : db3 ≡ db =
              sym (ap (λ x. x.1) ids) ∙ (sym (ap (λ x. x.1) makes) ∙ sym (ap (λ x. x.1) issues)) in
            let result = ok_value ends in
            let there = rotate_refresh_session-ok env s.id _ db3 (ap (λ x. x.0) rotates) in
            record {
              of_user = ap (λ x. x.user) (sym result);
              issued = ap (λ x. x.0) issues ∙ ap (λ x. ok x.access_token) result;
              next = record {
                id = id;
                user_id = u.id;
                token_hash = fresh.1.0;
                expires_at = fresh.1.1;
                revoked_at = none;
              };
              made =
                  ap lib.new_refresh_token (ap (λ x. x.1) issues)
                  ∙ (ap (λ x. x.0) makes ∙ ap (λ x. ok (x.refresh_token, fresh.1)) result);
              same_user = refl;
              next_open = refl;
              recorded =
                  ap (λ x. x.1) (goes1 ∙ (goes2 ∙ (goes3 ∙ goes4)))
                  ∙ (sym (ap (λ x. x.1) rotates) ∙ (there ∙ ap (rotated_db env s.id _) same));
            }
      ]
    ]
  ]
]

-- The start of a refresh that goes well: the token's session is in the table and not over, and nothing changed.
pub live_session-went :
    (lib : Library) (env : Env) (token : Bytes) (db : Db) {s : RefreshSession}
    → (live_session lib env token db).0 ≡ ok s
    → (find_row (has_hash (lib.hash_refresh_token token)) db.sessions ≡ some s)
      × (is_over env.now s ≡ false)
      × ((live_session lib env token db).1 ≡ db)
unfolding live_session return
live_session-went lib env token db h = elim (>>=-Went _ _ db h) [
  | went _ db0 blank goes0 h ↦
      let same0 = (return-went _ db blank).1 in
      elim (>>=-Went _ _ db0 h) [
        | went s' db1 finds goes1 h ↦
            let (found, same1) = find_refresh_session-went env _ db0 finds in
            elim (>>=-Went _ _ db1 h) [
              | went _ db2 checks goes2 ends ↦
                  let (lives, same2) = return-went _ db1 checks in
                  let this = ok_value ends in
                  (
                    ap (λ d. find_row (has_hash (lib.hash_refresh_token token)) d.sessions)
                          (sym same0)
                        ∙ (found ∙ ap some this),
                    ap (is_over env.now) (sym this) ∙ not_failed _ _ lives,
                    ap (λ x. x.1) (goes0 ∙ (goes1 ∙ goes2)) ∙ (same2 ∙ (same1 ∙ same0)),
                  )
            ]
      ]
]

-- What a refresh rests on: the token has a session that is neither revoked nor past its time, and the session's user exists.
-- What it does is to reissue.
pub record Refreshed (lib : Library) (env : Env) (token : Bytes) (before : Db) (r : AuthResult)
    (after : Db) : Type 0 where
  pub session : RefreshSession
  pub found : find_row (has_hash (lib.hash_refresh_token token)) before.sessions ≡ some session
  pub live : is_over env.now session ≡ false
  pub of_user : find_row (has_user_id session.user_id) before.users ≡ some r.user
  pub reissued : Reissued lib env session r.user before r after

-- A refresh that goes well rests on a session of the token that is neither revoked nor past its time, and on the session's
-- user; it issues an access token for that user, revokes that session, and puts an open one for a new token in its place.
pub refresh-Refreshed :
    (lib : Library) (env : Env) (token : Bytes) (db : Db) (r : AuthResult)
    → (refresh lib env token db).0 ≡ ok r
    → Refreshed lib env token db r (refresh lib env token db).1
unfolding refresh
refresh-Refreshed lib env token db r h = elim (>>=-Went _ _ db h) [
  | went s db1 reads goes1 h ↦
      let (found, live, same) = live_session-went lib env token db (ap (λ x. x.0) reads) in
      let same1 : db1 ≡ db = sym (ap (λ x. x.1) reads) ∙ same in
      elim (>>=-Went _ _ db1 h) [
        | went u db2 finds goes2 h ↦
            let (of_user, same') = find_user_by_id-went env _ db1 finds in
            let same2 : db2 ≡ db = same' ∙ same1 in
            let made =
              reissue-Reissued lib env s u db r
                (ap (λ d. (reissue lib env s u d).0) (sym same2) ∙ h) in
            let after = ap (λ x. x.1) (goes1 ∙ goes2) ∙ ap (λ d. (reissue lib env s u d).1) same2 in
            record {
              session = s;
              found = found;
              live = live;
              of_user =
                  ap (λ d. find_row (has_user_id s.user_id) d.users) (sym same1)
                  ∙ (of_user ∙ ap some (sym made.of_user));
              reissued =
                  subst (λ d. Reissued lib env s r.user db r d) (sym after)
                    (subst (λ v. Reissued lib env s v db r (reissue lib env s u db).1)
                      (sym made.of_user) made);
            }
      ]
]

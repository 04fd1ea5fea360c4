-- ===== src/Auth/Race.antt =====
-- services/auth-service: two refreshes that read the same session before either of them rotates it.
use holdem.Prelude.{
  ◌≡◌, refl, sym, ap, ◌∙◌, ℕ, Bool, true, false, ◌&&◌, ◌||◌, Bool-cases, inl, inr, none, some, List,
  ◌∷◌, Outcome, ok,
}
use holdem.Prelude.Text.{Bytes, bytes_eq, bytes_eq_refl, bytes_eq→eq}
use holdem.Auth.{User, RefreshSession, Db, Env, IdPrefix}
use holdem.Auth.Repository.{
  has_hash, has_user_id, is_open, revoked, session_refused, find_user_by_id, rotate_tx,
  rotate_refresh_session,
}
use holdem.Auth.Service.{Library, AuthResult, new_id, new_token, live_session, reissue, refresh}
use holdem.Auth.Refreshing.{rotated_db, live_session-went}
use holdem.Auth.Reachable.{called}
use holdem.Auth.Sessions.{NoRow-exists_row, find_row-All}
use holdem.Database.{IsHealthy, return, find_row, update_rows}
use holdem.Database.Tables.Runs.{>>=-run, query-run, exec-run, insert_row-run, with_tx-run}
use holdem.Database.Rows.{exists_row-update_rows}

-- the session that `reissue` stores
abbrev pub session_for : Env → User → Bytes × (Bytes × ℕ) → Db → RefreshSession
session_for env u fresh db = record {
  id = env.new_id IdPrefix.refresh db;
  user_id = u.id;
  token_hash = fresh.1.0;
  expires_at = fresh.1.1;
  revoked_at = none;
}

-- Revoking sessions changes nothing of what the constraints refuse.
session_refused-revoked :
    (env : Env) (old : Bytes) (s : RefreshSession) (db : Db)
    → session_refused s (record db {
      sessions =
          update_rows
            (λ (o : RefreshSession). bytes_eq o.id old && is_open o)
            (revoked env.now)
            db.sessions;
    })
      ≡ session_refused s db
session_refused-revoked env old s db =
    rw
      (
        exists_row-update_rows (λ (o : RefreshSession). bytes_eq o.id s.id) _ (revoked env.now)
            (λ o. refl) db.sessions,
        exists_row-update_rows (has_hash s.token_hash) _ (revoked env.now) (λ o. refl) db.sessions,
      )
      refl

rotate_refresh_session-run :
    (env : Env)
    → IsHealthy env
    → (old : Bytes) (s : RefreshSession) (db : Db) → session_refused s db ≡ false
    → rotate_refresh_session env old s db ≡ (ok tt, rotated_db env old s db)
unfolding rotate_refresh_session rotate_tx
rotate_refresh_session-run env healthy old s db fine = with_tx-run env healthy _ db _ tt (
    >>=-run _ _ db _ _ (exec-run env healthy _ _ db)
    ∙ insert_row-run env healthy _ _ _ _ _ (session_refused-revoked env old s db ∙ fine))

-- The end of a refresh goes well for any session that it was given, one that is revoked by now included.
reissue-run :
    (lib : Library) (env : Env) (s : RefreshSession) (u : User) (db : Db) (access : Bytes)
    (fresh : Bytes × (Bytes × ℕ))
    → IsHealthy env
    → lib.issue_access_token u.id u.is_admin ≡ ok access
    → lib.new_refresh_token db ≡ ok fresh
    → session_refused (session_for env u fresh db) db ≡ false
    → reissue lib env s u db ≡ (
      ok (record { access_token = access; refresh_token = fresh.0; user = u }),
      rotated_db env s.id (session_for env u fresh db) db,
    )
unfolding reissue return new_token new_id
reissue-run lib env s u db access fresh healthy issues makes fine =
    >>=-run _ _ db db access (rw issues refl)
    ∙ (>>=-run _ _ db db fresh (rw makes refl)
        ∙ (>>=-run _ _ db db (env.new_id IdPrefix.refresh db) refl
            ∙ >>=-run _ _ db _ tt
                (rotate_refresh_session-run env healthy s.id (session_for env u fresh db) db fine)))

find_user_by_id-run :
    (env : Env)
    → IsHealthy env
    → (id : Bytes) (db : Db) {u : User} → find_row (has_user_id id) db.users ≡ some u
    → find_user_by_id env id db ≡ (ok u, db)
unfolding find_user_by_id return
find_user_by_id-run env healthy id db {u} found =
    >>=-run _ _ db db _ (query-run env healthy _ _ db) ∙ rw found refl

-- A session that the constraints let through has an id of its own.
own_id :
    (hash : Bytes) (new : RefreshSession) (db : Db) {s : RefreshSession}
    → session_refused new db ≡ false
    → find_row (has_hash hash) db.sessions ≡ some s
    → bytes_eq new.id s.id ≡ false
own_id hash new db {s} fine found = elim (Bool-cases (bytes_eq new.id s.id)) [
  | inr differs ↦ differs
  | inl same ↦
      let free = NoRow-exists_row _ db.sessions (first_of _ _ _ fine) in
      let (apart, _) = find_row-All _ (has_hash hash) db.sessions free found in
      absurd (
        true_false (
          sym (bytes_eq_refl s.id)
          ∙ ap (bytes_eq s.id) (sym (bytes_eq→eq new.id s.id same))
          ∙ apart))
]
  where
    true_false : true ≡ false → ⊥
    true_false e = cc

    first_of : (a b c : Bool) → ((a || b) || c) ≡ false → a ≡ false
    first_of true b c e = e
    first_of false b c e = refl

-- what a reissue returns
abbrev result : User → Bytes → Bytes × (Bytes × ℕ) → AuthResult
result u access fresh = record { access_token = access; refresh_token = fresh.0; user = u }

-- Two refreshes with one token both check its session before either has rotated it, and the session's user is there. Then,
-- if no statement fails, an access token is issued, and the ids and tokens made are new, the first refresh goes well, the
-- end of the second one goes well after it too, for the session that is revoked by now, and the sessions of both new tokens
-- are stored open.
pub both_refresh :
    (lib : Library) (env later : Env) (token : Bytes) (db : Db) (s : RefreshSession) (u : User)
    (access : Bytes) (fresh fresh' : Bytes × (Bytes × ℕ))
    → IsHealthy env
    → IsHealthy later
    → (live_session lib env token db).0 ≡ ok s
    → find_row (has_user_id s.user_id) db.users ≡ some u
    → lib.issue_access_token u.id u.is_admin ≡ ok access
    → lib.new_refresh_token db ≡ ok fresh
    → session_refused (session_for env u fresh db) db ≡ false
    → lib.new_refresh_token (called (refresh lib env token) db) ≡ ok fresh'
    → session_refused
        (session_for later u fresh' (called (refresh lib env token) db))
        (called (refresh lib env token) db)
      ≡ false
    → ((refresh lib env token db).0 ≡ ok (result u access fresh))
      × ((reissue lib later s u (called (refresh lib env token) db)).0
          ≡ ok (result u access fresh'))
      × (older : List RefreshSession) × ((reissue lib later s u
            (called (refresh lib env token) db)).1.sessions
          ≡ session_for later u fresh' (called (refresh lib env token) db)
            ∷ session_for env u fresh db
            ∷ older)
unfolding refresh
both_refresh lib env later token db s u access fresh fresh' healthy healthy' reads user issues makes
      fine makes' fine' =
    let (found, live, same) = live_session-went lib env token db reads in
    let first =
      >>=-run (live_session lib env token) _ db db s (λ k. (reads k, same k))
      ∙ >>=-run (find_user_by_id env s.user_id) _ db db u
          (find_user_by_id-run env healthy s.user_id db user)
      ∙ reissue-run lib env s u db access fresh healthy issues makes fine in
    let between : Db = called (refresh lib env token) db in
    let second = reissue-run lib later s u between access fresh' healthy' issues makes' fine' in
    let new : RefreshSession = session_for env u fresh db in
    let older =
      update_rows (λ (o : RefreshSession). bytes_eq o.id s.id && is_open o) (revoked later.now)
        (update_rows (λ (o : RefreshSession). bytes_eq o.id s.id && is_open o) (revoked env.now)
          db.sessions) in
    (
      ap (λ x. x.0) first,
      ap (λ x. x.0) second,
      older,
      ap (λ x. x.1.sessions) second
          ∙ ap
              (λ (x : Outcome AuthResult × Db).
                session_for later u fresh' between
                ∷ update_rows (λ (o : RefreshSession). bytes_eq o.id s.id && is_open o)
                    (revoked later.now) x.1.sessions)
              first
          ∙ ap (λ l. session_for later u fresh' between ∷ l)
              (rw (update_rows, own_id (lib.hash_refresh_token token) new db fine found) refl),
    )

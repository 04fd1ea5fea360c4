-- ===== src/Auth/Tests.antt =====
-- A user who registers, logs in again, and refreshes.
use holdem.Prelude.{◌≡◌, ◌≢◌, refl, sym, true, false, none, some, List, [], ◌∷◌, ◌++◌, Outcome, ok}
use holdem.Prelude.Text.{
  Bytes, bytes_eq, bytes_eq_iff, is_empty, trim_space, trim_left, trim_right, is_space, to_lower,
  lower_byte,
}
use holdem.Prelude.Ascii.{ascii}
use holdem.Auth.{User, RefreshSession, Db, Env, empty_db}
use holdem.Auth.Repository.{
  create_user, create_refresh_session, find_refresh_session, find_user_by_id,
  find_user_with_password_by_email, rotate_tx, rotate_refresh_session, session_refused, has_user_id,
}
use holdem.Auth.Service.{
  Library, AuthResult, register, login, live_session, refresh, reissue, issue_session,
  is_valid_email, contains_at, starts_with_at, ends_with_at, is_admin_email, normalize_email,
  new_id, new_token, publish_user,
}
use holdem.Auth.Refreshing.{Refreshed, refresh-Refreshed}
use holdem.Auth.Registered.{Registered, register-Registered, login-register}
use holdem.Auth.Race.{session_for, both_refresh}
use holdem.Auth.Reachable.{
  Reach, here, next, registers, logs_in, refreshes, called, Accounts, refreshed, Ended-refused,
  Reach-Accounts,
}
use holdem.Database
use holdem.Database.Inversion.{ok_value}
use holdem.Database.{IsHealthy, find_row, return, query, exec, insert_row, with_tx}

abbrev tally : List RefreshSession → Bytes
tally [] = []
tally (s ∷ rest) = b'1' ∷ tally rest

-- every statement works; an id has a byte for each session
abbrev calm : Env
calm = record {
  fails = λ s db. false;
  begin_fails = λ db. false;
  commit_fails = λ db. false;
  now = 100;
  new_id = λ p db. tally db.sessions;
}

calm-IsHealthy : IsHealthy calm
calm-IsHealthy = record { runs = λ s db. refl; begins = λ db. refl; commits = λ db. refl }

-- a hash is its text, and a token counts the sessions
abbrev plain : Library
plain = record {
  issue_access_token = λ u admin. ok u;
  new_refresh_token =
      λ db. ok (ascii "t" ++ tally db.sessions, (ascii "t" ++ tally db.sessions, 200));
  hash_refresh_token = λ t. t;
  hash_password = λ p. ok p;
  check_password = bytes_eq;
}

abbrev secret : Bytes
secret = ascii "12345678"

abbrev admins : List Bytes
admins = ascii "ann@x" ∷ []

abbrev ann : User
ann = record { id = []; email = ascii "ann@x"; is_admin = true; created_at = 100 }

abbrev first_session : RefreshSession
first_session = record {
  id = [];
  user_id = [];
  token_hash = ascii "t";
  expires_at = 200;
  revoked_at = none;
}

abbrev signed_up : AuthResult
signed_up = record { access_token = []; refresh_token = ascii "t"; user = ann }

registers_ann : (register plain calm admins true (ascii " Ann@X") secret empty_db).0 ≡ ok signed_up
unfolding register is_valid_email contains_at starts_with_at ends_with_at is_admin_email
    normalize_email new_id new_token publish_user issue_session create_user create_refresh_session
    with_tx Database.◌>>=◌ return query exec insert_row bytes_eq is_empty trim_space trim_left
    trim_right is_space to_lower lower_byte
registers_ann = refl

abbrev after_sign_up : Db
after_sign_up = called (register plain calm admins true (ascii " Ann@X") secret) empty_db

register-Registered_example :
    Registered plain admins (ascii " Ann@X") secret empty_db ann after_sign_up
register-Registered_example =
    register-Registered plain calm admins true (ascii " Ann@X") secret empty_db signed_up
      registers_ann

same_email : normalize_email (ascii "ANN@x") ≡ normalize_email (ascii " Ann@X")
unfolding normalize_email is_empty trim_space trim_left trim_right is_space to_lower lower_byte
same_email = refl

checks_plain : (hash : Bytes) → Outcome.ok secret ≡ ok hash → bytes_eq hash secret ≡ true
checks_plain hash h = (bytes_eq_iff hash secret).1 (sym (ok_value h))

login-register_example :
    login plain calm (ascii "ANN@x") secret after_sign_up
    ≡ issue_session plain calm ann after_sign_up
login-register_example =
    login-register plain calm calm admins true (ascii " Ann@X") (ascii "ANN@x") secret empty_db
      signed_up calm-IsHealthy checks_plain same_email registers_ann

abbrev renewed : AuthResult
renewed = record { access_token = []; refresh_token = ascii "t1"; user = ann }

refreshes_ann : (refresh plain calm (ascii "t") after_sign_up).0 ≡ ok renewed
unfolding register is_valid_email contains_at starts_with_at ends_with_at is_admin_email
    normalize_email new_id new_token publish_user issue_session create_user create_refresh_session
    refresh live_session reissue find_refresh_session find_user_by_id rotate_tx
    rotate_refresh_session with_tx Database.◌>>=◌ return query exec insert_row bytes_eq is_empty
    trim_space trim_left trim_right is_space to_lower lower_byte
refreshes_ann = refl

refresh-Refreshed_example :
    Refreshed plain calm
      (ascii "t")
      after_sign_up
      renewed
      (called (refresh plain calm (ascii "t")) after_sign_up)
refresh-Refreshed_example =
    refresh-Refreshed plain calm (ascii "t") after_sign_up renewed refreshes_ann

signs_up : Reach admins empty_db after_sign_up
signs_up = next here (registers plain calm true (ascii " Ann@X") secret)

Reach-Accounts_example : Accounts admins after_sign_up
Reach-Accounts_example = Reach-Accounts admins after_sign_up signs_up

reads_session : (live_session plain calm (ascii "t") after_sign_up).0 ≡ ok first_session
unfolding register is_valid_email contains_at starts_with_at ends_with_at is_admin_email
    normalize_email new_id new_token publish_user issue_session create_user create_refresh_session
    live_session find_refresh_session with_tx Database.◌>>=◌ return query exec insert_row bytes_eq
    is_empty trim_space trim_left trim_right is_space to_lower lower_byte
reads_session = refl

-- ann logs in between the check and the end of the refresh
abbrev logged_in : Db
logged_in = called (login plain calm (ascii "ann@x") secret) after_sign_up

abbrev renewed_later : AuthResult
renewed_later = record { access_token = []; refresh_token = ascii "t11"; user = ann }

ends_later : (reissue plain calm first_session ann logged_in).0 ≡ ok renewed_later
unfolding register is_valid_email contains_at starts_with_at ends_with_at is_admin_email
    normalize_email new_id new_token publish_user issue_session create_user create_refresh_session
    login find_user_with_password_by_email reissue rotate_tx rotate_refresh_session with_tx
    Database.◌>>=◌ return query exec insert_row bytes_eq is_empty trim_space trim_left trim_right
    is_space to_lower lower_byte
ends_later = refl

abbrev after_refresh : Db
after_refresh = called (reissue plain calm first_session ann) logged_in

abbrev much_later : Db
much_later = called (refresh plain calm (ascii "t11")) after_refresh

Ended-refused_example :
    ((live_session plain calm (ascii "t") much_later).0 ≢ ok first_session)
    × ((refresh plain calm (ascii "t") much_later).0 ≢ ok renewed)
Ended-refused_example =
    Ended-refused admins plain (ascii "t") after_refresh much_later
      (refreshed calm calm first_session ann renewed_later signs_up reads_session
        (next here (logs_in plain calm (ascii "ann@x") secret)) ends_later)
      (next here (refreshes plain calm (ascii "t11"))) calm first_session renewed

fresh_id :
    session_refused
      (session_for calm ann (ascii "t1", (ascii "t1", 200)) after_sign_up)
      after_sign_up
    ≡ false
unfolding register is_valid_email contains_at starts_with_at ends_with_at is_admin_email
    normalize_email new_id new_token publish_user issue_session create_user create_refresh_session
    with_tx Database.◌>>=◌ return query exec insert_row bytes_eq is_empty trim_space trim_left
    trim_right is_space to_lower lower_byte
fresh_id = refl

ann_is_there : find_row (has_user_id []) after_sign_up.users ≡ some ann
unfolding register is_valid_email contains_at starts_with_at ends_with_at is_admin_email
    normalize_email new_id new_token publish_user issue_session create_user create_refresh_session
    with_tx Database.◌>>=◌ return query exec insert_row bytes_eq is_empty trim_space trim_left
    trim_right is_space to_lower lower_byte
ann_is_there = refl

makes_first : plain.new_refresh_token after_sign_up ≡ ok (ascii "t1", (ascii "t1", 200))
unfolding register is_valid_email contains_at starts_with_at ends_with_at is_admin_email
    normalize_email new_id new_token publish_user issue_session create_user create_refresh_session
    with_tx Database.◌>>=◌ return query exec insert_row bytes_eq is_empty trim_space trim_left
    trim_right is_space to_lower lower_byte
makes_first = refl

abbrev after_first : Db
after_first = called (refresh plain calm (ascii "t")) after_sign_up

makes_second : plain.new_refresh_token after_first ≡ ok (ascii "t11", (ascii "t11", 200))
unfolding register is_valid_email contains_at starts_with_at ends_with_at is_admin_email
    normalize_email new_id new_token publish_user issue_session create_user create_refresh_session
    refresh live_session reissue find_refresh_session find_user_by_id rotate_tx
    rotate_refresh_session with_tx Database.◌>>=◌ return query exec insert_row bytes_eq is_empty
    trim_space trim_left trim_right is_space to_lower lower_byte
makes_second = refl

fresh_second :
    session_refused (session_for calm ann (ascii "t11", (ascii "t11", 200)) after_first) after_first
    ≡ false
unfolding register is_valid_email contains_at starts_with_at ends_with_at is_admin_email
    normalize_email new_id new_token publish_user issue_session create_user create_refresh_session
    refresh live_session reissue find_refresh_session find_user_by_id rotate_tx
    rotate_refresh_session with_tx Database.◌>>=◌ return query exec insert_row bytes_eq is_empty
    trim_space trim_left trim_right is_space to_lower lower_byte
fresh_second = refl

both_refresh_example :
    ((refresh plain calm (ascii "t") after_sign_up).0 ≡ ok renewed)
    × ((reissue plain calm first_session ann after_first).0 ≡ ok renewed_later)
    × (older : List RefreshSession) × ((reissue plain calm first_session ann after_first).1.sessions
        ≡ session_for calm ann (ascii "t11", (ascii "t11", 200)) after_first
          ∷ session_for calm ann (ascii "t1", (ascii "t1", 200)) after_sign_up
          ∷ older)
both_refresh_example =
    both_refresh plain calm calm (ascii "t") after_sign_up first_session ann []
      (ascii "t1", (ascii "t1", 200)) (ascii "t11", (ascii "t11", 200)) calm-IsHealthy
      calm-IsHealthy reads_session ann_is_there refl makes_first fresh_id makes_second fresh_second

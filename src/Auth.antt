-- ===== src/Auth.antt =====
-- services/auth-service/internal/domain/domain.go, and the tables that its migrations declare. Texts are ASCII.
pub mod Repository
pub mod Service
pub mod Refreshing
pub mod Kept
pub mod Sessions
pub mod Held
pub mod Reachable
pub mod Registered
pub mod Race
mod Tests
use holdem.Prelude.{ℕ, Bool, Option, List, []}
use holdem.Prelude.Text.{Bytes}
use holdem.Database
use holdem.Database.{SqlOn}

pub record User : Type 0 where
  pub id : Bytes
  pub email : Bytes
  pub is_admin : Bool
  pub created_at : ℕ

-- a row of auth.password_credentials
pub record Credential : Type 0 where
  pub user_id : Bytes
  pub password_hash : Bytes

pub record UserWithPassword : Type 0 where
  pub user : User
  pub password_hash : Bytes

pub record RefreshSession : Type 0 where
  pub id : Bytes
  pub user_id : Bytes
  pub token_hash : Bytes
  pub expires_at : ℕ
  pub revoked_at : Option ℕ

-- the tables, and the users whose creation the publisher took
pub record Db : Type 0 where
  pub users : List User
  pub credentials : List Credential
  pub sessions : List RefreshSession
  pub published : List User

abbrev pub empty_db : Db
empty_db = record { users = []; credentials = []; sessions = []; published = [] }

pub data Statement : Type 0 where
  insert_user insert_credential find_by_email find_user search_users : Statement
  insert_session find_session revoke_session insert_rotated revoke_by_hash : Statement
  publish_created : Statement

pub data IdPrefix : Type 0 where
  user refresh : IdPrefix

abbrev pub Env : Type 0
Env = Database.Env Db Statement IdPrefix

abbrev pub Sql {ℓ} : Type ℓ → Type ℓ
Sql A = SqlOn Db A

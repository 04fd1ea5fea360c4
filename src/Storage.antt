-- ===== src/Storage.antt =====
-- services/engine/migrations: the tables of the engine's database. Hands, tables and players have text ids that are only
-- compared, so they are numbers here; in what order the database puts them is a parameter. `created_at` is never read.
pub mod Mappers
pub mod Repository
pub mod Saved
pub mod RoundTrip
pub mod Others
mod Tests
use holdem.Prelude.{ℕ, ◌≡◌, refl, Bool, ◌&&◌, ◌==◌, List, []}
use holdem.Prelude.Text.{Bytes}
use holdem.Game.{PlayerId}
use holdem.Database
use holdem.Database.{SqlOn}
use holdem.Database.Tables.{Table, IsTable}

-- game_states
pub record GameRow : Type 0 where
  pub id : ℕ
  pub table_id : ℕ
  pub street : Bytes
  pub current_bet : ℕ
  pub active_player : ℕ
  pub button : ℕ
  pub event_sequence : ℕ
  pub betting_structure : Bytes
  pub small_blind : ℕ
  pub big_blind : ℕ
  pub small_bet : ℕ
  pub big_bet : ℕ
  pub max_raises_per_street : ℕ
  pub raises_this_street : ℕ
  pub updated_at : ℕ

-- game_players
pub record PlayerRow : Type 0 where
  pub hand_id : ℕ
  pub player_id : PlayerId
  pub stack : ℕ
  pub status : Bytes
  pub current_bet : ℕ
  pub position : ℕ
  pub hole_card_1 : Bytes
  pub hole_card_2 : Bytes

-- game_board and game_deck
pub record CardRow : Type 0 where
  pub hand_id : ℕ
  pub position : ℕ
  pub card : Bytes

-- game_pots
pub record PotRow : Type 0 where
  pub hand_id : ℕ
  pub position : ℕ
  pub amount : ℕ

-- game_pot_eligible
pub record EligibleRow : Type 0 where
  pub hand_id : ℕ
  pub pot_position : ℕ
  pub player_id : PlayerId

pub record Db : Type 0 where
  pub games : List GameRow
  pub players : List PlayerRow
  pub board : List CardRow
  pub deck : List CardRow
  pub pots : List PotRow
  pub eligible : List EligibleRow

abbrev pub empty_db : Db
empty_db = record { games = []; players = []; board = []; deck = []; pots = []; eligible = [] }

-- the statements of the repository
pub data Statement : Type 0 where
  upsert_state find_state delete_state : Statement
  delete_players insert_player load_players : Statement
  delete_board insert_board load_board : Statement
  delete_deck insert_deck load_deck : Statement
  delete_eligible delete_pots insert_pot insert_eligible load_pots load_eligible : Statement

-- The repository makes no ids.
abbrev pub Env : Type 0
Env = Database.Env Db Statement (Unit {0})

abbrev pub Sql {ℓ} : Type ℓ → Type ℓ
Sql A = SqlOn Db A

-- the tables, and the primary keys of their rows

abbrev pub players_table : Table Db PlayerRow
players_table = record { rows = λ db. db.players; write = λ rs db. record db { players = rs } }

abbrev pub board_table : Table Db CardRow
board_table = record { rows = λ db. db.board; write = λ rs db. record db { board = rs } }

abbrev pub deck_table : Table Db CardRow
deck_table = record { rows = λ db. db.deck; write = λ rs db. record db { deck = rs } }

abbrev pub pots_table : Table Db PotRow
pots_table = record { rows = λ db. db.pots; write = λ rs db. record db { pots = rs } }

abbrev pub eligible_table : Table Db EligibleRow
eligible_table = record { rows = λ db. db.eligible; write = λ rs db. record db { eligible = rs } }

abbrev pub same_player : PlayerRow → PlayerRow → Bool
same_player r o = o.hand_id == r.hand_id && o.player_id == r.player_id

abbrev pub same_card : CardRow → CardRow → Bool
same_card r o = o.hand_id == r.hand_id && o.position == r.position

abbrev pub same_pot : PotRow → PotRow → Bool
same_pot r o = o.hand_id == r.hand_id && o.position == r.position

abbrev pub same_eligible : EligibleRow → EligibleRow → Bool
same_eligible r o =
    o.hand_id == r.hand_id && (o.pot_position == r.pot_position && o.player_id == r.player_id)

pub players-IsTable : IsTable players_table
players-IsTable = record {
  rows-write = λ rs db. refl;
  write-write = λ rs rs' db. refl;
  write-rows = λ db. refl;
}

pub board-IsTable : IsTable board_table
board-IsTable = record {
  rows-write = λ rs db. refl;
  write-write = λ rs rs' db. refl;
  write-rows = λ db. refl;
}

pub deck-IsTable : IsTable deck_table
deck-IsTable = record {
  rows-write = λ rs db. refl;
  write-write = λ rs rs' db. refl;
  write-rows = λ db. refl;
}

pub pots-IsTable : IsTable pots_table
pots-IsTable = record {
  rows-write = λ rs db. refl;
  write-write = λ rs rs' db. refl;
  write-rows = λ db. refl;
}

pub eligible-IsTable : IsTable eligible_table
eligible-IsTable = record {
  rows-write = λ rs db. refl;
  write-write = λ rs rs' db. refl;
  write-rows = λ db. refl;
}

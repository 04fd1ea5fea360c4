-- ===== src/Game.antt =====
-- services/engine/internal/domain: player.go, action.go, game.go, betting.go's configuration and pot.go's
-- data. Ids are strings that are only compared, so they are numbers here. Chips, indices and counters are
-- Go ints that the program keeps at zero or above; they are natural numbers, and where the source
-- subtracts, the model adds first and subtracts last, so that it agrees whenever Go's result is not
-- negative. The slice of player pointers is a list that each write returns anew.
pub mod Seats
pub mod Samples
pub mod Chips
use holdem.Prelude.{
  ℕ, zero, suc, ◌+◌, Bool, true, false, ◌&&◌, ◌||◌, ltb, leb, ◌==◌, if◌then◌else◌, Option, none,
  some, List, [], ◌∷◌, ◌++◌, length, keep_if,
}
use holdem.Cards.{Card, Bytes}
use holdem.Cards.Deck.{Deck}

abbrev pub PlayerId : Type 0
PlayerId = ℕ

-- `unknown` is any other byte
pub data ActionType : Type 0 where
  fold check call raise all_in unknown : ActionType

-- `ActionType.String`
pub action_type_string : ActionType → Bytes
action_type_string fold = b'f' ∷ b'o' ∷ b'l' ∷ b'd' ∷ []
action_type_string check = b'c' ∷ b'h' ∷ b'e' ∷ b'c' ∷ b'k' ∷ []
action_type_string call = b'c' ∷ b'a' ∷ b'l' ∷ b'l' ∷ []
action_type_string raise = b'r' ∷ b'a' ∷ b'i' ∷ b's' ∷ b'e' ∷ []
action_type_string all_in = b'a' ∷ b'l' ∷ b'l' ∷ b'-' ∷ b'i' ∷ b'n' ∷ []
action_type_string unknown = b'u' ∷ b'n' ∷ b'k' ∷ b'n' ∷ b'o' ∷ b'w' ∷ b'n' ∷ []

pub record Action : Type 0 where
  pub player_id : PlayerId
  pub type : ActionType
  pub amount : ℕ

abbrev pub new_fold : PlayerId → Action
new_fold id = record { player_id = id; type = fold; amount = 0 }

abbrev pub new_check : PlayerId → Action
new_check id = record { player_id = id; type = check; amount = 0 }

abbrev pub new_call : PlayerId → Action
new_call id = record { player_id = id; type = call; amount = 0 }

abbrev pub new_raise : PlayerId → ℕ → Action
new_raise id n = record { player_id = id; type = raise; amount = n }

abbrev pub new_all_in : PlayerId → Action
new_all_in id = record { player_id = id; type = all_in; amount = 0 }

pub data PlayerStatus : Type 0 where
  active folded all_in sitting_out : PlayerStatus

pub record Player : Type 0 where
  pub id : PlayerId
  pub stack : ℕ
  pub hole_cards : Card × Card
  pub status : PlayerStatus
  pub current_bet : ℕ
  pub position : ℕ

abbrev status_is_active : PlayerStatus → Bool
status_is_active active = true
status_is_active _ = false

abbrev status_is_all_in : PlayerStatus → Bool
status_is_all_in PlayerStatus.all_in = true
status_is_all_in _ = false

abbrev status_is_folded : PlayerStatus → Bool
status_is_folded folded = true
status_is_folded _ = false

abbrev pub is_active : Player → Bool
is_active p = status_is_active p.status

abbrev pub is_all_in : Player → Bool
is_all_in p = status_is_all_in p.status

abbrev pub is_folded : Player → Bool
is_folded p = status_is_folded p.status

-- `Player.CanAct`
abbrev pub can_act : Player → Bool
can_act p = is_active p && ltb 0 p.stack

-- the condition of `ActivePlayers`: still in the hand
abbrev pub in_hand : Player → Bool
in_hand p = is_active p || is_all_in p

pub data BettingStructure : Type 0 where
  fixed_limit unknown : BettingStructure

pub record BettingConfig : Type 0 where
  pub structure : BettingStructure
  pub small_blind : ℕ
  pub big_blind : ℕ
  pub small_bet : ℕ
  pub big_bet : ℕ
  pub max_raises_per_street : ℕ

pub record Pot : Type 0 where
  pub amount : ℕ
  pub eligible : List PlayerId

pub data Street : Type 0 where
  preflop flop turn river showdown : Street

pub record GameState : Type 0 where
  pub id : ℕ
  pub table_id : ℕ
  pub players : List Player
  pub board : List Card
  pub pots : List Pot
  pub street : Street
  pub current_bet : ℕ
  pub active_player : ℕ
  pub button : ℕ
  pub event_sequence : ℕ
  pub config : BettingConfig
  pub open config use *
  pub raises_this_street : ℕ
  pub deck : Deck

abbrev bet_size : Street → BettingConfig → ℕ
bet_size preflop c = c.small_bet
bet_size flop c = c.small_bet
bet_size turn c = c.big_bet
bet_size river c = c.big_bet
bet_size showdown c = 0

-- `GameState.BetSizeForStreet`
abbrev pub bet_size_for_street : GameState → ℕ
bet_size_for_street g = bet_size g.street g.config

-- `GameState.ActivePlayers`
abbrev pub active_players : GameState → List Player
active_players g = keep_if in_hand g.players

-- `GameState.PlayersWhoCanAct`
abbrev pub players_who_can_act : GameState → List Player
players_who_can_act g = keep_if can_act g.players

-- the first player with the id, as an index into the players
abbrev pub index_of_id : PlayerId → List Player → Option ℕ
index_of_id k [] = none
index_of_id k (p ∷ ps) =
    if p.id == k then some 0 else elim (index_of_id k ps) [ none ↦ none | some i ↦ some (suc i) ]

-- `GameState.PlayerByID`; the pointer that it returns is the place of that player
abbrev pub player_by_id : PlayerId → GameState → Option ℕ
player_by_id k g = index_of_id k g.players

-- `GameState.IsHandOver`
pub is_hand_over : GameState → Bool
is_hand_over g = leb (length (players_who_can_act g)) 1

-- `GameState.NextEventSequence`
pub next_event_sequence : GameState → ℕ
next_event_sequence g = g.event_sequence + 1

-- `GameState.AdvanceEventSequence`: the state after it; its result is the new field
abbrev pub advance_event_sequence : GameState → GameState
advance_event_sequence g = record g { event_sequence = g.event_sequence + 1 }

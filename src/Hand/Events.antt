-- ===== src/Hand/Events.antt =====
-- services/engine/internal/domain/events.go, and the calls of a use case to the world outside.
use holdem.Prelude.{ℕ, Bool, true, false, List, [], ◌∷◌, ◌++◌, Outcome, ok, err, panic, Error}
use holdem.Prelude.Dict.{Dict}
use holdem.Cards.{Card, Bytes}
use holdem.Game.{
  Action, PlayerId, GameState, Street, preflop, flop, turn, river, showdown, BettingStructure,
  fixed_limit,
}

-- `Street.EventValue`
pub street_value : Street → Bytes
street_value preflop = b'p' ∷ b'r' ∷ b'e' ∷ b'f' ∷ b'l' ∷ b'o' ∷ b'p' ∷ []
street_value flop = b'f' ∷ b'l' ∷ b'o' ∷ b'p' ∷ []
street_value turn = b't' ∷ b'u' ∷ b'r' ∷ b'n' ∷ []
street_value river = b'r' ∷ b'i' ∷ b'v' ∷ b'e' ∷ b'r' ∷ []
street_value showdown = b's' ∷ b'h' ∷ b'o' ∷ b'w' ∷ b'd' ∷ b'o' ∷ b'w' ∷ b'n' ∷ []

-- `BettingStructure.EventValue`
pub structure_value : BettingStructure → Bytes
structure_value fixed_limit =
    b'f' ∷ b'i' ∷ b'x' ∷ b'e' ∷ b'd' ∷ b'_' ∷ b'l' ∷ b'i' ∷ b'm' ∷ b'i' ∷ b't' ∷ []
structure_value BettingStructure.unknown = b'u' ∷ b'n' ∷ b'k' ∷ b'n' ∷ b'o' ∷ b'w' ∷ b'n' ∷ []

-- An event's id is the text of the hand's id and the sequence number; here it is the pair.
pub record HandStartedEvent : Type 0 where
  pub event_id : ℕ × ℕ
  pub event_version : ℕ
  pub hand_id : ℕ
  pub table_id : ℕ
  pub sequence_number : ℕ
  pub players : List PlayerId
  pub player_count : ℕ
  pub button : ℕ
  pub betting_structure : Bytes
  pub small_blind : ℕ
  pub big_blind : ℕ
  pub occurred_at : ℕ

pub record PlayerActedEvent : Type 0 where
  pub event_id : ℕ × ℕ
  pub event_version : ℕ
  pub hand_id : ℕ
  pub table_id : ℕ
  pub sequence_number : ℕ
  pub player_id : PlayerId
  pub street : Bytes
  pub player_position : ℕ
  pub action : Action
  pub current_bet : ℕ
  pub player_current_bet : ℕ
  pub occurred_at : ℕ

pub record HandEndedEvent : Type 0 where
  pub event_id : ℕ × ℕ
  pub event_version : ℕ
  pub hand_id : ℕ
  pub table_id : ℕ
  pub sequence_number : ℕ
  pub player_count : ℕ
  pub button : ℕ
  pub small_blind : ℕ
  pub big_blind : ℕ
  pub is_showdown : Bool
  pub gross_pot : ℕ
  pub net_pot : ℕ
  pub winners : Dict ℕ
  pub rake : ℕ
  pub board : List Card
  pub occurred_at : ℕ

pub data Effect : Type 0 where
  saved : GameState → Effect
  published_started : HandStartedEvent → Effect
  published_acted : PlayerActedEvent → Effect
  published_ended : HandEndedEvent → Effect

-- What the world answers: the stored hand or an error, whether a call fails, and the readings of the
-- clock in their order.
pub record World : Type 0 where
  pub find_by_id : ℕ → Outcome GameState
  pub save_fails : GameState → Bool
  pub started_fails : HandStartedEvent → Bool
  pub acted_fails : PlayerActedEvent → Bool
  pub ended_fails : HandEndedEvent → Bool
  pub clock : ℕ → ℕ

-- A use case: how it ends, and its effects so far.
abbrev pub Job {ℓ} : Type ℓ → Type ℓ
Job A = Outcome A × List Effect

-- a computation without effects
abbrev pub pure {ℓ} : {A : Type ℓ} → Outcome A → Job A
pure o = (o, [])

-- a call with an effect, unless it fails
abbrev pub send : Bool → Error → Effect → Job (Unit {0})
send true e x = (err e, [])
send false e x = (ok tt, x ∷ [])

infixl 5 ◌>>=◌ ◌>>◌
abbrev pub ◌>>=◌ {ℓ κ} : {A : Type ℓ} {B : Type κ} → Job A → (A → Job B) → Job B
◌>>=◌ m f = elim m.0 [
  | ok a ↦ let (r, later) = f a in (r, m.1 ++ later)
  | err e ↦ (err e, m.1)
  | panic ↦ (panic, m.1)
]

abbrev pub ◌>>◌ {ℓ} : {B : Type ℓ} → Job (Unit {0}) → Job B → Job B
m >> k = m >>= λ _. k

-- ===== src/Tables/World.antt =====
-- What the table manager calls: its repository, the engine and the wallet, of
-- services/table-manager/internal/application/service.go. The text of an idempotency key is the record of its
-- parts; a hand's state is what the service reads of the engine's message.
use holdem.Prelude.{
  ℕ, Bool, Option, none, some, List, [], ◌∷◌, ◌++◌, Outcome, ok, err, panic, Error,
}
use holdem.Game.{ActionType}
use holdem.Tables.{Table, TableStatus}

pub record HandState : Type 0 where
  pub id : ℕ
  pub at_showdown : Bool
  -- each player's id and stack
  pub players : List (ℕ × ℕ)

pub record StartHandRequest : Type 0 where
  pub table_id : ℕ
  -- each player's id, stack and position
  pub players : List (ℕ × ℕ × ℕ)
  pub button : ℕ
  pub small_blind : ℕ
  pub big_blind : ℕ

pub record ApplyActionRequest : Type 0 where
  pub hand_id : ℕ
  pub player_id : ℕ
  pub type : ActionType
  pub amount : ℕ

-- the parts of both idempotency keys; a cash-out has no count of players
pub record MoneyKey : Type 0 where
  pub table_id : ℕ
  pub player_id : ℕ
  pub seat_index : ℕ
  pub amount : ℕ
  pub status : TableStatus
  pub active_hand_id : ℕ
  pub button : ℕ
  pub playable_count : Option ℕ

pub data Effect : Type 0 where
  created saved : Table → Effect
  -- the player, the table, the amount and the key
  debited credited : ℕ → ℕ → ℕ → MoneyKey → Effect
  hand_started : StartHandRequest → Effect
  action_applied : ApplyActionRequest → Effect

-- What the calls answer; the engine's answer may have no state. `has_wallet` is false for a nil client.
pub record World : Type 0 where
  pub clock : ℕ
  pub find_table : ℕ → Outcome Table
  pub create_fails : Table → Option Error
  pub save_fails : Table → Option Error
  pub has_wallet : Bool
  pub debit_fails : ℕ → ℕ → ℕ → MoneyKey → Option Error
  pub credit_fails : ℕ → ℕ → ℕ → MoneyKey → Option Error
  pub start_hand : StartHandRequest → Outcome (Option HandState)
  pub apply_action : ApplyActionRequest → Outcome (Option HandState)

abbrev pub Job : Type 0 → Type 0
Job A = Outcome A × List Effect

abbrev pub pure : {A : Type 0} → Outcome A → Job A
pure o = (o, [])

-- a call with an effect, unless it fails
abbrev pub send : Option Error → Effect → Job (Unit {0})
send (some e) x = (err e, [])
send none x = (ok tt, x ∷ [])

-- a call of the engine, whose answer must have a state
abbrev pub ask : Outcome (Option HandState) → Effect → Job HandState
ask (ok (some h)) x = (ok h, x ∷ [])
ask (ok none) x = (err Error.empty_engine_state, x ∷ [])
ask (err e) x = (err e, [])
ask panic x = (panic, [])

infixl 5 ◌>>=◌ ◌>>◌
abbrev pub ◌>>=◌ : {A B : Type 0} → Job A → (A → Job B) → Job B
(ok a, before) >>= f = let (r, after) = f a in (r, before ++ after)
(err e, before) >>= f = (err e, before)
(panic, before) >>= f = (panic, before)

abbrev pub ◌>>◌ : {B : Type 0} → Job (Unit {0}) → Job B → Job B
m >> k = m >>= λ _. k

-- ===== src/Betting.antt =====
-- services/engine/internal/domain/betting.go: what a player may do, what it does to the state, when a
-- betting round is over and whose turn comes next. `CollectBets` is in Pots.
mod Tests
pub mod Accepted
pub mod Effect
pub mod Rounds
pub mod Turns
use holdem.Prelude.{
  ℕ, zero, suc, ◌+◌, ◌-◌, ◌%◌, Bool, true, false, ◌&&◌, not, ltb, leb, ◌==◌, if◌then◌else◌, Option,
  none, some, List, [], ◌∷◌, Outcome, ok, err, panic, Error, fail_if, or_panic, ◌>>=◌, ◌>>◌, length,
  get_elem?, set,
}
use holdem.Game.{
  Player, PlayerStatus, folded, Action, ActionType, fold, check, call, raise, GameState, can_act,
  in_hand, bet_size_for_street,
}

-- the switch of `ValidateAction`
unfoldable pub validate_type : GameState → Player → ℕ → ActionType → Outcome (Unit {0})
validate_type g p amount check = fail_if (ltb p.current_bet g.current_bet) Error.invalid_action
validate_type g p amount call = fail_if (g.current_bet == p.current_bet) Error.invalid_action
validate_type g p amount raise = do
  fail_if (leb g.max_raises_per_street g.raises_this_street) Error.raise_cap_reached
  fail_if (not (amount == g.current_bet + bet_size_for_street g)) Error.invalid_raise_amount
  fail_if (ltb (p.stack + p.current_bet) amount) Error.insufficient_stack
validate_type g p amount fold = ok tt
validate_type g p amount ActionType.all_in = err Error.invalid_action
validate_type g p amount ActionType.unknown = err Error.invalid_action

-- `ValidateAction`
unfoldable pub validate_action : GameState → Action → Outcome (Unit {0})
validate_action g a = do
  p ← or_panic (get_elem? g.players g.active_player)
  fail_if (not (p.id == a.player_id)) Error.not_player_turn
  fail_if (not (can_act p)) Error.player_not_active
  validate_type g p a.amount a.type

-- `ActionCall` on the player: the difference, or the whole stack if that is no more
abbrev pub call_bet : ℕ → Player → Player
call_bet bet p =
    if leb (p.stack + p.current_bet) bet
    then record p { status = PlayerStatus.all_in; stack = 0; current_bet = p.current_bet + p.stack }
    else record p { stack = p.stack + p.current_bet - bet; current_bet = bet }

-- `ActionRaise` on the player: the bet becomes the amount
abbrev pub raise_bet : ℕ → Player → Player
raise_bet amount p =
    let left = p.stack + p.current_bet - amount in
    record p {
      stack = left;
      current_bet = amount;
      status = if left == 0 then PlayerStatus.all_in else p.status;
    }

-- the switch of `ApplyAction`, on the active player
unfoldable pub act : GameState → Player → ℕ → ActionType → GameState
act g p amount fold = record g {
  players = set g.players g.active_player (record p { status = folded });
}
act g p amount check = g
act g p amount call = record g {
  players = set g.players g.active_player (call_bet g.current_bet p);
}
act g p amount raise = record g {
  players = set g.players g.active_player (raise_bet amount p);
  current_bet = amount;
  raises_this_street = g.raises_this_street + 1;
}
act g p amount ActionType.all_in = g
act g p amount ActionType.unknown = g

-- `ApplyAction`
unfoldable pub apply_action : GameState → Action → Outcome GameState
apply_action g a = do
  p ← or_panic (get_elem? g.players g.active_player)
  ok (act g p a.amount a.type)

abbrev pub all_called : ℕ → List Player → Bool
all_called bet [] = true
all_called bet (p ∷ ps) = if can_act p && ltb p.current_bet bet then false else all_called bet ps

-- `IsBettingRoundOver`
unfoldable pub is_betting_round_over : GameState → Bool
is_betting_round_over g = all_called g.current_bet g.players

-- for i := 1; i <= n; i++ over the seats after `start`: the first whose player passes the test. The
-- first argument is the rounds that are left, the second `i`.
abbrev pub seat_passes : (Player → Bool) → List Player → ℕ → Bool
seat_passes test ps idx = elim (get_elem? ps idx) [ none ↦ false | some p ↦ test p ]

unfoldable pub next_seat : (Player → Bool) → List Player → ℕ → ℕ → ℕ → ℕ
next_seat test ps start zero i = start
next_seat test ps start (suc rounds) i =
    let idx = (start + i) % length ps in
    elim (seat_passes test ps idx) [ true ↦ idx | false ↦ next_seat test ps start rounds (i + 1) ]

-- `NextActivePlayer`
pub next_active_player : GameState → ℕ
next_active_player g = next_seat can_act g.players g.active_player (length g.players) 1

-- `FirstActiveAfterButton`
pub first_active_after_button : GameState → ℕ
first_active_after_button g = next_seat in_hand g.players g.button (length g.players) 1

-- ===== src/Betting/Tests.antt =====
-- The betting rules at a table of three.
use holdem.Prelude.{◌≡◌, ◌≤◌, ◌↔◌, refl, true, ok, err, Error, arith, set, All}
use holdem.Game.{Player, active, new_raise, new_call, GameState}
use holdem.Game.Chips.{chips}
use holdem.Game.Samples.{before_flop, three_players, player}
use holdem.Betting.{validate_type, validate_action, apply_action, is_betting_round_over}
use holdem.Betting.Accepted.{Legal, validate_action_iff}
use holdem.Betting.Effect.{InRound, apply_action_effect}
use holdem.Betting.Rounds.{Matched, is_betting_round_over_iff}

raise_is_accepted : validate_action before_flop (new_raise 1 20) ≡ ok tt
unfolding validate_action validate_type
raise_is_accepted = refl

large_raise_is_refused :
    validate_action before_flop (new_raise 1 30) ≡ err Error.invalid_raise_amount
unfolding validate_action validate_type
large_raise_is_refused = refl

early_call_is_refused : validate_action before_flop (new_call 2) ≡ err Error.not_player_turn
unfolding validate_action
early_call_is_refused = refl

raise-Legal : Legal before_flop (new_raise 1 20)
raise-Legal = record {
  player = player 1 100 active 0;
  seated = refl;
  own_turn = refl;
  able = refl;
  move = (ground arith, refl, ground arith);
}

before_flop-InRound : InRound before_flop
before_flop-InRound = record { covered = ground arith; capped = ground arith }

apply_action_effect_example :
    (g' : GameState) × (apply_action before_flop (new_raise 1 20) ≡ ok g')
    × InRound g'
    × (chips g' ≡ 300)
    × (10 ≤ g'.current_bet)
    × (q : Player) × (g'.players ≡ set three_players 0 q)
apply_action_effect_example =
    apply_action_effect before_flop (new_raise 1 20) before_flop-InRound raise-Legal

validate_action_iff_example :
    (validate_action before_flop (new_raise 1 20) ≡ ok tt) ↔ Legal before_flop (new_raise 1 20)
validate_action_iff_example =
    validate_action_iff before_flop (new_raise 1 20) before_flop-InRound.covered

is_betting_round_over_iff_example :
    (is_betting_round_over before_flop ≡ true) ↔ All (Matched 10) three_players
is_betting_round_over_iff_example = is_betting_round_over_iff before_flop

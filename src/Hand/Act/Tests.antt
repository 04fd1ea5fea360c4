-- ===== src/Hand/Act/Tests.antt =====
-- Actions at a table of three.
use holdem.Prelude.{
  ◌+◌, ◌/◌, ◌≡◌, ◌≢◌, refl, true, false, [], ◌∷◌, ◌++◌, In, ok, err, Error, arith, length, none,
}
use holdem.Game.{GameState, active, all_in, preflop, flop, new_call, new_raise, new_check}
use holdem.Game.Chips.{stacks, bets, chips}
use holdem.Game.Samples.{card, player, as_listed, before_flop, some_cards}
use holdem.Betting.{
  validate_action, validate_type, apply_action, act, is_betting_round_over, next_active_player,
}
use holdem.Betting.Effect.{InRound}
use holdem.Cards.Deck.{deal}
use holdem.Pots.{collect_bets}
use holdem.Rake.{RakeConfig}
use holdem.Hand.Events.{World, saved}
use holdem.Hand.Finish.Engine.{evaluator}
use holdem.Hand.Act.{execute, advance_street, reset_street, deal_board, continue_hand}
use holdem.Hand.Act.Streets.{advance_street_effect, all_in_stalls, cards_dealt, following}
use holdem.Hand.Act.Steps.{execute_stores}

abbrev house : RakeConfig
house = record { percent_of = λ n. n / 20; cap = 3; no_flop_no_drop = true }

-- a world in which every call succeeds
abbrev calm : World
calm = record {
  find_by_id = λ k. ok before_flop;
  save_fails = λ g. false;
  started_fails = λ e. false;
  acted_fails = λ e. false;
  ended_fails = λ e. false;
  clock = λ n. n;
}

abbrev called : GameState
called = record before_flop {
  players = player 1 90 active 10 ∷ player 2 95 active 5 ∷ player 3 90 active 10 ∷ [];
  event_sequence = 2;
}

abbrev after_call : GameState
after_call = record called { active_player = next_active_player called }

call_goes_on : (execute as_listed evaluator house calm 100 (new_call 1)).0 ≡ ok after_call
unfolding execute validate_action validate_type apply_action act continue_hand is_betting_round_over
call_goes_on = refl

execute_stores_example :
    In (saved after_call) (execute as_listed evaluator house calm 100 (new_call 1)).1
execute_stores_example =
    execute_stores as_listed evaluator house calm 100 (new_call 1) after_call call_goes_on

refused : validate_action before_flop (new_raise 1 35) ≡ err Error.invalid_raise_amount
unfolding validate_action validate_type
refused = refl

abbrev on_flop : GameState
on_flop = record (reset_street as_listed before_flop) {
  board = card 14 0 ∷ card 13 0 ∷ card 7 1 ∷ [];
  deck = record { cards = card 7 2 ∷ card 3 3 ∷ card 9 1 ∷ card 11 2 ∷ []; shuffle = none };
  street = flop;
}

flop_comes : advance_street as_listed before_flop ≡ ok on_flop
unfolding advance_street deal_board reset_street deal collect_bets
flop_comes = refl

advance_street_effect_example :
    (chips on_flop ≡ 300)
    × (on_flop.board ++ on_flop.deck.cards ≡ some_cards)
    × (length on_flop.board ≡ 0 + cards_dealt preflop)
    × (on_flop.street ≡ following preflop)
    × (on_flop.current_bet ≡ 0)
    × (bets on_flop.players ≡ 0)
    × (stacks on_flop.players ≡ 285)
    × InRound on_flop
advance_street_effect_example =
    advance_street_effect as_listed before_flop (ground arith) flop_comes

-- the player after the button has put his last chip in
abbrev with_all_in : GameState
with_all_in = record before_flop {
  players = player 1 90 active 10 ∷ player 2 0 all_in 10 ∷ player 3 90 active 10 ∷ [];
}

abbrev stuck : GameState
stuck = record (reset_street as_listed with_all_in) {
  board = card 14 0 ∷ card 13 0 ∷ card 7 1 ∷ [];
  deck = record { cards = card 7 2 ∷ card 3 3 ∷ card 9 1 ∷ card 11 2 ∷ []; shuffle = none };
  street = flop;
}

stuck_comes : advance_street as_listed with_all_in ≡ ok stuck
unfolding advance_street deal_board reset_street deal collect_bets
stuck_comes = refl

all_in_stalls_example : validate_action stuck (new_check 2) ≢ ok tt
all_in_stalls_example =
    all_in_stalls as_listed with_all_in (player 2 0 all_in 10) refl refl stuck_comes (new_check 2)

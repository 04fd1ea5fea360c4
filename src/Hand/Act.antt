-- ===== src/Hand/Act.antt =====
-- services/engine/internal/application/apply_action.go: one action of a player, from the stored hand to
-- the stored hand.
mod Tests
pub mod Streets
pub mod Steps
use holdem.Prelude.{
  ℕ, ◌+◌, Bool, true, false, leb, if◌then◌else◌, Option, none, some, List, [], ◌∷◌, ◌++◌, length,
  get_elem?, Outcome, ok, Error, or_fail, or_panic,
}
use holdem.Cards.{Card}
use holdem.Cards.Deck.{Deck, deal}
use holdem.Game.{
  PlayerId, Player, Action, GameState, Street, preflop, flop, turn, river, showdown, player_by_id,
  players_who_can_act, advance_event_sequence,
}
use holdem.Betting.{
  validate_action, apply_action, is_betting_round_over, next_active_player,
  first_active_after_button,
}
use holdem.Pots.{collect_bets}
use holdem.Rake.{RakeConfig}
use holdem.Hand.Events.{
  World, Job, pure, send, saved, published_acted, PlayerActedEvent, street_value, ◌>>=◌, ◌>>◌,
}
use holdem.Hand.Finish.{HandEvaluator, finish_hand}
use holdem.Prelude

-- n cards onto the board, and the next street
pub deal_board : ℕ → Street → GameState → Outcome GameState
deal_board n next g =
    Prelude.◌>>=◌ (deal n g.deck)
      (λ (cards, rest). ok (record g { board = g.board ++ cards; deck = rest; street = next }))

-- the switch of `advanceStreet`
abbrev pub next_street : Street → GameState → Outcome GameState
next_street preflop g = deal_board 3 flop g
next_street flop g = deal_board 1 turn g
next_street turn g = deal_board 1 river g
next_street river g = ok (record g { street = showdown })
next_street showdown g = ok g

module _ (order : List PlayerId → List PlayerId) where
  -- the street before the switch: bets collected, counters reset, the turn after the button
  pub reset_street : GameState → GameState
  reset_street g =
      let c = collect_bets order g in
      record c {
        current_bet = 0;
        raises_this_street = 0;
        active_player = first_active_after_button c;
      }

  -- `advanceStreet`
  pub advance_street : GameState → Outcome GameState
  advance_street g = next_street g.street (reset_street g)

  module _ (ev : HandEvaluator) (rake_config : RakeConfig) (w : World) where
    -- a state that is stored and returned
    abbrev pub store : GameState → Job GameState
    store g = do send (w.save_fails g) Error.save_failed (saved g); pure (ok g)

    abbrev pub after_street : Street → GameState → Job GameState
    after_street showdown g = finish_hand ev order rake_config w 1 g
    after_street _ g = store g

    -- what follows the publication of the action
    pub continue_hand : GameState → Job GameState
    continue_hand g =
        if leb (length (players_who_can_act g)) 1
        then finish_hand ev order rake_config w 1 g
        else if is_betting_round_over g
        then (do advanced ← pure (advance_street g); after_street advanced.street advanced)
        else store (record g { active_player = next_active_player g })

    -- the event of an action by the player at the place `i`
    pub acted_event : GameState → Action → Player → PlayerActedEvent
    acted_event g a p = record {
      event_id = (g.id, g.event_sequence);
      event_version = 1;
      hand_id = g.id;
      table_id = g.table_id;
      sequence_number = g.event_sequence;
      player_id = a.player_id;
      street = street_value g.street;
      player_position = p.position;
      action = a;
      current_bet = g.current_bet;
      player_current_bet = p.current_bet;
      occurred_at = w.clock 0;
    }

    -- `ApplyAction.Execute`
    pub execute : ℕ → Action → Job GameState
    execute hand_id a = do
      state ← pure (w.find_by_id hand_id)
      pure (validate_action state a)
      place ← pure (or_fail (player_by_id a.player_id state) Error.player_not_found)
      applied ← pure (apply_action state a)
      let g = advance_event_sequence applied
      acting ← pure (or_panic (get_elem? g.players place))
      let event = acted_event g a acting
      send (w.acted_fails event) Error.publish_failed (published_acted event)
      continue_hand g

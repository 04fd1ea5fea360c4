-- ===== src/Hand/Start/Tests.antt =====
-- The start of a hand at a table of three.
use holdem.Prelude.{drop, some, false, Outcome, ◌≡◌, ◌↔◌, refl, List, [], ◌∷◌, ok, err, Error, none}
use holdem.Prelude.Int.{negsuc, ◌+ℤ◌}
use holdem.Game.{Player, active}
use holdem.Game.Samples.{card, player, stakes, some_cards, three_players}
use holdem.Cards.Deck.{Deck, deal}
use holdem.Hand.Start.{StartHandInput, validate_input, blind_indexes, deal_hole_cards}
use holdem.Cards.{Card}
use holdem.Cards.Deck.{new_deck, suit_loop, rank_loop, shuffled}
use holdem.Betting.{next_seat}
use holdem.Game.{GameState, preflop}
use holdem.Hand.Events.{World}
use holdem.Hand.Start.{execute, first_state, post_blinds, next_active_index}
use holdem.Hand.Start.Checks.{Startable, input_of, validate_input_iff}

abbrev first_hand : StartHandInput
first_hand = input_of 7 three_players 1 stakes

validate_input_iff_example : (validate_input first_hand ≡ ok tt) ↔ Startable first_hand
validate_input_iff_example = validate_input_iff first_hand

accepted : validate_input first_hand ≡ ok tt
unfolding validate_input ◌+ℤ◌
accepted = refl

abbrev negative_button : StartHandInput
negative_button = record first_hand { button = negsuc 0 }

refused : validate_input negative_button ≡ err Error.invalid_button
unfolding validate_input ◌+ℤ◌
refused = refl

abbrev two_players : List Player
two_players = player 1 100 active 0 ∷ player 2 50 active 0 ∷ []

abbrev full_deck : Deck
full_deck = record { cards = some_cards; shuffle = none }

abbrev rest_deck : Deck
rest_deck = record { cards = card 3 3 ∷ card 9 1 ∷ card 11 2 ∷ []; shuffle = none }

abbrev dealt_players : List Player
dealt_players =
    record (player 1 100 active 0) { hole_cards = (card 14 0, card 13 0) }
    ∷ record (player 2 50 active 0) { hole_cards = (card 7 1, card 7 2) }
    ∷ []

both_dealt : deal_hole_cards full_deck two_players ≡ ok (rest_deck, dealt_players)
unfolding deal_hole_cards deal
both_dealt = refl

-- a world in which every call succeeds
abbrev calm : World
calm = record {
  find_by_id = λ k. Outcome.panic;
  save_fails = λ g. false;
  started_fails = λ e. false;
  acted_fails = λ e. false;
  ended_fails = λ e. false;
  clock = λ n. n;
}

abbrev unshuffled : List Card → List Card
unshuffled cs = cs

abbrev begun : GameState
begun = record {
  id = 1;
  table_id = 7;
  players =
      record (player 1 90 active 10) { hole_cards = (card 2 0, card 3 0) }
      ∷ record (player 2 95 active 0) { hole_cards = (card 4 0, card 5 0) }
      ∷ record (player 3 85 active 5) { hole_cards = (card 6 0, card 7 0) }
      ∷ [];
  board = [];
  pots = [];
  street = preflop;
  current_bet = 10;
  active_player = 1;
  button = 1;
  event_sequence = 1;
  config = stakes;
  raises_this_street = 0;
  deck = record { cards = drop 6 (new_deck unshuffled).cards; shuffle = some unshuffled };
}

begins : (execute calm unshuffled first_hand).0 ≡ ok begun
unfolding execute first_state validate_input deal_hole_cards post_blinds blind_indexes
    next_active_index ◌+ℤ◌ deal new_deck suit_loop rank_loop shuffled next_seat
begins = refl

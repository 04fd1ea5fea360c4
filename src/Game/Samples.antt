-- ===== src/Game/Samples.antt =====
-- A table of three for the examples: the button has the first turn, the others have posted the blinds.
use holdem.Prelude.{ℕ, ◌+◌, List, [], ◌∷◌, none}
use holdem.Cards.{Card, Rank, Suit}
use holdem.Game.{
  Player, PlayerId, PlayerStatus, active, BettingConfig, fixed_limit, GameState, Street, preflop,
  Pot,
}

abbrev pub card : Rank → Suit → Card
card r s = record { rank = r; suit = s }

abbrev pub player : PlayerId → ℕ → PlayerStatus → ℕ → Player
player id stack status bet = record {
  id = id;
  stack = stack;
  hole_cards = (card (id + 2) 0, card (id + 5) 1);
  status = status;
  current_bet = bet;
  position = id;
}

abbrev pub stakes : BettingConfig
stakes = record {
  structure = fixed_limit;
  small_blind = 5;
  big_blind = 10;
  small_bet = 10;
  big_bet = 20;
  max_raises_per_street = 4;
}

abbrev pub some_cards : List Card
some_cards = card 14 0 ∷ card 13 0 ∷ card 7 1 ∷ card 7 2 ∷ card 3 3 ∷ card 9 1 ∷ card 11 2 ∷ []

abbrev pub table_at : Street → List Player → List Card → List Pot → ℕ → GameState
table_at street players board pots bet = record {
  id = 100;
  table_id = 7;
  players = players;
  board = board;
  pots = pots;
  street = street;
  current_bet = bet;
  active_player = 0;
  button = 0;
  event_sequence = 1;
  config = stakes;
  raises_this_street = 0;
  deck = record { cards = some_cards; shuffle = none };
}

abbrev pub three_players : List Player
three_players = player 1 100 active 0 ∷ player 2 95 active 5 ∷ player 3 90 active 10 ∷ []

abbrev pub before_flop : GameState
before_flop = table_at preflop three_players [] [] 10

-- the same order as in the association list
abbrev pub as_listed : List PlayerId → List PlayerId
as_listed ks = ks

-- ===== src/Hand/Start.antt =====
-- services/engine/internal/application/start_hand.go: the checks on a new hand, the hole cards, the
-- blinds and the first state.
mod Tests
pub mod Checks
pub mod Setup
pub mod Begun
use holdem.Prelude.{
  ℕ, ◌+◌, ◌-◌, ◌*◌, ◌%◌, Bool, true, false, ◌||◌, not, ltb, leb, ◌==◌, if◌then◌else◌, Option, none,
  some, List, [], ◌∷◌, length, map, get_elem?, set, Outcome, ok, err, panic, Error, fail_if,
  or_panic, ◌>>=◌, ◌>>◌,
}
use holdem.Prelude.Int.{ℤ, pos, ◌+ℤ◌, is_negative, not_positive, is_below, is_equal, magnitude}
use holdem.Cards.{Card}
use holdem.Cards.Deck.{Deck, new_deck, shuffled, deal}
use holdem.Game.{
  Player, PlayerStatus, active, GameState, preflop, BettingConfig, BettingStructure, fixed_limit,
  can_act,
}
use holdem.Betting.{next_seat}
use holdem.Hand.Events.{
  World, Job, pure, send, saved, published_started, HandStartedEvent, structure_value,
}
use holdem.Hand.Events

-- `StartHandInput`: the numbers are signed, as the caller gives them
pub record StartHandInput : Type 0 where
  pub table_id : ℕ
  pub players : List Player
  pub button : ℤ
  pub structure : BettingStructure
  pub small_blind : ℤ
  pub big_blind : ℤ
  pub small_bet : ℤ
  pub big_bet : ℤ
  pub max_raises_per_street : ℤ

abbrev is_fixed_limit : BettingStructure → Bool
is_fixed_limit fixed_limit = true
is_fixed_limit BettingStructure.unknown = false

-- `validateStartHandInput`
pub validate_input : StartHandInput → Outcome (Unit {0})
validate_input i = do
  fail_if (ltb (length i.players) 2) Error.not_enough_players
  fail_if (not (is_fixed_limit i.structure)) Error.unsupported_structure
  fail_if (not_positive i.small_blind || not_positive i.big_blind) Error.blinds_not_positive
  fail_if (not_positive i.small_bet || not_positive i.big_bet) Error.bets_not_positive
  fail_if (not (is_equal i.big_blind (i.small_blind +ℤ i.small_blind))) Error.big_blind_not_twice
  fail_if (is_below i.small_bet i.big_blind) Error.small_bet_too_small
  fail_if (is_below i.big_bet i.small_bet) Error.big_bet_too_small
  fail_if (not_positive i.max_raises_per_street) Error.raises_not_positive
  fail_if (is_negative i.button || not (is_below i.button (pos (length i.players))))
      Error.invalid_button

-- the stakes of an input that passed the checks, which leave no negative number
abbrev stakes_of : StartHandInput → BettingConfig
stakes_of i = record {
  structure = i.structure;
  small_blind = magnitude i.small_blind;
  big_blind = magnitude i.big_blind;
  small_bet = magnitude i.small_bet;
  big_bet = magnitude i.big_bet;
  max_raises_per_street = magnitude i.max_raises_per_street;
}

-- `[2]Card{cards[0], cards[1]}`
abbrev pub two_cards : List Card → Outcome (Card × Card)
two_cards [] = panic
two_cards (c ∷ []) = panic
two_cards (c ∷ d ∷ cs) = ok (c, d)

-- `dealHoleCards`: the deck and the players after it
pub deal_hole_cards : Deck → List Player → Outcome (Deck × List Player)
deal_hole_cards d [] = ok (d, [])
deal_hole_cards d (p ∷ ps) = deal 2 d >>= λ (cards, d'). two_cards cards >>= λ hole.
    deal_hole_cards d' ps >>= λ (d'', ps').
    ok (d'', record p { hole_cards = hole; status = active; current_bet = 0 } ∷ ps')

-- a blind of one player
abbrev pub post_blind : List Player → ℕ → ℕ → Outcome (List Player)
post_blind players i blind = do
  p ← or_panic (get_elem? players i)
  fail_if (ltb p.stack blind) Error.insufficient_stack
  ok (set players i (record p { stack = p.stack - blind; current_bet = blind }))

-- `postBlinds`
pub post_blinds : List Player → ℕ → ℕ → ℕ → ℕ → Outcome (List Player)
post_blinds players sb_index bb_index sb bb = do
  posted ← post_blind players sb_index sb
  post_blind posted bb_index bb

-- `nextActiveIndex`
pub next_active_index : ℕ → List Player → ℕ
next_active_index bb_index players = next_seat can_act players bb_index (length players) 1

-- `blindIndexes`
pub blind_indexes : ℕ → ℕ → ℕ × ℕ
blind_indexes button n =
    if n == 2 then (button, (button + 1) % n) else ((button + 1) % n, (button + 2) % n)

-- The first state of a hand, up to the calls of the world; `id` is the text of the clock's reading.
pub first_state : (List Card → List Card) → StartHandInput → ℕ → Outcome GameState
first_state shuffle i id = do
  validate_input i
  deck ← shuffled (new_deck shuffle)
  dealt ← deal_hole_cards deck i.players
  let stakes = stakes_of i
  let blinds = blind_indexes (magnitude i.button) (length i.players)
  posted ← post_blinds dealt.1 blinds.0 blinds.1 stakes.small_blind stakes.big_blind
  ok (record {
    id = id;
    table_id = i.table_id;
    players = posted;
    board = [];
    pots = [];
    street = preflop;
    current_bet = stakes.big_blind;
    active_player = next_active_index blinds.1 posted;
    button = magnitude i.button;
    event_sequence = 1;
    config = stakes;
    raises_this_street = 0;
    deck = dealt.0;
  })

pub started_event : GameState → ℕ → HandStartedEvent
started_event g now = record {
  event_id = (g.id, g.event_sequence);
  event_version = 1;
  hand_id = g.id;
  table_id = g.table_id;
  sequence_number = g.event_sequence;
  players = map (λ p. p.id) g.players;
  player_count = length g.players;
  button = g.button;
  betting_structure = structure_value g.structure;
  small_blind = g.small_blind;
  big_blind = g.big_blind;
  occurred_at = now;
}

-- `StartHand.Execute`
pub execute : World → (List Card → List Card) → StartHandInput → Job GameState
execute w shuffle i = Events.◌>>=◌ (pure (first_state shuffle i (w.clock 1))) λ g.
    let event = started_event g (w.clock 0) in
    Events.◌>>◌ (send (w.save_fails g) Error.save_failed (saved g)) (
      Events.◌>>◌ (send (w.started_fails event) Error.publish_failed (published_started event))
        (pure (ok g)))

-- ===== src/Storage/Repository.antt =====
-- services/engine/internal/infrastructure/repository/postgres: game_state_repository.go and the files of its queries. A
-- query's text is built by a library; the model has what the query says. A deck that is nil has no rows, as an empty one.
use holdem.Prelude.{
  ℕ, Bool, true, false, ◌&&◌, not, leb, ◌==◌, if◌then◌else◌, Option, none, some, List, [], ◌∷◌,
  keep_if, Outcome, ok, err, panic, Error, or_fail,
}
use holdem.Prelude
use holdem.Cards.{Card, card_string}
use holdem.Cards.Deck.{Deck, new_deck_from_cards}
use holdem.Cards.Parser.{parse_card}
use holdem.Game.{PlayerId, Player, Pot, GameState}
use holdem.Database.{
  return, query, exec, insert_row, with_tx, find_row, exists_row, order_by, ◌>>=◌, ◌>>◌,
}
use holdem.Database.Tables.{delete_where, insert_into, for_each, numbered, scan_rows}
use holdem.Storage.{
  GameRow, PlayerRow, CardRow, PotRow, EligibleRow, Db, Env, Sql, upsert_state, find_state,
  delete_state, delete_players, insert_player, load_players, delete_board, insert_board, load_board,
  delete_deck, insert_deck, load_deck, delete_eligible, delete_pots, insert_pot, insert_eligible,
  load_pots, load_eligible, players_table, board_table, deck_table, pots_table, eligible_table,
  same_player, same_card, same_pot, same_eligible,
}
use holdem.Storage.Mappers.{
  street_to_string, street_from_string, player_status_to_string, player_status_from_string,
  betting_structure_to_string, betting_structure_from_string,
}

abbrev pub is_game : ℕ → GameRow → Bool
is_game h r = r.id == h

abbrev pub player_of : ℕ → PlayerRow → Bool
player_of h r = r.hand_id == h

abbrev pub card_of : ℕ → CardRow → Bool
card_of h r = r.hand_id == h

abbrev pub pot_of : ℕ → PotRow → Bool
pot_of h r = r.hand_id == h

abbrev pub eligible_of : ℕ → EligibleRow → Bool
eligible_of h r = r.hand_id == h

-- the foreign key of the tables of a hand
abbrev pub orphan : ℕ → Db → Bool
orphan h db = not (exists_row (is_game h) db.games)

-- the values of `upsertGameState`
abbrev pub game_row : ℕ → GameState → GameRow
game_row now g = record {
  id = g.id;
  table_id = g.table_id;
  street = street_to_string g.street;
  current_bet = g.current_bet;
  active_player = g.active_player;
  button = g.button;
  event_sequence = g.event_sequence;
  betting_structure = betting_structure_to_string g.structure;
  small_blind = g.small_blind;
  big_blind = g.big_blind;
  small_bet = g.small_bet;
  big_bet = g.big_bet;
  max_raises_per_street = g.max_raises_per_street;
  raises_this_street = g.raises_this_street;
  updated_at = now;
}

-- ON CONFLICT (id) DO UPDATE: all columns but the table's id
abbrev pub upsert_game : GameRow → List GameRow → List GameRow
upsert_game row [] = row ∷ []
upsert_game row (r ∷ rows) =
    if r.id == row.id then record row { table_id = r.table_id } ∷ rows else r ∷ upsert_game row rows

-- the values of the inserts
abbrev pub player_row : ℕ → Player → PlayerRow
player_row h p = record {
  hand_id = h;
  player_id = p.id;
  stack = p.stack;
  status = player_status_to_string p.status;
  current_bet = p.current_bet;
  position = p.position;
  hole_card_1 = card_string p.hole_cards.0;
  hole_card_2 = card_string p.hole_cards.1;
}

abbrev pub card_row : ℕ → ℕ × Card → CardRow
card_row h (i, c) = record { hand_id = h; position = i; card = card_string c }

abbrev pub pot_row : ℕ → ℕ × Pot → PotRow
pot_row h (i, p) = record { hand_id = h; position = i; amount = p.amount }

abbrev pub eligible_row : ℕ → ℕ → PlayerId → EligibleRow
eligible_row h i k = record { hand_id = h; pot_position = i; player_id = k }

-- what `loadPlayers` makes of a row
unfoldable pub scan_player : PlayerRow → Outcome Player
scan_player r = Prelude.◌>>=◌ (parse_card r.hole_card_1) λ first.
    Prelude.◌>>=◌ (parse_card r.hole_card_2) λ second. ok (record {
      id = r.player_id;
      stack = r.stack;
      hole_cards = (first, second);
      status = player_status_from_string r.status;
      current_bet = r.current_bet;
      position = r.position;
    })

unfoldable pub scan_card : CardRow → Outcome Card
scan_card r = parse_card r.card

-- the state of `findGameState`, with what the other loads gave
abbrev pub game_state : GameRow → List Player → List Card → Deck → List Pot → GameState
game_state r players board deck pots = record {
  id = r.id;
  table_id = r.table_id;
  players = players;
  board = board;
  pots = pots;
  street = street_from_string r.street;
  current_bet = r.current_bet;
  active_player = r.active_player;
  button = r.button;
  event_sequence = r.event_sequence;
  config = record {
    structure = betting_structure_from_string r.betting_structure;
    small_blind = r.small_blind;
    big_blind = r.big_blind;
    small_bet = r.small_bet;
    big_bet = r.big_bet;
    max_raises_per_street = r.max_raises_per_street;
  };
  raises_this_street = r.raises_this_street;
  deck = deck;
}

module _ (env : Env) where
  -- `upsertGameState`
  unfoldable pub upsert_game_state : GameState → Sql (Unit {0})
  upsert_game_state g =
      insert_row env upsert_state (λ db. false) Error.statement_failed
        (λ db. record db { games = upsert_game (game_row env.now g) db.games })

  -- `replacePlayers`
  unfoldable pub replace_players : GameState → Sql (Unit {0})
  replace_players g = do
    deleted ← delete_where env delete_players players_table (player_of g.id)
    for_each
        (λ p.
          insert_into env insert_player players_table same_player (orphan g.id) (player_row g.id p))
        g.players

  -- `replaceBoard`
  unfoldable pub replace_board : GameState → Sql (Unit {0})
  replace_board g = do
    deleted ← delete_where env delete_board board_table (card_of g.id)
    for_each
        (λ c. insert_into env insert_board board_table same_card (orphan g.id) (card_row g.id c))
        (numbered 0 g.board)

  -- `replaceDeck`
  unfoldable pub replace_deck : GameState → Sql (Unit {0})
  replace_deck g = do
    deleted ← delete_where env delete_deck deck_table (card_of g.id)
    for_each (λ c. insert_into env insert_deck deck_table same_card (orphan g.id) (card_row g.id c))
        (numbered 0 g.deck.cards)

  -- `insertPot`
  unfoldable pub insert_one_pot : ℕ → ℕ × Pot → Sql (Unit {0})
  insert_one_pot h (i, p) = do
    insert_into env insert_pot pots_table same_pot (orphan h) (pot_row h (i, p))
    for_each
        (λ k.
          insert_into env insert_eligible eligible_table same_eligible (orphan h)
            (eligible_row h i k))
        p.eligible

  -- `deletePots` and `replacePots`
  unfoldable pub replace_pots : GameState → Sql (Unit {0})
  replace_pots g = do
    deleted ← delete_where env delete_eligible eligible_table (eligible_of g.id)
    deleted' ← delete_where env delete_pots pots_table (pot_of g.id)
    for_each (insert_one_pot g.id) (numbered 0 g.pots)

  -- what `GameStateRepo.Save` does in its transaction
  unfoldable pub save_tx : GameState → Sql (Unit {0})
  save_tx g = do
    upsert_game_state g
    replace_players g
    replace_board g
    replace_deck g
    replace_pots g

  -- `GameStateRepo.Save`
  unfoldable pub save : GameState → Sql (Unit {0})
  save g = with_tx env (save_tx g)

  -- `GameStateRepo.Delete`: the foreign keys delete the hand's other rows
  unfoldable pub delete : ℕ → Sql (Unit {0})
  delete h = do
    deleted ← exec env delete_state (λ db. (
      0,
      record {
        games = keep_if (λ r. not (is_game h r)) db.games;
        players = keep_if (λ r. not (player_of h r)) db.players;
        board = keep_if (λ r. not (card_of h r)) db.board;
        deck = keep_if (λ r. not (card_of h r)) db.deck;
        pots = keep_if (λ r. not (pot_of h r)) db.pots;
        eligible = keep_if (λ r. not (eligible_of h r)) db.eligible;
      },
    ))
    return (ok tt)

  -- `findGameState`
  unfoldable pub find_game_state : ℕ → Sql GameRow
  find_game_state h = do
    row ← query env find_state (λ db. find_row (is_game h) db.games)
    return (or_fail row Error.game_not_found)

  -- `loadPlayers`
  unfoldable pub load_all_players : ℕ → Sql (List Player)
  load_all_players h = do
    rows ←
        query env load_players
          (λ db. order_by (λ a b. leb a.position b.position) (keep_if (player_of h) db.players))
    return (scan_rows scan_player rows)

  -- `loadBoard`
  unfoldable pub load_whole_board : ℕ → Sql (List Card)
  load_whole_board h = do
    rows ←
        query env load_board
          (λ db. order_by (λ a b. leb a.position b.position) (keep_if (card_of h) db.board))
    return (scan_rows scan_card rows)

  -- `loadDeck`
  unfoldable pub load_whole_deck : ℕ → Sql Deck
  load_whole_deck h = do
    rows ←
        query env load_deck
          (λ db. order_by (λ a b. leb a.position b.position) (keep_if (card_of h) db.deck))
    cards ← return (scan_rows scan_card rows)
    return (ok (new_deck_from_cards cards))

-- Reading, with the order that the database has on the players' ids.
module _ (env : Env) (id_before : PlayerId → PlayerId → Bool) where
  -- `loadPotEligible`
  unfoldable pub load_pot_eligible : ℕ → ℕ → Sql (List PlayerId)
  load_pot_eligible h i = query env load_eligible (λ db. order_by id_before (
      Prelude.map (λ (r : EligibleRow). r.player_id)
        (keep_if (λ r. eligible_of h r && r.pot_position == i) db.eligible)))

  -- the loop of `loadPots`
  unfoldable pub load_each_pot : ℕ → List PotRow → Sql (List Pot)
  load_each_pot h [] = return (ok [])
  load_each_pot h (r ∷ rows) = do
    eligible ← load_pot_eligible h r.position
    rest ← load_each_pot h rows
    return (ok (record { amount = r.amount; eligible = eligible } ∷ rest))

  -- `loadPots`
  unfoldable pub load_all_pots : ℕ → Sql (List Pot)
  load_all_pots h = do
    rows ←
        query env load_pots
          (λ db. order_by (λ a b. leb a.position b.position) (keep_if (pot_of h) db.pots))
    load_each_pot h rows

  -- `GameStateRepo.FindByID`
  unfoldable pub find_by_id : ℕ → Sql GameState
  find_by_id h = do
    row ← find_game_state env h
    players ← load_all_players env h
    board ← load_whole_board env h
    deck ← load_whole_deck env h
    pots ← load_all_pots h
    return (ok (game_state row players board deck pots))

-- ===== src/Storage/Saved.antt =====
-- The tables after `GameStateRepo.Save` of services/engine.
pub mod Keys
pub mod Parts
pub mod Whole
use holdem.Prelude.{
  ◌≡◌, refl, sym, ap, ◌∙◌, ◌⊎◌, inl, inr, ℕ, suc, ◌≤◌, ◌<◌, Bool, true, false, ◌&&◌, not,
  Bool-cases, ◌==◌, if◌then◌else◌, Option, none, some, List, [], ◌∷◌, ◌++◌, map, keep_if, All,
  All-append, Outcome, ok, err, Error, arith,
}
use holdem.Cards.{Card, is_valid}
use holdem.Game.{PlayerId, Player, Pot, GameState}
use holdem.Database.{IsHealthy, exists_row, find_row, return, with_tx, ◌>>=◌}
use holdem.Database.Agrees.{
  Agrees, calmed, calmed-IsHealthy, >>=-Agrees, for_each-Agrees, insert_row-Agrees,
  insert_into-Agrees, delete_where-Agrees, with_tx-Agrees,
}
use holdem.Database.Selected.{
  NoRow, Apart, map-All, All-imp, everywhere, exists_row-NoRow, keep_if-deleted,
}
use holdem.Database.Tables.{IsTable, for_each, numbered, insert_into, delete_where}
use holdem.Database.Tables.Runs.{
  append_assoc, append_nil, >>=-run, insert_row-run, with_tx-run, delete_where-run, insert_each-run,
  replace_each-run,
}
use holdem.Storage.{
  GameRow, PotRow, EligibleRow, Db, Env, players_table, board_table, deck_table, pots_table,
  eligible_table, players-IsTable, board-IsTable, deck-IsTable, pots-IsTable, eligible-IsTable,
  same_player, same_card, same_pot, same_eligible, insert_player, insert_board, insert_deck,
  CardRow,
}
use holdem.Storage.Repository.{
  is_game, player_of, card_of, pot_of, eligible_of, orphan, game_row, upsert_game, player_row,
  card_row, pot_row, eligible_row, upsert_game_state, replace_players, replace_board, replace_deck,
  insert_one_pot, replace_pots, save_tx, save,
}

-- the rows of the pots' players
abbrev pub eligible_rows : ℕ → List (ℕ × Pot) → List EligibleRow
eligible_rows h [] = []
eligible_rows h ((i, p) ∷ rest) = map (eligible_row h i) p.eligible ++ eligible_rows h rest

abbrev pub others_and {ℓ} : {R : Type ℓ} → (R → Bool) → List R → List R → List R
others_and test rows more = keep_if (λ r. not (test r)) rows ++ more

-- the tables with the hand's rows in place of those that were there
abbrev pub saved_db : ℕ → GameState → Db → Db
saved_db now g db = record {
  games = upsert_game (game_row now g) db.games;
  players = others_and (player_of g.id) db.players (map (player_row g.id) g.players);
  board = others_and (card_of g.id) db.board (map (card_row g.id) (numbered 0 g.board));
  deck = others_and (card_of g.id) db.deck (map (card_row g.id) (numbered 0 g.deck.cards));
  pots = others_and (pot_of g.id) db.pots (map (pot_row g.id) (numbered 0 g.pots));
  eligible = others_and (eligible_of g.id) db.eligible (eligible_rows g.id (numbered 0 g.pots));
}

-- No player twice at the table, and no player twice in a pot.
pub record HasDistinct (g : GameState) : Type 0 where
  pub distinct_players : Apart (λ (p o : Player). o.id == p.id) g.players
  pub distinct_eligible : All (λ (p : Pot). Apart (λ a b. b == a) p.eligible) g.pots

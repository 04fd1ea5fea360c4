-- ===== src/Storage/Saved/Parts.antt =====
-- The parts of `GameStateRepo.Save` of services/engine where no statement fails.
use holdem.Prelude.{
  ◌≡◌, refl, ◌∙◌, ℕ, suc, ◌≤◌, true, ◌&&◌, ◌==◌, List, [], ◌∷◌, ◌++◌, map, All, All-append, ok,
  arith,
}
use holdem.Game.{Player, Pot, GameState}
use holdem.Database.{IsHealthy, exists_row, return}
use holdem.Database.Selected.{
  NoRow, Apart, map-All, All-imp, everywhere, exists_row-NoRow, keep_if-deleted,
}
use holdem.Database.Tables.{for_each, numbered, insert_into}
use holdem.Database.Tables.Runs.{
  append_assoc, append_nil, >>=-run, insert_row-run, delete_where-run, insert_each-run,
  replace_each-run,
}
use holdem.Storage.{
  PotRow, EligibleRow, Db, Env, players_table, board_table, deck_table, pots_table, eligible_table,
  players-IsTable, board-IsTable, deck-IsTable, eligible-IsTable, same_player, same_card, same_pot,
  same_eligible,
}
use holdem.Storage.Repository.{
  is_game, player_of, card_of, pot_of, eligible_of, orphan, game_row, upsert_game, player_row,
  card_row, pot_row, eligible_row, upsert_game_state, replace_players, replace_board, replace_deck,
  insert_one_pot, replace_pots,
}
use holdem.Storage.Saved.Keys.{eq_refl, Apart-map, numbered-Apart, other_number, no_hand, neither}
use holdem.Storage.Saved.{eligible_rows, others_and, HasDistinct}

module _ (env : Env) (healthy : IsHealthy env) (g : GameState) where
  pub upsert_game_state-run :
      (db : Db)
      → upsert_game_state env g db
        ≡ (ok tt, record db { games = upsert_game (game_row env.now g) db.games })
  unfolding upsert_game_state
  upsert_game_state-run db = insert_row-run env healthy _ _ _ _ db refl

  module _ (db : Db) (parent : exists_row (is_game g.id) db.games ≡ true) where
    pub replace_players-run :
        HasDistinct g
        → replace_players env g db ≡ (
          ok tt,
          record db {
            players = others_and (player_of g.id) db.players (map (player_row g.id) g.players);
          },
        )
    unfolding replace_players
    replace_players-run distinct =
        replace_each-run players_table players-IsTable env _ same_player (orphan g.id)
          (player_row g.id) healthy _ (player_of g.id) g.players db (λ rs. rw parent refl)
          (λ p o other. no_hand (o.hand_id == g.id) (o.player_id == p.id) other)
          (Apart-map (λ (p o : Player). o.id == p.id) same_player (player_row g.id)
            (λ p o apart. rw (eq_refl g.id, apart) refl) g.players distinct.distinct_players)

    pub replace_board-run : replace_board env g db ≡ (
      ok tt,
      record db {
        board = others_and (card_of g.id) db.board (map (card_row g.id) (numbered 0 g.board));
      },
    )
    unfolding replace_board
    replace_board-run =
        replace_each-run board_table board-IsTable env _ same_card (orphan g.id) (card_row g.id)
          healthy _ (card_of g.id) (numbered 0 g.board) db (λ rs. rw parent refl)
          (λ c o other. no_hand (o.hand_id == g.id) (o.position == c.0) other)
          (numbered-Apart same_card (card_row g.id) (λ i j a b. other_number g.id i j) 0 g.board)

    pub replace_deck-run : replace_deck env g db ≡ (
      ok tt,
      record db {
        deck = others_and (card_of g.id) db.deck (map (card_row g.id) (numbered 0 g.deck.cards));
      },
    )
    unfolding replace_deck
    replace_deck-run =
        replace_each-run deck_table deck-IsTable env _ same_card (orphan g.id) (card_row g.id)
          healthy _ (card_of g.id) (numbered 0 g.deck.cards) db (λ rs. rw parent refl)
          (λ c o other. no_hand (o.hand_id == g.id) (o.position == c.0) other)
          (numbered-Apart same_card (card_row g.id) (λ i j a b. other_number g.id i j) 0
            g.deck.cards)

  insert_one_pot-run :
      (i : ℕ) (p : Pot) (db : Db)
      → exists_row (is_game g.id) db.games ≡ true
      → NoRow (λ (o : PotRow). o.hand_id == g.id && o.position == i) db.pots
      → NoRow (λ (o : EligibleRow). o.hand_id == g.id && o.pot_position == i) db.eligible
      → Apart (λ a b. b == a) p.eligible
      → insert_one_pot env g.id (i, p) db ≡ (
        ok tt,
        record db {
          pots = db.pots ++ pot_row g.id (i, p) ∷ [];
          eligible = db.eligible ++ map (eligible_row g.id i) p.eligible;
        },
      )
  unfolding insert_one_pot insert_into
  insert_one_pot-run i p db parent free free' apart =
      let with_pot : Db = record db { pots = db.pots ++ pot_row g.id (i, p) ∷ [] } in
      >>=-run _ _ db with_pot tt (
        insert_row-run env healthy _ _ _ _ db
          (rw (exists_row-NoRow (same_pot (pot_row g.id (i, p))) db.pots free, parent) refl))
      ∙ insert_each-run eligible_table eligible-IsTable env _ same_eligible (orphan g.id)
          (eligible_row g.id i) healthy p.eligible with_pot (λ rs. rw parent refl)
          (everywhere _
            (λ k.
              All-imp _ _
                (λ o h. neither (o.hand_id == g.id) (o.pot_position == i) (o.player_id == k) h)
                db.eligible free')
            p.eligible)
          (Apart-map (λ a b. b == a) same_eligible (eligible_row g.id i)
            (λ a b other. rw (eq_refl g.id, eq_refl i, other) refl) p.eligible apart)

  -- the pots from an index on, on tables that have none of them
  insert_pots-run :
      (i : ℕ) (xs : List Pot) (db : Db)
      → exists_row (is_game g.id) db.games ≡ true
      → ((k : ℕ) → i ≤ k → NoRow (λ (o : PotRow). o.hand_id == g.id && o.position == k) db.pots)
      → ((k : ℕ)
          → i ≤ k
          → NoRow (λ (o : EligibleRow). o.hand_id == g.id && o.pot_position == k) db.eligible)
      → All (λ (p : Pot). Apart (λ a b. b == a) p.eligible) xs
      → for_each (insert_one_pot env g.id) (numbered i xs) db ≡ (
        ok tt,
        record db {
          pots = db.pots ++ map (pot_row g.id) (numbered i xs);
          eligible = db.eligible ++ eligible_rows g.id (numbered i xs);
        },
      )
  unfolding for_each return
  insert_pots-run i [] db parent free free' distinct =
      rw (append_nil db.pots, append_nil db.eligible) refl
  insert_pots-run i (p ∷ ps) db parent free free' (apart, later) =
      let with_pot : Db = record db { pots = db.pots ++ pot_row g.id (i, p) ∷ [] } in
      let with_players : Db = record with_pot {
        eligible = db.eligible ++ map (eligible_row g.id i) p.eligible;
      } in
      let rest =
        insert_pots-run (suc i) ps with_players parent
          (λ k above.
            All-append _ db.pots (pot_row g.id (i, p) ∷ []) (free k (omega arith))
              (other_number g.id i k above, tt))
          (λ k above.
            All-append _ db.eligible (map (eligible_row g.id i) p.eligible) (free' k (omega arith))
              (map-All _ (eligible_row g.id i) (λ x. other_number g.id i k above) p.eligible))
          later in
      >>=-run (insert_one_pot env g.id (i, p)) _ db with_players tt
        (insert_one_pot-run i p db parent (free i (omega arith)) (free' i (omega arith)) apart)
      ∙ (rest
          ∙ rw
              (
                append_assoc db.pots (pot_row g.id (i, p) ∷ [])
                    (map (pot_row g.id) (numbered (suc i) ps)),
                append_assoc db.eligible (map (eligible_row g.id i) p.eligible)
                    (eligible_rows g.id (numbered (suc i) ps)),
              )
              refl)

  pub replace_pots-run :
      (db : Db)
      → exists_row (is_game g.id) db.games ≡ true
      → HasDistinct g
      → replace_pots env g db ≡ (
        ok tt,
        record db {
          pots = others_and (pot_of g.id) db.pots (map (pot_row g.id) (numbered 0 g.pots));
          eligible =
              others_and (eligible_of g.id) db.eligible (eligible_rows g.id (numbered 0 g.pots));
        },
      )
  unfolding replace_pots
  replace_pots-run db parent distinct =
      let no_eligible = keep_if-deleted (eligible_of g.id) db.eligible in
      let no_pots = keep_if-deleted (pot_of g.id) db.pots in
      >>=-run _ _ db _ _ (delete_where-run env healthy _ eligible_table (eligible_of g.id) db)
      ∙ (>>=-run _ _ _ _ _ (delete_where-run env healthy _ pots_table (pot_of g.id) _)
          ∙ insert_pots-run 0 g.pots _ parent
              (λ k above.
                All-imp _ _ (λ (o : PotRow). no_hand (o.hand_id == g.id) (o.position == k)) _
                  no_pots)
              (λ k above.
                All-imp _ _ (λ (o : EligibleRow). no_hand (o.hand_id == g.id) (o.pot_position == k))
                  _ no_eligible)
              distinct.distinct_eligible)

-- ===== src/Storage/RoundTrip.antt =====
-- `GameStateRepo.FindByID` of services/engine on the tables that `Save` leaves.
pub mod Rows
use holdem.Prelude.{
  ◌≡◌, refl, sym, ap, ◌∙◌, inl, inr, ℕ, suc, ◌≤◌, ◌<◌, Bool, true, false, ◌&&◌, not, leb,
  Bool-cases, ◌==◌, if◌then◌else◌, Option, none, some, List, [], ◌∷◌, ◌++◌, map, keep_if, All,
  All-append, Outcome, ok, arith,
}
use holdem.Prelude
use holdem.Cards.{Card, is_valid, card_string}
use holdem.Cards.Deck.{Deck, new_deck_from_cards}
use holdem.Cards.Parser.{parse_card}
use holdem.Cards.Parser.RoundTrip.{parse-card_string}
use holdem.Game.{PlayerId, Player, Pot, GameState, BettingConfig, fixed_limit}
use holdem.Database.{IsHealthy, find_row, return, order_by, ◌>>=◌}
use holdem.Database.Selected.{
  NoRow, All-imp, everywhere, map-All, keep_if-NoRow, keep_if_every, keep_if-append,
  keep_if-replaced, keep_if-deleted, Ascends, order_by-Ascends, order_by-map, order_by-All,
  order_by-numbered, scan_rows-map,
}
use holdem.Database.Tables.{numbered, scan_rows}
use holdem.Database.Tables.Runs.{append_assoc, append_nil, >>=-run, query-run}
use holdem.Storage.{GameRow, PlayerRow, CardRow, PotRow, EligibleRow, Db, Env}
use holdem.Storage.Mappers.{
  street_from_string-street_to_string, player_status_from_string-player_status_to_string,
  betting_structure_from_string_lem,
}
use holdem.Storage.Repository.{
  is_game, player_of, card_of, pot_of, eligible_of, game_row, upsert_game, player_row, card_row,
  pot_row, eligible_row, scan_player, scan_card, game_state, find_game_state, load_all_players,
  load_whole_board, load_whole_deck, load_pot_eligible, load_each_pot, load_all_pots, find_by_id,
  save,
}
use holdem.Storage.Saved.{eligible_rows, others_and, saved_db, HasDistinct}
use holdem.Storage.Saved.Keys.{eq_refl, other_number, no_hand}
use holdem.Storage.Saved.Whole.{save-run}
use holdem.Storage.RoundTrip.Rows.{
  by_position, table_of, as_stored, find_row-upsert_game, scan_player-player_row, map-id,
  cards_read, load_each_pot-run, HasCards,
}

-- What the loads give on the tables after a save.
module _ (env : Env) (healthy : IsHealthy env) (id_before : PlayerId → PlayerId → Bool) (now : ℕ)
    (g : GameState) (db : Db) where
  find_game_state-run :
      find_game_state env g.id (saved_db now g db)
      ≡ (ok (record (game_row now g) { table_id = table_of g db.games }), saved_db now g db)
  unfolding find_game_state return
  find_game_state-run =
      >>=-run _ _ (saved_db now g db) (saved_db now g db) _ (query-run env healthy _ _ _)
      ∙ rw (find_row-upsert_game now g db.games) refl

  load_all_players-run :
      All
        (λ (p : Player). (is_valid p.hole_cards.0 ≡ true) × (is_valid p.hole_cards.1 ≡ true))
        g.players
      → load_all_players env g.id (saved_db now g db)
        ≡ (ok (order_by by_position g.players), saved_db now g db)
  unfolding load_all_players return
  load_all_players-run valid =
      >>=-run _ _ (saved_db now g db) (saved_db now g db) _ (query-run env healthy _ _ _)
      ∙ rw
          (
            keep_if-replaced (player_of g.id) db.players (map (player_row g.id) g.players)
                (map-All _ (player_row g.id) (λ p. eq_refl g.id) g.players),
            order_by-map by_position (λ a b. leb a.position b.position) (player_row g.id)
                (λ p o. refl) g.players,
            scan_rows-map scan_player (player_row g.id) (λ p. p) (order_by by_position g.players)
                (order_by-All _ by_position g.players
                  (All-imp _ _ (scan_player-player_row g.id) g.players valid)),
            map-id (order_by by_position g.players),
          )
          refl

  load_whole_board-run :
      All (λ c. is_valid c ≡ true) g.board
      → load_whole_board env g.id (saved_db now g db) ≡ (ok g.board, saved_db now g db)
  unfolding load_whole_board return
  load_whole_board-run valid =
      >>=-run _ _ (saved_db now g db) (saved_db now g db) _ (query-run env healthy _ _ _)
      ∙ ap (λ o. (o, saved_db now g db)) (cards_read g.id db.board g.board valid)

  load_whole_deck-run :
      All (λ c. is_valid c ≡ true) g.deck.cards
      → load_whole_deck env g.id (saved_db now g db)
        ≡ (ok (new_deck_from_cards g.deck.cards), saved_db now g db)
  unfolding load_whole_deck return
  load_whole_deck-run valid =
      >>=-run _ _ (saved_db now g db) (saved_db now g db) _ (query-run env healthy _ _ _)
      ∙ >>=-run _ _ _ (saved_db now g db) g.deck.cards
          (ap (λ o. (o, saved_db now g db)) (cards_read g.id db.deck g.deck.cards valid))

  load_all_pots-run : load_all_pots env id_before g.id (saved_db now g db) ≡ (
    ok (map (λ (p : Pot). record p { eligible = order_by id_before p.eligible }) g.pots),
    saved_db now g db,
  )
  unfolding load_all_pots
  load_all_pots-run =
      >>=-run _ _ (saved_db now g db) (saved_db now g db) _ (query-run env healthy _ _ _)
      ∙ rw
          (
            keep_if-replaced (pot_of g.id) db.pots (map (pot_row g.id) (numbered 0 g.pots))
                (map-All _ (pot_row g.id) (λ p. eq_refl g.id) (numbered 0 g.pots)),
            order_by-numbered (λ (a b : PotRow). leb a.position b.position) (pot_row g.id)
                (λ i j a b. refl) 0 g.pots,
          )
          (load_each_pot-run env healthy id_before g.id 0 g.pots (saved_db now g db)
            (keep_if (λ r. not (eligible_of g.id r)) db.eligible) refl
            (λ k above.
              All-imp _ _ (λ (o : EligibleRow). no_hand (o.hand_id == g.id) (o.pot_position == k)) _
                (keep_if-deleted (eligible_of g.id) db.eligible)))

  find_by_id-run :
      HasCards g
      → find_by_id env id_before g.id (saved_db now g db)
        ≡ (ok (as_stored id_before db.games g), saved_db now g db)
  unfolding find_by_id return
  find_by_id-run valid =
      >>=-run _ _ _ (saved_db now g db) _ find_game_state-run
      ∙ (>>=-run _ _ _ (saved_db now g db) _ (load_all_players-run valid.hole_valid)
          ∙ (>>=-run _ _ _ (saved_db now g db) _ (load_whole_board-run valid.board_valid)
              ∙ (>>=-run _ _ _ (saved_db now g db) _ (load_whole_deck-run valid.deck_valid)
                  ∙ (>>=-run _ _ _ (saved_db now g db) _ load_all_pots-run
                      ∙ rw
                          (
                            street_from_string-street_to_string g.street,
                            betting_structure_from_string_lem _,
                          )
                          refl))))

-- A hand that was saved where no statement fails is found, as the database has it.
pub find_by_id-save :
    (env env' : Env) (id_before : PlayerId → PlayerId → Bool) (g : GameState) (db : Db)
    → IsHealthy env
    → IsHealthy env'
    → HasDistinct g
    → HasCards g
    → ((save env g db).0 ≡ ok tt)
      × ((find_by_id env' id_before g.id (save env g db).1).0 ≡ ok (as_stored id_before db.games g))
find_by_id-save env env' id_before g db healthy healthy' distinct valid =
    let saves = save-run env healthy g db distinct in
    (
      ap (λ r. r.0) saves,
      ap (λ r. (find_by_id env' id_before g.id r.1).0) saves
          ∙ ap (λ r. r.0) (find_by_id-run env' healthy' id_before env.now g db valid),
    )

-- the orders that the database gives back
pub record IsInOrder (id_before : PlayerId → PlayerId → Bool) (g : GameState) : Type 0 where
  pub players_ascend : Ascends by_position g.players
  pub eligible_ascend : All (λ (p : Pot). Ascends id_before p.eligible) g.pots

sorted_pots :
    (id_before : PlayerId → PlayerId → Bool) (ps : List Pot)
    → All (λ (p : Pot). Ascends id_before p.eligible) ps
    → map (λ (p : Pot). record p { eligible = order_by id_before p.eligible }) ps ≡ ps
sorted_pots id_before [] a = refl
sorted_pots id_before (p ∷ ps) (ascends, a) =
    rw (order_by-Ascends id_before p.eligible ascends, sorted_pots id_before ps a) refl

-- A fixed-limit hand with a restored deck, whose players are in the order of their positions and whose pots' players are
-- in that of their ids, is found as it was saved.
pub find_by_id-save_same :
    (env env' : Env) (id_before : PlayerId → PlayerId → Bool) (g : GameState) (db : Db)
    → IsHealthy env
    → IsHealthy env'
    → HasDistinct g
    → HasCards g
    → IsInOrder id_before g
    → g.structure ≡ fixed_limit
    → g.deck.shuffle ≡ none
    → table_of g db.games ≡ g.table_id
    → (find_by_id env' id_before g.id (save env g db).1).0 ≡ ok g
unfolding new_deck_from_cards
find_by_id-save_same env env' id_before g db healthy healthy' distinct valid order fixed plain
      same =
    (find_by_id-save env env' id_before g db healthy healthy' distinct valid).1
    ∙ rw
        (
          order_by-Ascends by_position g.players order.players_ascend,
          sorted_pots id_before g.pots order.eligible_ascend,
          same,
          fixed,
          plain,
        )
        refl

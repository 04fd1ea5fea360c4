-- ===== src/Storage/Saved/Whole.antt =====
-- `GameStateRepo.Save` of services/engine as a whole.
use holdem.Prelude.{◌≡◌, ◌∙◌, ◌⊎◌, ◌≢◌, inl, inr, ok}
use holdem.Game.{GameState}
use holdem.Database.{IsHealthy}
use holdem.Database.Agrees.{
  Agrees, calmed, calmed-IsHealthy, >>=-Agrees, for_each-Agrees, insert_row-Agrees,
  insert_into-Agrees, delete_where-Agrees, with_tx-Agrees,
}
use holdem.Database.Tables.{numbered}
use holdem.Database.Tables.Runs.{>>=-run, with_tx-run}
use holdem.Storage.{Db, Env}
use holdem.Storage.Repository.{
  game_row, upsert_game_state, replace_players, replace_board, replace_deck, insert_one_pot,
  replace_pots, save_tx, save,
}
use holdem.Storage.Saved.Keys.{exists_row-upsert_game}
use holdem.Storage.Saved.Parts.{
  upsert_game_state-run, replace_players-run, replace_board-run, replace_deck-run, replace_pots-run,
}
use holdem.Database.Inversion.{with_tx-undone}
use holdem.Storage.Saved.{saved_db, HasDistinct}

module _ (env : Env) (healthy : IsHealthy env) (g : GameState) where
  -- Where no statement fails, a hand without a player twice is saved.
  pub save-run : (db : Db) → HasDistinct g → save env g db ≡ (ok tt, saved_db env.now g db)
  unfolding save save_tx
  save-run db distinct =
      let parent = exists_row-upsert_game (game_row env.now g) db.games in
      with_tx-run env healthy _ db _ tt (
        >>=-run _ _ db _ tt (upsert_game_state-run env healthy g db)
        ∙ (>>=-run _ _ _ _ tt (replace_players-run env healthy g _ parent distinct)
            ∙ (>>=-run _ _ _ _ tt (replace_board-run env healthy g _ parent)
                ∙ (>>=-run _ _ _ _ tt (replace_deck-run env healthy g _ parent)
                    ∙ replace_pots-run env healthy g _ parent distinct))))

-- `Save` in two surroundings
save-Agrees : (env : Env) (g : GameState) → Agrees (save env g) (save (calmed env) g)
unfolding save save_tx upsert_game_state replace_players replace_board replace_deck replace_pots
    insert_one_pot
save-Agrees env g = with_tx-Agrees env _ _ (
    >>=-Agrees _ _ _ _ (insert_row-Agrees env _ _ _ _) λ u.
      >>=-Agrees _ _ _ _
        (>>=-Agrees _ _ _ _ (delete_where-Agrees env _ _ _)
          λ n. for_each-Agrees _ _ (λ p. insert_into-Agrees env _ _ _ _ _) g.players)
        λ u.
          >>=-Agrees _ _ _ _
            (>>=-Agrees _ _ _ _ (delete_where-Agrees env _ _ _)
              λ n. for_each-Agrees _ _ (λ c. insert_into-Agrees env _ _ _ _ _) (numbered 0 g.board))
            λ u.
              >>=-Agrees _ _ _ _
                (>>=-Agrees _ _ _ _ (delete_where-Agrees env _ _ _) λ n.
                  for_each-Agrees _ _ (λ c. insert_into-Agrees env _ _ _ _ _)
                    (numbered 0 g.deck.cards))
                λ u. >>=-Agrees _ _ _ _ (delete_where-Agrees env _ _ _) λ n.
                  >>=-Agrees _ _ _ _ (delete_where-Agrees env _ _ _) λ n'.
                    for_each-Agrees _ _
                      (λ x. >>=-Agrees _ _ _ _ (insert_into-Agrees env _ _ _ _ _) λ u.
                        for_each-Agrees _ _ (λ k. insert_into-Agrees env _ _ _ _ _) x.1.eligible)
                      (numbered 0 g.pots))

-- Whichever statements fail, `Save` of a hand without a player twice replaces all of the hand's rows or leaves the
-- tables as they were, and its result says which.
pub save-saved_db :
    (env : Env) (g : GameState) (db : Db)
    → HasDistinct g
    → (save env g db ≡ (ok tt, saved_db env.now g db))
      ⊎ (((save env g db).0 ≢ ok tt) × ((save env g db).1 ≡ db))
unfolding save
save-saved_db env g db distinct = elim (with_tx-undone env (save_tx env g) db) [
  | inl goes ↦
      inl
        (save-Agrees env g db tt goes ∙ save-run (calmed env) (calmed-IsHealthy env) g db distinct)
  | inr undone ↦ inr undone
]

-- ===== src/Storage/Tests.antt =====
-- A hand with a side pot, saved and found.
use holdem.Prelude.{arith, ◌≡◌, refl, leb, false, List, [], ◌∷◌, ok, err, Error, ◌≢◌, ◌⊎◌}
use holdem.Cards.{is_valid}
use holdem.Game.{GameState, Pot, PlayerId, flop}
use holdem.Game.Samples.{table_at, three_players, card}
use holdem.Database.{IsHealthy, place_row, order_by}
use holdem.Storage.{Env, empty_db}
use holdem.Storage.Repository.{save, find_by_id, delete}
use holdem.Storage.Saved.{saved_db, HasDistinct}
use holdem.Storage.Saved.Whole.{save-saved_db}
use holdem.Storage.RoundTrip.{find_by_id-save}
use holdem.Storage.RoundTrip.Rows.{HasCards, as_stored}
use holdem.Storage.Others.{find_by_id-save_other, find_by_id-delete}

abbrev working : Env
working = record {
  fails = λ s db. false;
  begin_fails = λ db. false;
  commit_fails = λ db. false;
  now = 50;
  new_id = λ p db. [];
}

working-IsHealthy : IsHealthy working
working-IsHealthy = record { runs = λ s db. refl; begins = λ db. refl; commits = λ db. refl }

abbrev on_flop : List Pot → GameState
on_flop pots = table_at flop three_players (card 2 0 ∷ card 9 1 ∷ card 14 3 ∷ []) pots 0

abbrev pot : List PlayerId → Pot
pot ids = record { amount = 30; eligible = ids }

-- the second pot's players are not in the order of their ids
abbrev unordered : GameState
unordered = on_flop (pot (1 ∷ 2 ∷ 3 ∷ []) ∷ pot (3 ∷ 2 ∷ []) ∷ [])

abbrev ordered : GameState
ordered = on_flop (pot (1 ∷ 2 ∷ 3 ∷ []) ∷ pot (2 ∷ 3 ∷ []) ∷ [])

unordered-HasDistinct : HasDistinct unordered
unordered-HasDistinct = record {
  distinct_players = ((refl, (refl, tt)), ((refl, tt), (tt, tt)));
  distinct_eligible = (((refl, (refl, tt)), ((refl, tt), (tt, tt))), (((refl, tt), (tt, tt)), tt));
}

ordered-HasDistinct : HasDistinct ordered
ordered-HasDistinct = record {
  distinct_players = ((refl, (refl, tt)), ((refl, tt), (tt, tt)));
  distinct_eligible = (((refl, (refl, tt)), ((refl, tt), (tt, tt))), (((refl, tt), (tt, tt)), tt));
}

flop-HasCards : (pots : List Pot) → HasCards (on_flop pots)
unfolding is_valid
flop-HasCards pots = record {
  hole_valid = ((refl, refl), ((refl, refl), ((refl, refl), tt)));
  board_valid = (refl, (refl, (refl, tt)));
  deck_valid = (refl, (refl, (refl, (refl, (refl, (refl, (refl, tt)))))));
}

save-saved_db_example :
    (save working unordered empty_db ≡ (ok tt, saved_db 50 unordered empty_db))
    ⊎ (((save working unordered empty_db).0 ≢ ok tt)
        × ((save working unordered empty_db).1 ≡ empty_db))
save-saved_db_example = save-saved_db working unordered empty_db unordered-HasDistinct

find_by_id-save_example :
    ((save working unordered empty_db).0 ≡ ok tt)
    × ((find_by_id working leb 100 (save working unordered empty_db).1).0
        ≡ ok (as_stored leb [] unordered))
find_by_id-save_example =
    find_by_id-save working working leb unordered empty_db working-IsHealthy working-IsHealthy
      unordered-HasDistinct (flop-HasCards unordered.pots)

-- the second pot's players have changed places
reordered : (as_stored leb [] unordered).pots ≡ pot (1 ∷ 2 ∷ 3 ∷ []) ∷ pot (2 ∷ 3 ∷ []) ∷ []
unfolding order_by place_row
reordered = refl

find_by_id-save_other_example :
    (find_by_id working leb 101 (save working ordered empty_db).1).0
    ≡ (find_by_id working leb 101 empty_db).0
find_by_id-save_other_example =
    find_by_id-save_other working working leb ordered 101 empty_db working-IsHealthy
      ordered-HasDistinct (λ e. omega (arith, e))

find_by_id-delete_example :
    (find_by_id working leb 100 (delete working 100 (saved_db 50 ordered empty_db)).1).0
    ≡ err Error.game_not_found
find_by_id-delete_example =
    find_by_id-delete working working leb 100 100 (saved_db 50 ordered empty_db) working-IsHealthy
      working-IsHealthy

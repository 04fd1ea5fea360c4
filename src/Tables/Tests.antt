-- ===== src/Tables/Tests.antt =====
-- The button at a table of three seats, one of them free.
use holdem.Prelude.{◌≢◌, List, [], ◌∷◌}
use holdem.Tables.{Seat, Table, idle, playable_players}

abbrev pub three_seats : List Seat
three_seats =
    record { index = 0; player_id = 1; stack = 100 }
    ∷ record { index = 1; player_id = 0; stack = 0 }
    ∷ record { index = 2; player_id = 3; stack = 60 }
    ∷ []

abbrev pub small_table : Table
small_table = record {
  id = 7;
  name = [];
  seat_count = 3;
  status = idle;
  small_blind = 5;
  big_blind = 10;
  button = 0;
  active_hand_id = 0;
  seats = three_seats;
}

someone_plays : playable_players small_table ≢ []
someone_plays e = cc

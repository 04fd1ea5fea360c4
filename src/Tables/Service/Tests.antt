-- ===== src/Tables/Service/Tests.antt =====
-- A player joins, and another one leaves.
use holdem.Prelude.{◌+◌, ◌≡◌, refl, true, false, inl, inr, none, some, [], ◌∷◌, ok}
use holdem.Tables.{Table, idle, in_hand, can_auto_start}
use holdem.Tables.World.{World, HandState}
use holdem.Tables.Service.{
  create_table, free_seats, join_table, leave_table, auto_start, start_hand,
}
use holdem.Tables.Service.Money.{stacks_at, Left, join_table_total, leave_table_total}

abbrev waiting : Table
waiting = record {
  id = 7;
  name = [];
  seat_count = 2;
  status = idle;
  small_blind = 5;
  big_blind = 10;
  button = 0;
  active_hand_id = 0;
  seats =
      record { index = 0; player_id = 1; stack = 100 }
      ∷ record { index = 1; player_id = 0; stack = 0 }
      ∷ [];
}

abbrev hand : HandState
hand = record { id = 40; at_showdown = false; players = (1, 95) ∷ (2, 40) ∷ [] }

-- a world in which every call succeeds
abbrev calm : World
calm = record {
  clock = 0;
  find_table = λ k. ok waiting;
  create_fails = λ t. none;
  save_fails = λ t. none;
  has_wallet = true;
  debit_fails = λ player table n key. none;
  credit_fails = λ player table n key. none;
  start_hand = λ request. ok (some hand);
  apply_action = λ request. ok (some hand);
}

abbrev playing : Table
playing = record waiting {
  status = in_hand;
  active_hand_id = 40;
  seats =
      record { index = 0; player_id = 1; stack = 100 }
      ∷ record { index = 1; player_id = 2; stack = 50 }
      ∷ [];
}

joins : (join_table calm 7 2 1 50).0 ≡ ok (playing, some hand)
unfolding join_table auto_start start_hand can_auto_start
joins = refl

join_table_total_example : stacks_at playing ≡ stacks_at waiting + 50
join_table_total_example =
    join_table_total calm 7 2 1 50 waiting refl (inl refl, (inr refl, tt)) joins

abbrev vacated : Table
vacated = record waiting {
  seats =
      record { index = 0; player_id = 0; stack = 0 }
      ∷ record { index = 1; player_id = 0; stack = 0 }
      ∷ [];
}

leaves : (leave_table calm 7 1).0 ≡ ok (vacated, none)
unfolding leave_table
leaves = refl

leave_table_total_example : Left 1 waiting (vacated, none) (leave_table calm 7 1).1
leave_table_total_example = leave_table_total calm 7 1 waiting refl refl leaves

created_well :
    (create_table calm [] 2 5 10).0
    ≡ ok (record waiting {
      id = 0;
      seats =
          record { index = 0; player_id = 0; stack = 0 }
          ∷ record { index = 1; player_id = 0; stack = 0 }
          ∷ [];
    })
unfolding create_table free_seats
created_well = refl

-- ===== src/Tables/Service.antt =====
-- services/table-manager/internal/application/service.go: the operations on tables. `ListTables` and `GetTable`
-- only pass on what the repository and the engine answer.
mod Tests
pub mod Money
pub mod Again
pub mod Opened
use holdem.Prelude.{
  ℕ, zero, suc, ◌+◌, ◌*◌, Bool, true, false, ◌||◌, not, ltb, leb, ◌==◌, if◌then◌else◌, Option, none,
  some, List, [], ◌∷◌, length, map, get_elem?, set, Outcome, ok, err, panic, Error, or_fail,
  or_panic, fail_if,
}
use holdem.Cards.{Bytes}
use holdem.Game.{ActionType}
use holdem.Tables.{
  Seat, Table, TableStatus, idle, in_hand, occupied, playable, playable_players, seat_by_player_id,
  seat_by_index, can_auto_start, normalized_button_seat, advance_button,
}
use holdem.Tables.World.{
  HandState, StartHandRequest, ApplyActionRequest, MoneyKey, Effect, created, saved, debited,
  credited, hand_started, action_applied, World, Job, pure, send, ask, ◌>>=◌, ◌>>◌,
}

abbrev pub free_seat : ℕ → Seat
free_seat i = record { index = i; player_id = 0; stack = 0 }

-- the seats of a new table, with the rounds that are left
pub free_seats : ℕ → ℕ → List Seat
free_seats zero i = []
free_seats (suc n) i = free_seat i ∷ free_seats n (i + 1)

abbrev pub is_in_hand : TableStatus → Bool
is_in_hand idle = false
is_in_hand in_hand = true

-- `sort.Slice` by the index
pub insert_seat : Seat → List Seat → List Seat
insert_seat s [] = s ∷ []
insert_seat s (r ∷ rs) = if leb s.index r.index then s ∷ r ∷ rs else r ∷ insert_seat s rs

pub sort_seats : List Seat → List Seat
sort_seats [] = []
sort_seats (s ∷ ss) = insert_seat s (sort_seats ss)

-- the loop of `startHand` that looks for the button: the place at hand, the button so far
pub button_place : ℕ → ℕ → ℕ → List Seat → ℕ
button_place seat i button [] = button
button_place seat i button (s ∷ ss) =
    button_place seat (i + 1) (if s.index == seat then i else button) ss

pub start_request : Table → StartHandRequest
start_request t =
    let seats = sort_seats (playable_players t) in
    record {
      table_id = t.id;
      players = map (λ (s : Seat). (s.player_id, s.stack, s.index)) seats;
      button = button_place (normalized_button_seat t) 0 0 seats;
      small_blind = t.small_blind;
      big_blind = t.big_blind;
    }

-- `applyStacksFromState`
pub apply_stacks : List (ℕ × ℕ) → Table → Table
apply_stacks [] t = t
apply_stacks ((k, n) ∷ ps) t = apply_stacks ps (elim (seat_by_player_id k t) [
  | none ↦ t
  | some i ↦ elim (get_elem? t.seats i) [
    | none ↦ t
    | some s ↦ record t { seats = set t.seats i (record s { stack = n }) }
  ]
])

-- `unseatBustedPlayers`
abbrev pub unseat_busted : Seat → Seat
unseat_busted s = if occupied s then (if s.stack == 0 then record s { player_id = 0 } else s) else s

pub unseat_busted_players : Table → Table
unseat_busted_players t = record t { seats = map unseat_busted t.seats }

-- the table after a hand: stacks, seats, no hand, idle, the button moved
pub settled : HandState → Table → Table
settled h t = advance_button (record (unseat_busted_players (apply_stacks h.players t)) {
  active_hand_id = 0;
  status = idle;
})

abbrev pub join_key : Table → ℕ → ℕ → ℕ → MoneyKey
join_key t player seat buy_in = record {
  table_id = t.id;
  player_id = player;
  seat_index = seat;
  amount = buy_in;
  status = t.status;
  active_hand_id = t.active_hand_id;
  button = t.button;
  playable_count = some (length (playable_players t));
}

abbrev pub cashout_key : Table → ℕ → ℕ → ℕ → MoneyKey
cashout_key t player seat stack = record {
  table_id = t.id;
  player_id = player;
  seat_index = seat;
  amount = stack;
  status = t.status;
  active_hand_id = t.active_hand_id;
  button = t.button;
  playable_count = none;
}

abbrev pub is_seated : Option ℕ → Bool
is_seated none = false
is_seated (some _) = true

module _ (w : World) where
  -- `CreateTable`
  pub create_table : Bytes → ℕ → ℕ → ℕ → Job Table
  create_table name seat_count sb bb = do
    pure (
        fail_if (ltb seat_count 2 || leb sb 0 || leb bb 0 || not (bb == sb * 2))
          Error.invalid_table_config)
    let t : Table = record {
      id = w.clock;
      name = name;
      seat_count = seat_count;
      status = idle;
      small_blind = sb;
      big_blind = bb;
      button = 0;
      active_hand_id = 0;
      seats = free_seats seat_count 0;
    }
    send (w.create_fails t) (created t)
    pure (ok t)

  -- `startHand`: the table in a hand, and the state of that hand
  pub start_hand : Table → Job (Table × HandState)
  start_hand t = do
    h ← ask (w.start_hand (start_request t)) (hand_started (start_request t))
    pure (ok (record t { active_hand_id = h.id; status = in_hand }, h))

  -- a hand is started if one can be
  unfoldable pub auto_start : Table → Option HandState → Job (Table × Option HandState)
  auto_start t h =
      if can_auto_start t
      then (do started ← start_hand t; pure (ok (started.0, some started.1)))
      else pure (ok (t, h))

  -- what ends an operation
  abbrev pub save_table : Table × Option HandState → Job (Table × Option HandState)
  save_table r = do send (w.save_fails r.0) (saved r.0); pure (ok r)

  -- the wallet's call, if there is a wallet
  abbrev pub debit : ℕ → ℕ → ℕ → MoneyKey → Job (Unit {0})
  debit player table n key =
      if w.has_wallet
      then send (w.debit_fails player table n key) (debited player table n key)
      else pure (ok tt)

  abbrev pub credit : ℕ → ℕ → ℕ → MoneyKey → Job (Unit {0})
  credit player table n key =
      if w.has_wallet
      then send (w.credit_fails player table n key) (credited player table n key)
      else pure (ok tt)

  -- `JoinTable`
  unfoldable pub join_table : ℕ → ℕ → ℕ → ℕ → Job (Table × Option HandState)
  join_table table_id player seat_index buy_in = do
    t ← pure (w.find_table table_id)
    pure (fail_if (leb buy_in 0) Error.invalid_table_config)
    pure (fail_if (leb t.seat_count seat_index) Error.seat_out_of_range)
    pure (fail_if (is_seated (seat_by_player_id player t)) Error.player_already_seated)
    i ← pure (or_fail (seat_by_index seat_index t) Error.seat_out_of_range)
    s ← pure (or_panic (get_elem? t.seats i))
    pure (fail_if (occupied s) Error.seat_occupied)
    debit player t.id buy_in (join_key t player seat_index buy_in)
    let joined = record t {
      seats = set t.seats i (record s { player_id = player; stack = buy_in });
    }
    r ← auto_start joined none
    save_table r

  -- `LeaveTable`
  unfoldable pub leave_table : ℕ → ℕ → Job (Table × Option HandState)
  leave_table table_id player = do
    t ← pure (w.find_table table_id)
    pure (fail_if (is_in_hand t.status) Error.leave_during_active_hand)
    i ← pure (or_fail (seat_by_player_id player t) Error.player_not_seated)
    s ← pure (or_panic (get_elem? t.seats i))
    credit player t.id s.stack (cashout_key t player s.index s.stack)
    let left = record t { seats = set t.seats i (record s { player_id = 0; stack = 0 }) }
    save_table (left, none)

  -- `Act`
  pub act : ℕ → ℕ → ActionType → ℕ → Job (Table × Option HandState)
  act table_id player type amount = do
    t ← pure (w.find_table table_id)
    pure (fail_if (t.active_hand_id == 0) Error.active_hand_required)
    pure (fail_if (not (is_seated (seat_by_player_id player t))) Error.spectator_cannot_act)
    let request : ApplyActionRequest = record {
      hand_id = t.active_hand_id;
      player_id = player;
      type = type;
      amount = amount;
    }
    h ← ask (w.apply_action request) (action_applied request)
    r ← (if h.at_showdown then auto_start (settled h t) (some h) else pure (ok (t, some h)))
    save_table r

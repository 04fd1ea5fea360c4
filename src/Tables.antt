-- ===== src/Tables.antt =====
-- services/table-manager/internal/domain/domain.go: a table, its seats and its button. A player's id is a
-- number, and 0 is the empty string, which marks a free seat. A pointer to a seat is its place.
mod Tests
pub mod Button
pub mod World
pub mod Service
use holdem.Prelude.{
  ℕ, zero, suc, ◌+◌, ◌%◌, Bool, true, false, ◌&&◌, not, ltb, leb, ◌==◌, if◌then◌else◌, Option, none,
  some, List, [], ◌∷◌, length, keep_if, get_elem?,
}
use holdem.Cards.{Bytes}

pub data TableStatus : Type 0 where
  idle in_hand : TableStatus

pub record Seat : Type 0 where
  pub index : ℕ
  pub player_id : ℕ
  pub stack : ℕ

pub record Table : Type 0 where
  pub id : ℕ
  pub name : Bytes
  pub seat_count : ℕ
  pub status : TableStatus
  pub small_blind : ℕ
  pub big_blind : ℕ
  pub button : ℕ
  pub active_hand_id : ℕ
  pub seats : List Seat

-- `Seat.Occupied`
abbrev pub occupied : Seat → Bool
occupied s = not (s.player_id == 0)

-- the test of `PlayablePlayers`
abbrev pub playable : Seat → Bool
playable s = occupied s && ltb 0 s.stack

-- `SeatedPlayers`
pub seated_players : Table → List Seat
seated_players t = keep_if occupied t.seats

-- `PlayablePlayers`
abbrev pub playable_players : Table → List Seat
playable_players t = keep_if playable t.seats

-- the place of the first seat that passes a test
abbrev pub seat_where : (Seat → Bool) → List Seat → Option ℕ
seat_where test [] = none
seat_where test (s ∷ ss) =
    if test s then some 0 else elim (seat_where test ss) [ none ↦ none | some i ↦ some (suc i) ]

-- `SeatByPlayerID`
abbrev pub seat_by_player_id : ℕ → Table → Option ℕ
seat_by_player_id k t = seat_where (λ s. s.player_id == k) t.seats

-- `SeatByIndex`
abbrev pub seat_by_index : ℕ → Table → Option ℕ
seat_by_index k t = seat_where (λ s. s.index == k) t.seats

abbrev is_idle : TableStatus → Bool
is_idle idle = true
is_idle in_hand = false

-- `CanAutoStart`
unfoldable pub can_auto_start : Table → Bool
can_auto_start t = is_idle t.status && leb 2 (length (playable_players t))

-- a seat that `SeatByIndex` finds and that is playable
abbrev pub playable_at : ℕ → Table → Bool
playable_at k t = elim (seat_by_index k t) [
  | none ↦ false
  | some i ↦ elim (get_elem? t.seats i) [ none ↦ false | some s ↦ playable s ]
]

-- the index of the first playable seat, and 0 without one
abbrev pub first_playable : List Seat → ℕ
first_playable [] = 0
first_playable (s ∷ ss) = if playable s then s.index else first_playable ss

-- `NormalizedButtonSeat`
pub normalized_button_seat : Table → ℕ
normalized_button_seat t =
    if length (playable_players t) == 0
    then 0
    else if playable_at t.button t
    then t.button
    else first_playable t.seats

-- for offset := 1; offset <= len(t.Seats); offset++, with the rounds that are left
pub next_button : Table → ℕ → ℕ → ℕ → ℕ
next_button t start zero offset = start
next_button t start (suc rounds) offset =
    let idx = (start + offset) % length t.seats in
    elim (playable_at idx t) [ true ↦ idx | false ↦ next_button t start rounds (offset + 1) ]

-- `AdvanceButton`
pub advance_button : Table → Table
advance_button t =
    if length (playable_players t) == 0
    then record t { button = 0 }
    else record t { button = next_button t (normalized_button_seat t) (length t.seats) 1 }

-- ===== src/Storage/Mappers.antt =====
-- services/engine/internal/infrastructure/repository/postgres/mappers.go: enumerations as texts of the database.
use holdem.Prelude.{◌≡◌, refl, if◌then◌else◌, Bool-cases, inl, inr}
use holdem.Prelude.Text.{Bytes, bytes_eq}
use holdem.Prelude.Ascii.{ascii}
use holdem.Game.{
  Street, preflop, flop, turn, river, showdown, PlayerStatus, active, folded, sitting_out,
  BettingStructure, fixed_limit,
}

unfoldable pub street_to_string : Street → Bytes
street_to_string preflop = ascii "preflop"
street_to_string flop = ascii "flop"
street_to_string turn = ascii "turn"
street_to_string river = ascii "river"
street_to_string showdown = ascii "showdown"

unfoldable pub street_from_string : Bytes → Street
street_from_string s =
    if bytes_eq s (ascii "preflop")
    then preflop
    else if bytes_eq s (ascii "flop")
    then flop
    else if bytes_eq s (ascii "turn")
    then turn
    else if bytes_eq s (ascii "river")
    then river
    else if bytes_eq s (ascii "showdown")
    then showdown
    else preflop

unfoldable pub player_status_to_string : PlayerStatus → Bytes
player_status_to_string active = ascii "active"
player_status_to_string folded = ascii "folded"
player_status_to_string PlayerStatus.all_in = ascii "all_in"
player_status_to_string sitting_out = ascii "sitting_out"

unfoldable pub player_status_from_string : Bytes → PlayerStatus
player_status_from_string s =
    if bytes_eq s (ascii "active")
    then active
    else if bytes_eq s (ascii "folded")
    then folded
    else if bytes_eq s (ascii "all_in")
    then PlayerStatus.all_in
    else if bytes_eq s (ascii "sitting_out")
    then sitting_out
    else active

unfoldable pub betting_structure_to_string : BettingStructure → Bytes
betting_structure_to_string fixed_limit = ascii "fixed_limit"
betting_structure_to_string BettingStructure.unknown = ascii "fixed_limit"

unfoldable pub betting_structure_from_string : Bytes → BettingStructure
betting_structure_from_string s =
    if bytes_eq s (ascii "fixed_limit") then fixed_limit else fixed_limit

pub street_from_string-street_to_string : (s : Street) → street_from_string (street_to_string s) ≡ s
unfolding street_from_string street_to_string bytes_eq
street_from_string-street_to_string preflop = refl
street_from_string-street_to_string flop = refl
street_from_string-street_to_string turn = refl
street_from_string-street_to_string river = refl
street_from_string-street_to_string showdown = refl

pub player_status_from_string-player_status_to_string :
    (s : PlayerStatus) → player_status_from_string (player_status_to_string s) ≡ s
unfolding player_status_from_string player_status_to_string bytes_eq
player_status_from_string-player_status_to_string active = refl
player_status_from_string-player_status_to_string folded = refl
player_status_from_string-player_status_to_string PlayerStatus.all_in = refl
player_status_from_string-player_status_to_string sitting_out = refl

pub betting_structure_from_string_lem : (s : Bytes) → betting_structure_from_string s ≡ fixed_limit
unfolding betting_structure_from_string
betting_structure_from_string_lem s = elim (Bool-cases (bytes_eq s (ascii "fixed_limit"))) [
  | inl same ↦ rw same refl
  | inr other ↦ rw other refl
]

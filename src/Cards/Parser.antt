-- ===== src/Cards/Parser.antt =====
-- services/engine/internal/infrastructure/repository/card_parser.go: the text of a card read back from
-- the database.
pub mod RoundTrip
use holdem.Prelude.{
  ℕ, ◌+◌, ◌/◌, ◌%◌, Bool, true, false, ◌&&◌, ltb, ◌==◌, if◌then◌else◌, Option, none, some, List, [],
  ◌∷◌, Outcome, ok, err, Error, or_fail, fail_if, ◌>>=◌, ◌>>◌, length, drop,
}
use holdem.Prelude.Text.{bytes_eq}
use holdem.Cards.{
  Card, Rank, Suit, Bytes, new_card, spades, hearts, diamonds, clubs, spade_text, heart_text,
  diamond_text, club_text,
}

-- a `switch` over string constants: the first case that matches
pub switch : List (Bytes × ℕ) → Bytes → Option ℕ
switch [] s = none
switch ((k, v) ∷ cases) s = if bytes_eq s k then some v else switch cases s

abbrev pub rank_cases : List (Bytes × ℕ)
rank_cases =
    (b'2' ∷ [], 2)
    ∷ (b'3' ∷ [], 3)
    ∷ (b'4' ∷ [], 4)
    ∷ (b'5' ∷ [], 5)
    ∷ (b'6' ∷ [], 6)
    ∷ (b'7' ∷ [], 7)
    ∷ (b'8' ∷ [], 8)
    ∷ (b'9' ∷ [], 9)
    ∷ (b'T' ∷ [], 10)
    ∷ (b'J' ∷ [], 11)
    ∷ (b'Q' ∷ [], 12)
    ∷ (b'K' ∷ [], 13)
    ∷ (b'A' ∷ [], 14)
    ∷ []

abbrev pub suit_cases : List (Bytes × ℕ)
suit_cases =
    (spade_text, spades) ∷ (heart_text, hearts) ∷ (diamond_text, diamonds) ∷ (club_text, clubs) ∷ []

-- `ParseRank`
pub parse_rank : Bytes → Outcome Rank
unfolding switch
parse_rank s = or_fail (switch rank_cases s) Error.invalid_rank

-- `ParseSuit`
pub parse_suit : Bytes → Outcome Suit
unfolding switch
parse_suit s = or_fail (switch suit_cases s) Error.invalid_suit

-- Go's `string(b)` of one byte: the UTF-8 text of that code point.
pub string_of_byte : ℕ → Bytes
string_of_byte b = if ltb b 128 then b ∷ [] else (0xc0 + b / 64) ∷ (0x80 + b % 64) ∷ []

-- The two halves, past the test of the length.
pub parse_parts : Bytes → Outcome Card
parse_parts [] = Outcome.panic
parse_parts (b ∷ rest) = do
  rank ← parse_rank (string_of_byte b)
  suit ← parse_suit rest
  ok (new_card rank suit)

-- `ParseCard`
pub parse_card : Bytes → Outcome Card
parse_card s = do fail_if (ltb (length s) 2) Error.invalid_card; parse_parts s

-- ===== src/Cards.antt =====
-- services/engine/internal/domain/card.go: suits, ranks, cards and their text. `Suit` and `Rank` are
-- the source's bytes; a Go string is the list of its bytes, so "♠" is three of them.
mod Tests
pub mod Deck
pub mod Parser
pub use holdem.Prelude.Text.{Bytes}
use holdem.Prelude.{ℕ, ◌≡◌, Bool, ◌&&◌, leb, ◌==◌, Option, none, some, List, [], ◌∷◌, ◌++◌}
use holdem.Prelude.Dict.{Dict, lookup}

abbrev pub Suit : Type 0
Suit = ℕ

abbrev pub spades : Suit
spades = 0

abbrev pub hearts : Suit
hearts = 1

abbrev pub diamonds : Suit
diamonds = 2

abbrev pub clubs : Suit
clubs = 3

abbrev pub Rank : Type 0
Rank = ℕ

abbrev pub two : Rank
two = 2

abbrev pub three : Rank
three = 3

abbrev pub four : Rank
four = 4

abbrev pub five : Rank
five = 5

abbrev pub ten : Rank
ten = 10

abbrev pub ace : Rank
ace = 14

-- a `switch` over constants with a default
abbrev pub or_default {ℓ} : {A : Type ℓ} → Option A → A → A
or_default none d = d
or_default (some a) d = a

abbrev unknown_text : Bytes
unknown_text = b'?' ∷ []

abbrev pub spade_text : Bytes
spade_text = 0xe2 ∷ 0x99 ∷ 0xa0 ∷ []

abbrev pub heart_text : Bytes
heart_text = 0xe2 ∷ 0x99 ∷ 0xa5 ∷ []

abbrev pub diamond_text : Bytes
diamond_text = 0xe2 ∷ 0x99 ∷ 0xa6 ∷ []

abbrev pub club_text : Bytes
club_text = 0xe2 ∷ 0x99 ∷ 0xa3 ∷ []

abbrev pub suit_names : Dict Bytes
suit_names =
    (spades, spade_text) ∷ (hearts, heart_text) ∷ (diamonds, diamond_text) ∷ (clubs, club_text) ∷ []

-- `Suit.String`
pub suit_string : Suit → Bytes
suit_string s = or_default (lookup s suit_names) unknown_text

abbrev pub rank_names : Dict Bytes
rank_names =
    (2, b'2' ∷ [])
    ∷ (3, b'3' ∷ [])
    ∷ (4, b'4' ∷ [])
    ∷ (5, b'5' ∷ [])
    ∷ (6, b'6' ∷ [])
    ∷ (7, b'7' ∷ [])
    ∷ (8, b'8' ∷ [])
    ∷ (9, b'9' ∷ [])
    ∷ (10, b'T' ∷ [])
    ∷ (11, b'J' ∷ [])
    ∷ (12, b'Q' ∷ [])
    ∷ (13, b'K' ∷ [])
    ∷ (14, b'A' ∷ [])
    ∷ []

-- `Rank.String`
pub rank_string : Rank → Bytes
rank_string r = or_default (lookup r rank_names) unknown_text

pub record Card : Type 0 where
  pub rank : Rank
  pub suit : Suit

-- `NewCard`
abbrev pub new_card : Rank → Suit → Card
new_card r s = record { rank = r; suit = s }

-- `Card.String`
pub card_string : Card → Bytes
card_string c = rank_string c.rank ++ suit_string c.suit

-- `Card.IsValid`
unfoldable pub is_valid : Card → Bool
is_valid c = leb two c.rank && leb c.rank ace && (leb spades c.suit && leb c.suit clubs)

-- ===== src/Cards/Deck.antt =====
-- services/engine/internal/domain/deck.go: the deck, and dealing from its front. The shuffle is the
-- caller's function; a deck restored from cards has none, and shuffling it panics.
pub mod Dealing
pub mod Fresh
use holdem.Prelude.{
  ℕ, zero, suc, ◌+◌, leb, ltb, ◌==◌, Option, none, some, List, [], ◌∷◌, ◌++◌, Outcome, ok, err,
  panic, Error, fail_if, ◌>>=◌, ◌>>◌, length, take, drop,
}
use holdem.Cards.{Card, Suit, Rank, new_card, spades, hearts, diamonds, clubs, two}

pub record Deck : Type 0 where
  pub cards : List Card
  pub shuffle : Option (List Card → List Card)

-- for rank := Two; rank <= Ace; rank++, with the rounds that are left
unfoldable pub rank_loop : ℕ → Rank → Suit → List Card
rank_loop zero r s = []
rank_loop (suc n) r s = new_card r s ∷ rank_loop n (r + 1) s

-- for _, suit := range suits
unfoldable pub suit_loop : List Suit → List Card
suit_loop [] = []
suit_loop (s ∷ rest) = rank_loop 13 two s ++ suit_loop rest

unfoldable pub new_deck : (List Card → List Card) → Deck
new_deck f = record {
  cards = suit_loop (spades ∷ hearts ∷ diamonds ∷ clubs ∷ []);
  shuffle = some f;
}

unfoldable pub new_deck_from_cards : List Card → Deck
new_deck_from_cards cards = record { cards = cards; shuffle = none }

-- `Deck.Shuffle`
unfoldable pub shuffled : Deck → Outcome Deck
shuffled d = elim d.shuffle [ none ↦ panic | some f ↦ ok (record d { cards = f d.cards }) ]

-- `Deck.Deal`: the cards dealt, and the deck without them
unfoldable pub deal : ℕ → Deck → Outcome (List Card × Deck)
deal n d = do
  fail_if (leb n 0) Error.n_not_positive
  fail_if (length d.cards == 0) Error.empty_deck
  fail_if (ltb (length d.cards) n) Error.not_enough_cards
  ok (take n d.cards, record d { cards = drop n d.cards })

-- `Deck.Remaining`
pub remaining : Deck → ℕ
remaining d = length d.cards

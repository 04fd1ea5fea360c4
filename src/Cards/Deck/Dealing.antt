-- ===== src/Cards/Deck/Dealing.antt =====
-- What dealing takes from the deck, and when it fails.
use holdem.Prelude.{
  ℕ, ◌+◌, ◌≤◌, ◌<◌, ◌≡◌, ◌↔◌, ◌++◌, List, ok, err, Error, length, take, drop, length-take,
  length-drop, take-append-drop, arith,
}
use holdem.Cards.{Card}
use holdem.Cards.Deck.{Deck, deal, remaining}

-- A deal that succeeds takes exactly n cards, in order, from the front of the deck, and they with
-- the rest are the deck that there was; the shuffle function is kept.
pub deal-eq-ok :
    (n : ℕ) (d : Deck) {dealt : List Card} {rest : Deck}
    → deal n d ≡ ok (dealt, rest)
    → (dealt ++ rest.cards ≡ d.cards)
      × (length dealt ≡ n)
      × (remaining rest + n ≡ remaining d)
      × (0 < n)
      × (rest.shuffle ≡ d.shuffle)
unfolding deal remaining
deal-eq-ok n d h =
    ground (arith, take-append-drop n d.cards, length-take n d.cards, length-drop n d.cards)

-- A deal succeeds exactly when it asks for at least one card and no more than the deck holds, and
-- otherwise its error names the first condition that fails.
pub deal_outcomes :
    (n : ℕ) (d : Deck)
    → (((dealt : List Card) × (rest : Deck) × (deal n d ≡ ok (dealt, rest)))
        ↔ ((0 < n) × (n ≤ remaining d)))
      × ((deal n d ≡ err Error.n_not_positive) ↔ (n ≡ 0))
      × ((deal n d ≡ err Error.empty_deck) ↔ ((0 < n) × (remaining d ≡ 0)))
      × ((deal n d ≡ err Error.not_enough_cards) ↔ ((0 < remaining d) × (remaining d < n)))
unfolding deal remaining
deal_outcomes n d = (
  (
    λ (dealt, rest, e). ground arith,
    λ (p, q). (take n d.cards, record d { cards = drop n d.cards }, ground arith),
  ),
  ground arith,
  ground arith,
  ground arith,
)

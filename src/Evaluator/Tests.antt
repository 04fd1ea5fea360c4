-- ===== src/Evaluator/Tests.antt =====
-- Hands of concrete cards.
use holdem.Prelude.{ℕ, ◌≡◌, ◌≢◌, ◌↔◌, refl, inl, inr, List, [], ◌∷◌, In, arith, length}
use holdem.Cards.{Card}
use holdem.Game.Samples.{card}
use holdem.Evaluator.{
  Hand, HandResult, combinations, best, rank_hand, compare_results, Comparison, less, equal,
  greater, is_four_of_a_kind, is_full_house, is_royal_flush, is_flush, is_straight_flush,
  is_straight, sort_ints, insert_sorted,
}
use holdem.Evaluator.Selections.{Chosen, combinations_iff, with_card, Chosen-nil}
use holdem.Evaluator.Best.{best_strongest, result, ranked}
use holdem.Evaluator.Sorting.{compare_results_top_card}

abbrev pair_of_kings : Hand
pair_of_kings = card 13 0 ∷ card 13 1 ∷ card 8 2 ∷ card 5 3 ∷ card 3 0 ∷ []

abbrev pair_of_twos : Hand
pair_of_twos = card 2 0 ∷ card 2 1 ∷ card 14 2 ∷ card 5 3 ∷ card 3 0 ∷ []

abbrev wheel : Hand
wheel = card 14 0 ∷ card 2 1 ∷ card 3 2 ∷ card 4 3 ∷ card 5 0 ∷ []

abbrev six_high : Hand
six_high = card 6 0 ∷ card 2 1 ∷ card 3 2 ∷ card 4 3 ∷ card 5 0 ∷ []

abbrev of_straight : ℕ → Hand → HandResult
of_straight id h = result id (5, h)

abbrev of : Hand → HandResult
of h = result 0 (2, h)

wheel_ranks_as_straight : rank_hand wheel ≡ 5
unfolding rank_hand is_royal_flush is_flush is_straight_flush is_four_of_a_kind is_full_house
    is_straight sort_ints insert_sorted
wheel_ranks_as_straight = refl

six_high_ranks_as_straight : rank_hand six_high ≡ 5
unfolding rank_hand is_royal_flush is_flush is_straight_flush is_four_of_a_kind is_full_house
    is_straight sort_ints insert_sorted
six_high_ranks_as_straight = refl

combinations_iff_example :
    In pair_of_kings (combinations pair_of_kings)
    ↔ (Chosen pair_of_kings pair_of_kings × (length pair_of_kings ≡ 5))
combinations_iff_example = combinations_iff pair_of_kings pair_of_kings

greater≢equal : Comparison.greater ≢ equal
greater≢equal e = cc

greater≢less : Comparison.greater ≢ less
greater≢less e = cc

top_card : compare_results (of pair_of_twos) (of pair_of_kings) ≡ greater
top_card =
    compare_results_top_card (of pair_of_twos) (of pair_of_kings) 14 refl refl
      (inr (inr (inl refl))) (ground arith)

compare_results_top_card_example :
    compare_results (of_straight 1 wheel) (of_straight 2 six_high) ≡ greater
compare_results_top_card_example =
    compare_results_top_card (of_straight 1 wheel) (of_straight 2 six_high) 14 refl refl (inl refl)
      (ground arith)

abbrev flop_cards : List Card
flop_cards = card 7 1 ∷ card 7 2 ∷ card 3 3 ∷ []

best_strongest_example :
    compare_results
      (result 1 (ranked (card 14 0 ∷ card 13 0 ∷ flop_cards)))
      (best 1 (card 14 0, card 13 0) flop_cards)
    ≢ greater
best_strongest_example =
    best_strongest 1 (card 14 0) (card 13 0) flop_cards (card 14 0 ∷ card 13 0 ∷ flop_cards)
      (with_card (with_card (with_card (with_card (with_card (Chosen-nil [])))))) refl

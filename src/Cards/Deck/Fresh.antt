-- ===== src/Cards/Deck/Fresh.antt =====
-- The deck that a hand begins with.
use holdem.Prelude.{
  ℕ, zero, suc, ◌+◌, ◌≡◌, refl, List, [], ◌∷◌, ◌++◌, Bool, ◌&&◌, ◌==◌, length, arith, ltb,
  if◌then◌else◌,
}
use holdem.Cards.{Card, Suit, is_valid, two}
use holdem.Cards.Deck.{new_deck, rank_loop, suit_loop}

same_card : Card → Card → Bool
same_card a b = a.rank == b.rank && a.suit == b.suit

-- how often a card occurs
pub occurrences : Card → List Card → ℕ
unfolding same_card
occurrences c [] = 0
occurrences c (x ∷ xs) = (if same_card x c then 1 else 0) + occurrences c xs

occurrences-append :
    (c : Card) (xs ys : List Card) → occurrences c (xs ++ ys) ≡ occurrences c xs + occurrences c ys
unfolding occurrences
occurrences-append c [] ys = omega arith
occurrences-append c (x ∷ xs) ys = omega (arith, occurrences-append c xs ys)

occurrences-rank_loop :
    (c : Card) (n r : ℕ) (s : Suit)
    → occurrences c (rank_loop n r s) ≡ (
        if c.suit == s
        then (if ltb c.rank r then 0 else if ltb c.rank (r + n) then 1 else 0)
        else 0)
unfolding occurrences rank_loop
occurrences-rank_loop c zero r s = ground arith
occurrences-rank_loop c (suc n) r s = ground (arith, occurrences-rank_loop c n (r + 1) s)

-- how often a suit is listed
suit_count : ℕ → List Suit → ℕ
suit_count s [] = 0
suit_count s (x ∷ xs) = (if x == s then 1 else 0) + suit_count s xs

occurrences-suit_loop :
    (c : Card) (ss : List Suit)
    → occurrences c (suit_loop ss)
      ≡ (if ltb c.rank 2 then 0 else if ltb c.rank 15 then suit_count c.suit ss else 0)
unfolding suit_loop suit_count occurrences
occurrences-suit_loop c [] = ground arith
occurrences-suit_loop c (s ∷ ss) =
    rw (occurrences-append c (rank_loop 13 two s) (suit_loop ss))
      (ground (arith, occurrences-rank_loop c 13 2 s, occurrences-suit_loop c ss))

length-new_deck : (f : List Card → List Card) → length (new_deck f).cards ≡ 52
unfolding new_deck rank_loop suit_loop
length-new_deck f = refl

-- Whatever the shuffle function, a new deck holds every valid card exactly once and no other card,
-- 52 cards in all.
pub new_deck_complete :
    (f : List Card → List Card) (c : Card)
    → (occurrences c (new_deck f).cards ≡ (if is_valid c then 1 else 0))
      × (length (new_deck f).cards ≡ 52)
unfolding new_deck is_valid suit_count
new_deck_complete f c =
    (ground (arith, occurrences-suit_loop c (0 ∷ 1 ∷ 2 ∷ 3 ∷ [])), length-new_deck f)

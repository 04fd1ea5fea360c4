-- ===== src/Cards/Tests.antt =====
-- The ace of spades, and a deck of two cards.
use holdem.Prelude.{◌≡◌, refl, [], ◌∷◌, none, ok}
use holdem.Cards.{Card, is_valid, card_string, new_card, spades, hearts, ace, two}
use holdem.Cards.Parser.{parse_card}
use holdem.Cards.Parser.RoundTrip.{parse-card_string}
use holdem.Cards.Deck.{Deck, deal}

abbrev ace_of_spades : Card
ace_of_spades = new_card ace spades

abbrev two_of_hearts : Card
two_of_hearts = new_card two hearts

abbrev small_deck : Deck
small_deck = record { cards = ace_of_spades ∷ two_of_hearts ∷ []; shuffle = none }

parse-card_string_example : parse_card (card_string ace_of_spades) ≡ ok ace_of_spades
unfolding is_valid
parse-card_string_example = parse-card_string ace_of_spades refl

one_dealt :
    deal 1 small_deck
    ≡ ok (ace_of_spades ∷ [], record { cards = two_of_hearts ∷ []; shuffle = none })
unfolding deal
one_dealt = refl

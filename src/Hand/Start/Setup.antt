-- ===== src/Hand/Start/Setup.antt =====
-- The hole cards of a new hand.
use holdem.Prelude.{◌≡◌, ap, List, [], ◌∷◌, ◌++◌, length, map, >>=-eq-ok, Outcome, ok, arith}
use holdem.Cards.{Card}
use holdem.Cards.Deck.{Deck, deal}
use holdem.Cards.Deck.Dealing.{deal-eq-ok}
use holdem.Game.{Player}
use holdem.Hand.Start.{deal_hole_cards, two_cards}

-- the hole cards of the players, in the order they were dealt
pub hole_cards_of : List Player → List Card
hole_cards_of [] = []
hole_cards_of (p ∷ ps) = p.hole_cards.0 ∷ p.hole_cards.1 ∷ hole_cards_of ps

two_cards_lem :
    (cs : List Card) (h : Card × Card) → two_cards cs ≡ ok h → length cs ≡ 2 → cs ≡ h.0 ∷ h.1 ∷ []
two_cards_lem [] h e l = cc
two_cards_lem (c ∷ []) h e l = cc
two_cards_lem (a ∷ b ∷ []) h e l = cc
two_cards_lem (a ∷ b ∷ c ∷ cs) h e l = absurd (ground arith)

ok-injective : {A : Type 0} {x y : A} → Outcome.ok x ≡ ok y → x ≡ y
ok-injective e = cc

-- Dealing the hole cards gives the top cards of the deck, two to each seat in order, and leaves the rest;
-- no card is used twice or lost, and the seats keep their ids and stacks.
pub deal_hole_cards_lem :
    (d : Deck) (ps : List Player) (d' : Deck) (qs : List Player)
    → deal_hole_cards d ps ≡ ok (d', qs)
    → (d.cards ≡ hole_cards_of qs ++ d'.cards)
      × (map (λ p. p.id) qs ≡ map (λ p. p.id) ps)
      × (map (λ p. p.stack) qs ≡ map (λ p. p.stack) ps)
unfolding deal_hole_cards hole_cards_of
deal_hole_cards_lem d [] d' qs e = (cc, cc, cc)
deal_hole_cards_lem d (p ∷ ps) d' qs e =
    let (dealt, dealing, rest) = >>=-eq-ok (deal 2 d) _ e in
    let (hole, two, rest) = >>=-eq-ok (two_cards dealt.0) _ rest in
    let (others, recursion, result) = >>=-eq-ok (deal_hole_cards dealt.1 ps) _ rest in
    let (cards, ids, stacks) = deal_hole_cards_lem dealt.1 ps others.0 others.1 recursion in
    let (front, two_dealt, _, _, _) = deal-eq-ok 2 d dealing in
    let pair = two_cards_lem dealt.0 hole two two_dealt in
    let same = ok-injective result in
    let same_deck = ap (λ r. r.0) same in
    let same_players = ap (λ r. r.1) same in
    (
      rw (← same_deck, ← same_players, ← front, pair, cards),
      rw (← same_players, ids),
      rw (← same_players, stacks),
    )

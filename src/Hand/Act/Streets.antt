-- ===== src/Hand/Act/Streets.antt =====
-- From one street to the next.
use holdem.Prelude.{
  ℕ, zero, suc, ◌+◌, ◌%◌, ◌≤◌, ◌≡◌, ◌≢◌, refl, sym, ap, ◌∙◌, subst, true, Option, some, List, [],
  ◌∷◌, ◌++◌, length, length-append, map, length-map, get_elem?, All, ok, arith, >>=-eq-ok,
}
use mathlib.Core.List.{append_assoc}
use mathlib.Core.Option
use holdem.Cards.Deck.{deal}
use holdem.Cards.Deck.Dealing.{deal-eq-ok}
use holdem.Game.{
  PlayerId, Player, all_in, Action, GameState, Street, preflop, flop, turn, river, showdown,
  in_hand, can_act,
}
use holdem.Game.Chips.{chips, holdings, stacks, bets}
use holdem.Game.Seats.{DistinctIds}
use holdem.Betting.{validate_action, seat_passes}
use holdem.Betting.Accepted.{validate_action-able}
use holdem.Betting.Effect.{InRound}
use holdem.Betting.Turns.{first_active_after_button_lem}
use holdem.Pots.{collect_bets, clear_bet, total_pots}
use holdem.Pots.Collected.{collect_bets_lem}
use holdem.Hand.Act.{deal_board, next_street, reset_street, advance_street}

ok-injective {ℓ} : {A : Type ℓ} {a b : A} → ok a ≡ ok b → a ≡ b
ok-injective h = cc

-- the street that follows, and the cards that it brings
abbrev pub following : Street → Street
following preflop = flop
following flop = turn
following turn = river
following river = showdown
following showdown = showdown

abbrev pub cards_dealt : Street → ℕ
cards_dealt preflop = 3
cards_dealt flop = 1
cards_dealt turn = 1
cards_dealt river = 0
cards_dealt showdown = 0

-- What dealing to the board does.
record Dealt (n : ℕ) (next : Street) (g g' : GameState) : Type 0 where
  moved : g'.board ++ g'.deck.cards ≡ g.board ++ g.deck.cards
  longer : length g'.board ≡ length g.board + n
  street : g'.street ≡ next
  same_players : g'.players ≡ g.players
  same_pots : g'.pots ≡ g.pots
  same_bet : g'.current_bet ≡ g.current_bet
  same_raises : g'.raises_this_street ≡ g.raises_this_street
  same_cap : g'.max_raises_per_street ≡ g.max_raises_per_street
  same_turn : g'.active_player ≡ g.active_player

deal_board-Dealt :
    (n : ℕ) (next : Street) (g : GameState) {g' : GameState}
    → deal_board n next g ≡ ok g'
    → Dealt n next g g'
unfolding deal_board
deal_board-Dealt n next g h =
    let ((cards, rest), dealt, made) = >>=-eq-ok (deal n g.deck) _ h in
    let (front, count, left, pos, keeps) = deal-eq-ok n g.deck dealt in
    subst (Dealt n next g) (ok-injective made) (record {
      moved = append_assoc g.board cards rest.cards ∙ ap (◌++◌ g.board) front;
      longer = omega (arith, length-append g.board cards, count);
      street = refl;
      same_players = refl;
      same_pots = refl;
      same_bet = refl;
      same_raises = refl;
      same_cap = refl;
      same_turn = refl;
    })

undealt : (next : Street) (g : GameState) → Dealt 0 next g (record g { street = next })
undealt next g = record {
  moved = refl;
  longer = omega arith;
  street = refl;
  same_players = refl;
  same_pots = refl;
  same_bet = refl;
  same_raises = refl;
  same_cap = refl;
  same_turn = refl;
}

next_street-Dealt :
    (s : Street) (g : GameState) {g' : GameState}
    → g.street ≡ s
    → next_street s g ≡ ok g'
    → Dealt (cards_dealt s) (following s) g g'
next_street-Dealt preflop g e h = deal_board-Dealt 3 flop g h
next_street-Dealt flop g e h = deal_board-Dealt 1 turn g h
next_street-Dealt turn g e h = deal_board-Dealt 1 river g h
next_street-Dealt river g e h = subst (Dealt 0 showdown g) (ok-injective h) (undealt showdown g)
next_street-Dealt showdown g e h =
    let same : record g { street = showdown } ≡ g = λ i. record g { street = sym e i } in
    subst (Dealt 0 showdown g) (ok-injective h)
      (subst (Dealt 0 showdown g) same (undealt showdown g))

All-bets_zero :
    (ps : List Player)
    → All (λ (p : Player). p.current_bet ≡ 0) ps
    → All (λ (p : Player). p.current_bet ≤ 0) ps
All-bets_zero [] a = tt
All-bets_zero (p ∷ ps) a = (omega arith, All-bets_zero ps a.1)

bets_zero : (ps : List Player) → All (λ (p : Player). p.current_bet ≡ 0) ps → bets ps ≡ 0
bets_zero [] a = refl
bets_zero (p ∷ ps) a = omega (arith, bets_zero ps a.1)

-- When a street begins, the bets are in the pots and nothing is bet; the board has got the cards of the
-- street from the front of the deck, and no card and no chip is lost. The new street meets the
-- invariant of a betting round.
pub advance_street_effect :
    (order : List PlayerId → List PlayerId) (g : GameState) {g' : GameState}
    → DistinctIds g.players
    → advance_street order g ≡ ok g'
    → (chips g' ≡ chips g)
      × (g'.board ++ g'.deck.cards ≡ g.board ++ g.deck.cards)
      × (length g'.board ≡ length g.board + cards_dealt g.street)
      × (g'.street ≡ following g.street)
      × (g'.current_bet ≡ 0)
      × (bets g'.players ≡ 0)
      × (stacks g'.players ≡ stacks g.players)
      × InRound g'
unfolding advance_street reset_street collect_bets
advance_street_effect order g {g'} d h =
    let (kept, gross, zero_bets, same) = collect_bets_lem order g d in
    let r : GameState = reset_street order g in
    let t = next_street-Dealt g.street r refl h in
    (
      omega (arith, ap holdings t.same_players, ap total_pots t.same_pots, kept),
      t.moved,
      t.longer,
      t.street,
      t.same_bet,
      ap bets t.same_players ∙ bets_zero (collect_bets order g).players zero_bets,
      ap stacks t.same_players ∙ same,
      record {
        covered =
            subst (λ b. All (λ (p : Player). p.current_bet ≤ b) g'.players) (sym t.same_bet)
              (subst (All (λ (p : Player). p.current_bet ≤ 0)) (sym t.same_players)
                (All-bets_zero (collect_bets order g).players zero_bets));
        capped = omega (arith, t.same_raises, t.same_cap);
      },
    )

get_elem?-map :
    (f : Player → Player) (ps : List Player) (i : ℕ) {p : Player}
    → get_elem? ps i ≡ some p
    → get_elem? (map f ps) i ≡ some (f p)
get_elem?-map f [] i h = absurd (cc)
get_elem?-map f (q ∷ ps) zero h = ap (λ (o : Option Player). Option.map f o) h
get_elem?-map f (q ∷ ps) (suc i) h = get_elem?-map f ps i h

-- If the player next to the button is all in, then once a street has advanced no action of any
-- player is accepted.
pub all_in_stalls :
    (order : List PlayerId → List PlayerId) (g : GameState) (p : Player) {g' : GameState}
    → get_elem? g.players ((g.button + 1) % length g.players) ≡ some p
    → p.status ≡ all_in
    → advance_street order g ≡ ok g'
    → (a : Action) → validate_action g' a ≢ ok tt
unfolding advance_street reset_street collect_bets
all_in_stalls order g p {g'} seat status h a accepted =
    let c : GameState = collect_bets order g in
    let q : Player = clear_bet p in
    let t = next_street-Dealt g.street (reset_street order g) refl h in
    let (x, seated, able, _, _) = validate_action-able g' a accepted in
    let n : length c.players ≡ length g.players = length-map g.players clear_bet in
    let here : get_elem? c.players ((g.button + 1) % length c.players) ≡ some q =
      rw n (get_elem?-map clear_bet g.players ((g.button + 1) % length g.players) seat) in
    let all_in_still : q.status ≡ all_in = ground arith in
    let passes : seat_passes in_hand c.players ((g.button + 1) % length c.players) ≡ true =
      rw (here, seat_passes) (ground (arith, all_in_still)) in
    let turn : g'.active_player ≡ (g.button + 1) % length c.players =
      t.same_turn ∙ first_active_after_button_lem c passes in
    let same : some x ≡ some q =
      sym seated
      ∙ ap (λ ps. get_elem? ps g'.active_player) t.same_players
      ∙ ap (get_elem? c.players) turn
      ∙ here in
    cannot x able same all_in_still
  where
    cannot : (x : Player) {y : Player} → can_act x ≡ true → some x ≡ some y → y.status ≡ all_in → ⊥
    cannot x able e stuck = ground arith

-- ===== src/Evaluator/Best.antt =====
-- What `Best` returns among the selections of five cards.
use holdem.Prelude.{
  ◌≤◌, ◌<◌, ◌≡◌, ◌≢◌, ◌⊎◌, refl, sym, ap, ◌∙◌, subst, inl, inr, List, [], ◌∷◌, length, All, In,
  arith,
}
use holdem.Cards.{Card}
use holdem.Game.{PlayerId}
use holdem.Evaluator.{
  Hand, HandRank, HandResult, equal, greater, rank_hand, compare_cards, compare_results, consider,
  best_of, best, combinations, zero_hand, sort_ints, insert_sorted,
}
use holdem.Evaluator.Order.{compare_results_order, compare_results_trans}
use holdem.Evaluator.Selections.{Chosen, with_card, Chosen-nil, combinations_iff, combinations-few}

-- a rank and a hand as a result of the player
abbrev pub result : PlayerId → HandRank × Hand → HandResult
result id (r, h) = record { player_id = id; rank = r; cards = h }

abbrev pub ranked : Hand → HandRank × Hand
ranked h = (rank_hand h, h)

-- The first is not stronger than the second.
abbrev NotOver : HandRank × Hand → HandRank × Hand → Type 0
NotOver a b = compare_results (result 0 a) (result 0 b) ≢ greater

rank_hand_pos : (h : Hand) → 1 ≤ rank_hand h
unfolding rank_hand
rank_hand_pos h = ground arith

NotOver-self : (a : HandRank × Hand) → length a.1 ≡ 5 → NotOver a a
NotOver-self a h =
    let (turn, same) = compare_results_order (result 0 a) (result 0 a) refl in
    λ e. cc (same.1 (refl, refl))

NotOver-trans :
    (a b c : HandRank × Hand)
    → length a.1 ≡ 5
    → length b.1 ≡ 5
    → length c.1 ≡ 5
    → NotOver a b
    → NotOver b c
    → NotOver a c
NotOver-trans a b c ha hb hc =
    compare_results_trans (result 0 a) (result 0 b) (result 0 c) (ha ∙ sym hb) (hb ∙ sym hc)

-- One round keeps the stronger of the best so far and the new hand.
consider_lem :
    (s : HandRank × Hand) (h : Hand)
    → length s.1 ≡ 5
    → length h ≡ 5
    → NotOver s (consider s h)
      × NotOver (ranked h) (consider s h)
      × ((consider s h ≡ s) ⊎ (consider s h ≡ ranked h))
unfolding consider compare_results
consider_lem (r, b) h hs hh =
    let (turn, _) = compare_results_order (result 0 (r, b)) (result 0 (r, h)) (hs ∙ sym hh) in
    let self = NotOver-self (r, b) hs in
    let self' = NotOver-self (ranked h) hh in ground (arith, turn, self, self')

-- What the loop over the combinations has found: something at least as strong as the start and as every
-- combination, which is one of these.
best_of_lem :
    (s : HandRank × Hand) (hs : List Hand)
    → length s.1 ≡ 5
    → All (λ h. length h ≡ 5) hs
    → (length (best_of s hs).1 ≡ 5)
      × NotOver s (best_of s hs)
      × ((h : Hand) → In h hs → NotOver (ranked h) (best_of s hs))
      × ((best_of s hs ≡ s)
          ⊎ (In (best_of s hs).1 hs × ((best_of s hs).0 ≡ rank_hand (best_of s hs).1)))
unfolding best_of
best_of_lem s [] l a = (l, NotOver-self s l, λ h m. absurd m, inl refl)
best_of_lem s (x ∷ hs) l a =
    let (kept, over, which) = consider_lem s x l a.0 in
    let next = consider s x in
    let len : length next.1 ≡ 5 = elim which [
      | inl e ↦ ap (λ (t : HandRank × Hand). length t.1) e ∙ l
      | inr e ↦ ap (λ (t : HandRank × Hand). length t.1) e ∙ a.0
    ] in
    let (len', after, all, found) = best_of_lem next hs len a.1 in
    (
      len',
      NotOver-trans s next _ l len len' kept after,
      λ h m. elim m [
        | inl e ↦
            subst (λ k. NotOver (ranked k) (best_of next hs)) e
              (NotOver-trans (ranked x) next _ a.0 len len' over after)
        | inr n ↦ all h n
      ],
      elim found [
        | inr (m, e) ↦ inr (inr m, e)
        | inl same ↦ elim which [
          | inl e ↦ inl (same ∙ e)
          | inr e ↦ inr (
            inl (sym (ap (λ (t : HandRank × Hand). t.1) (same ∙ e))),
            ap (λ (t : HandRank × Hand). t.0) (same ∙ e)
                ∙ sym (ap (λ (t : HandRank × Hand). rank_hand t.1) (same ∙ e)),
          )
        ]
      ],
    )

All-of_In : (P : Hand → Type 0) (hs : List Hand) → ((h : Hand) → In h hs → P h) → All P hs
All-of_In P [] f = tt
All-of_In P (h ∷ hs) f = (f h (inl refl), All-of_In P hs (λ k m. f k (inr m)))

five_each : (cards : List Card) → All (λ h. length h ≡ 5) (combinations cards)
five_each cards = All-of_In _ (combinations cards) (λ h m. ((combinations_iff cards h).0 m).1)

-- A result always has five cards, on a short board the zero ones.
pub length-best :
    (id : PlayerId) (hole : Card × Card) (board : List Card) → length (best id hole board).cards ≡ 5
unfolding best
length-best id (c, d) board =
    (best_of_lem (0, zero_hand) (combinations (c ∷ d ∷ board)) refl (five_each _)).0

over_zero : (h : Hand) → compare_results (result 0 (ranked h)) (result 0 (0, zero_hand)) ≡ greater
unfolding compare_results
over_zero h = ground (arith, rank_hand_pos h)

-- With at least three cards on the board, `Best` returns five of the player's cards in their order and
-- the category that these have.
pub best_lem :
    (id : PlayerId) (c d : Card) (board : List Card)
    → 3 ≤ length board
    → let r = best id (c, d) board in
      (r.player_id ≡ id)
      × Chosen r.cards (c ∷ d ∷ board)
      × (length r.cards ≡ 5)
      × (r.rank ≡ rank_hand r.cards)
unfolding best
best_lem id c d [] h = absurd (omega arith)
best_lem id c d (x ∷ []) h = absurd (omega arith)
best_lem id c d (x ∷ y ∷ []) h = absurd (omega arith)
best_lem id c d (x ∷ y ∷ z ∷ rest) h = (refl, sel, len, graded)
  where
    cards : List Card
    cards = c ∷ d ∷ x ∷ y ∷ z ∷ rest

    r : HandRank × Hand
    r = best_of (0, zero_hand) (combinations cards)

    len : length r.1 ≡ 5
    len = (best_of_lem (0, zero_hand) (combinations cards) refl (five_each cards)).0

    strongest : (h : Hand) → Chosen h cards → length h ≡ 5 → NotOver (ranked h) r
    strongest h s e =
        (best_of_lem (0, zero_hand) (combinations cards) refl (five_each cards)).2 h
          ((combinations_iff cards h).1 (s, e))

    -- the first five cards, which beat the hand that the loop starts from
    first : Hand
    first = c ∷ d ∷ x ∷ y ∷ z ∷ []

    beaten : r ≡ (0, zero_hand) → ⊥
    beaten e =
        subst (NotOver (ranked first)) e
          (strongest first
            (with_card (with_card (with_card (with_card (with_card (Chosen-nil rest)))))) refl)
          (over_zero first)

    found : In r.1 (combinations cards) × (r.0 ≡ rank_hand r.1)
    found = elim (best_of_lem (0, zero_hand) (combinations cards) refl (five_each cards)).3 [
      | inl same ↦ absurd (beaten same)
      | inr f ↦ f
    ]

    sel : Chosen r.1 cards
    sel = ((combinations_iff cards r.1).0 found.0).0

    graded : r.0 ≡ rank_hand r.1
    graded = found.1

-- No five of the player's cards, in their order, compare as stronger than the result of `Best`.
pub best_strongest :
    (id : PlayerId) (c d : Card) (board : List Card) (h : Hand)
    → Chosen h (c ∷ d ∷ board)
    → length h ≡ 5
    → compare_results (result id (ranked h)) (best id (c, d) board) ≢ greater
unfolding best compare_results
best_strongest id c d board h s e =
    (best_of_lem (0, zero_hand) (combinations (c ∷ d ∷ board)) refl (five_each _)).2 h
      ((combinations_iff (c ∷ d ∷ board) h).1 (s, e))

-- On a board of fewer than three cards the results of any two players compare as equal, whatever
-- their cards.
pub best_short_board :
    (i j : PlayerId) (hole hole' : Card × Card) (board : List Card)
    → length board < 3
    → compare_results (best i hole board) (best j hole' board) ≡ equal
unfolding best best_of compare_results
best_short_board i j (c, d) (c', d') board h =
    let none_here = combinations-few (c ∷ d ∷ board) (omega arith) in
    let none_there = combinations-few (c' ∷ d' ∷ board) (omega arith) in
    rw (none_here, none_there) (unfold compare_cards sort_ints insert_sorted in refl)

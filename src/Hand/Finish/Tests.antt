-- ===== src/Hand/Finish/Tests.antt =====
-- The end of a hand at a table of three, one of whom has folded.
use holdem.Prelude.{
  ◌+◌, ◌/◌, ◌≡◌, ◌≢◌, ◌↔◌, refl, sym, ap, Bool, true, false, if◌then◌else◌, ◌==◌, some, none,
  length, inl, [], ◌∷◌, In, arith,
}
use holdem.Prelude.Dict.{Dict}
use holdem.Game.{PlayerId, GameState, active, folded, river, active_players}
use holdem.Game.Chips.{stacks}
use holdem.Game.Samples.{card, player, table_at, as_listed}
use holdem.Pots.{collect_bets}
use holdem.Rake.{RakeConfig, calculate_rake}
use holdem.Evaluator.{HandResult}
use holdem.Hand.Finish.{raked, finished, best_hands_in_pot}
use holdem.Hand.Finish.Engine.{evaluator, evaluator_laws}
use holdem.Hand.Finish.Winners.{
  AllValid, Known, NotAbove, best_hands_in_pot_iff, best_hands_in_pot-nonempty,
}
use holdem.Hand.Finish.Conserved.{finished_pays}
use holdem.Hand.Finish.Contenders.{unclaimed}

abbrev house : RakeConfig
house = record { percent_of = λ n. n / 20; cap = 3; no_flop_no_drop = true }

abbrev at_river : GameState
at_river =
    table_at river (player 1 100 active 20 ∷ player 2 95 active 20 ∷ player 3 90 folded 0 ∷ [])
      (card 14 0 ∷ card 9 1 ∷ card 7 2 ∷ card 3 3 ∷ card 11 0 ∷ [])
      (record { amount = 60; eligible = 1 ∷ 2 ∷ 3 ∷ [] } ∷ []) 20

finished_pays_example :
    let r = raked evaluator as_listed house at_river in
    stacks (finished evaluator as_listed house at_river).players
      + unclaimed (active_players r) r.pots
      + calculate_rake (collect_bets as_listed at_river).pots river house
    ≡ 285 + 40 + 60
finished_pays_example =
    finished_pays evaluator as_listed house at_river evaluator_laws (ground arith) (omega arith)

-- one result, of five cards
abbrev one_result : Dict HandResult
one_result = (4, record { player_id = 4; rank = 1; cards = at_river.board }) ∷ []

five_cards :
    (b : Bool) (r : HandResult)
    → (if b then some (record { player_id = 4; rank = 1; cards = at_river.board }) else none)
      ≡ some r
    → length r.cards ≡ 5
five_cards true r e = sym (ap (λ o. elim o [ none ↦ 5 | some x ↦ length x.cards ]) e)
five_cards false r e = sym (ap (λ o. elim o [ none ↦ 5 | some x ↦ length x.cards ]) e)

one_result-AllValid : AllValid evaluator_laws.Valid one_result
one_result-AllValid k r e = five_cards (4 == k) r e

best_hands_in_pot_iff_example :
    In {A = PlayerId} 4 (best_hands_in_pot evaluator (4 ∷ 5 ∷ []) one_result) ↔ (
      In {A = PlayerId} 4 (4 ∷ 5 ∷ [])
      × Known one_result 4
      × ((k : PlayerId)
          → In k (4 ∷ 5 ∷ [])
          → Known one_result k
          → NotAbove evaluator evaluator_laws one_result one_result-AllValid k 4))
best_hands_in_pot_iff_example =
    best_hands_in_pot_iff evaluator evaluator_laws one_result one_result-AllValid (4 ∷ 5 ∷ []) 4

best_hands_in_pot-nonempty_example : best_hands_in_pot evaluator (4 ∷ 5 ∷ []) one_result ≢ []
best_hands_in_pot-nonempty_example =
    best_hands_in_pot-nonempty evaluator evaluator_laws one_result one_result-AllValid (4 ∷ 5 ∷ [])
      4 (inl refl) (record { player_id = 4; rank = 1; cards = at_river.board }, refl)

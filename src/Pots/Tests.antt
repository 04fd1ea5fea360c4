-- ===== src/Pots/Tests.antt =====
-- The pots of unequal contributions, and of the blinds at a table of three.
use holdem.Prelude.{ℕ, ◌+◌, ◌≡◌, refl, [], ◌∷◌, All, arith}
use holdem.Prelude.Dict.{Dict}
use holdem.Game.{Player}
use holdem.Game.Chips.{chips, stacks}
use holdem.Game.Samples.{as_listed, before_flop}
use holdem.Pots.{calculate, total_pots, collect_bets, layers}
use holdem.Pots.Shares.{share, Visits, total-calculate, share-calculate}
use holdem.Pots.Collected.{collect_bets_lem}

abbrev contributed : Dict ℕ
contributed = (1, 30) ∷ (2, 10) ∷ (3, 30) ∷ (4, 0) ∷ []

main_and_side_pot :
    calculate as_listed contributed
    ≡ record { amount = 30; eligible = 1 ∷ 2 ∷ 3 ∷ [] }
      ∷ record { amount = 40; eligible = 1 ∷ 3 ∷ [] }
      ∷ []
unfolding calculate layers
main_and_side_pot = refl

as_listed-Visits : Visits as_listed
as_listed-Visits = record { as_many = λ ks. refl; the_same = λ k ks. refl }

total-calculate_example : total_pots (calculate as_listed contributed) ≡ 70
total-calculate_example = total-calculate as_listed contributed

share-calculate_example : share 1 (calculate as_listed contributed) ≡ 30
share-calculate_example = share-calculate as_listed contributed 1 as_listed-Visits (ground arith)

collect_bets_lem_example :
    (chips (collect_bets as_listed before_flop) ≡ 300)
    × (total_pots (collect_bets as_listed before_flop).pots ≡ total_pots [] + 15)
    × All (λ (p : Player). p.current_bet ≡ 0) (collect_bets as_listed before_flop).players
    × (stacks (collect_bets as_listed before_flop).players ≡ 285)
collect_bets_lem_example = collect_bets_lem as_listed before_flop (ground arith)

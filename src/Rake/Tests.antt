-- ===== src/Rake/Tests.antt =====
-- A rake of five in the hundred, at most three chips.
use holdem.Prelude.{◌/◌, ◌≡◌, ◌≤◌, ◌<◌, ◌↔◌, ◌⊎◌, true, false, List, [], ◌∷◌}
use holdem.Game.{Pot, flop}
use holdem.Pots.{total_pots}
use holdem.Rake.{RakeConfig, calculate_rake}
use holdem.Rake.Taken.{calculate_rake_bounds}

abbrev house : RakeConfig
house = record { percent_of = λ n. n / 20; cap = 3; no_flop_no_drop = true }

abbrev two_pots : List Pot
two_pots =
    record { amount = 40; eligible = 1 ∷ 2 ∷ [] } ∷ record { amount = 2; eligible = 1 ∷ [] } ∷ []

calculate_rake_bounds_example :
    (calculate_rake two_pots flop house ≤ 3)
    × (calculate_rake two_pots flop house ≤ total_pots two_pots / 20)
    × ((0 < calculate_rake two_pots flop house) ↔ (
        (0 < 3)
        × (0 < total_pots two_pots / 20)
        × (0 < total_pots two_pots)
        × ((true ≡ false) ⊎ (false ≡ false))))
calculate_rake_bounds_example = calculate_rake_bounds two_pots flop house

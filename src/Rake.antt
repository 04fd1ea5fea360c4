-- ===== src/Rake.antt =====
-- services/engine/internal/domain/rake.go: what the house takes at the end of a hand. The product of a
-- float64 and its conversion to an int are Go's: `percent_of` is the function `int(float64(n) * Percent)`.
mod Tests
pub mod Taken
use holdem.Prelude.{
  ℕ, ◌+◌, ◌-◌, Bool, true, false, ◌&&◌, ◌||◌, ltb, ◌==◌, if◌then◌else◌, List, [], ◌∷◌, length,
}
use holdem.Game.{Pot, Street, preflop}
use holdem.Pots.{total_pots}

pub record RakeConfig : Type 0 where
  pub percent_of : ℕ → ℕ
  pub cap : ℕ
  pub no_flop_no_drop : Bool

abbrev pub is_preflop : Street → Bool
is_preflop preflop = true
is_preflop _ = false

-- `CalculateRake`
pub calculate_rake : List Pot → Street → RakeConfig → ℕ
calculate_rake pots street config =
    let total = total_pots pots in
    let rake = config.percent_of total in
    if config.no_flop_no_drop && is_preflop street
    then 0
    else if total == 0
    then 0
    else if ltb config.cap rake
    then config.cap
    else rake

-- The loop from the last pot to the first: the pots after it, and what remains to be taken.
pub take_from_last : List Pot → ℕ → List Pot × ℕ
take_from_last [] remaining = ([], remaining)
take_from_last (p ∷ ps) rake =
    let (ps', remaining) = take_from_last ps rake in
    let deduct = if ltb p.amount remaining then p.amount else remaining in
    (record p { amount = p.amount - deduct } ∷ ps', remaining - deduct)

-- `ApplyRake`
pub apply_rake : List Pot → ℕ → List Pot
apply_rake pots rake = if rake == 0 || length pots == 0 then pots else (take_from_last pots rake).0

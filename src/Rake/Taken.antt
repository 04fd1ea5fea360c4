-- ===== src/Rake/Taken.antt =====
-- How much the rake is, and what is left in the pots.
use holdem.Prelude.{
  ℕ, ◌+◌, ◌-◌, ◌≤◌, ◌≡◌, ◌↔◌, ◌⊎◌, ◌<◌, false, refl, ap, false, ◌==◌, List, [], ◌∷◌, map, length,
  arith, Bool-cases, inl, inr,
}
use holdem.Game.{PlayerId, Pot, Street}
use holdem.Pots.{total_pots}
use holdem.Rake.{RakeConfig, calculate_rake, take_from_last, apply_rake, is_preflop}

abbrev pub eligibles : List Pot → List (List PlayerId)
eligibles = map (λ p. p.eligible)

take_from_last_lem :
    (ps : List Pot) (rake : ℕ)
    → (total_pots (take_from_last ps rake).0 + rake ≡ total_pots ps + (take_from_last ps rake).1)
      × ((take_from_last ps rake).1 ≡ rake - total_pots ps)
      × (eligibles (take_from_last ps rake).0 ≡ eligibles ps)
unfolding take_from_last
take_from_last_lem [] rake = (omega arith, omega arith, refl)
take_from_last_lem (p ∷ ps) rake =
    let (total, exact, same) = take_from_last_lem ps rake in
    (ground (arith, total), ground (arith, total, exact), ap (◌∷◌ p.eligible) same)

-- The rake exceeds neither the cap nor the percentage of the pots, and there is one exactly when the cap
-- and the percentage are not zero, the pots are not empty, and the hand has seen a flop or need not.
pub calculate_rake_bounds :
    (ps : List Pot) (s : Street) (c : RakeConfig)
    → (calculate_rake ps s c ≤ c.cap)
      × (calculate_rake ps s c ≤ c.percent_of (total_pots ps))
      × ((0 < calculate_rake ps s c) ↔ (
          (0 < c.cap)
          × (0 < c.percent_of (total_pots ps))
          × (0 < total_pots ps)
          × ((c.no_flop_no_drop ≡ false) ⊎ (is_preflop s ≡ false))))
unfolding calculate_rake
calculate_rake_bounds ps s c = (ground arith, ground arith, ground arith)

-- A rake of no more than the pots hold is taken from them exactly, and no pot changes its players.
pub apply_rake_lem :
    (ps : List Pot) (rake : ℕ)
    → rake ≤ total_pots ps
    → (total_pots (apply_rake ps rake) + rake ≡ total_pots ps)
      × (eligibles (apply_rake ps rake) ≡ eligibles ps)
unfolding apply_rake
apply_rake_lem [] rake h = ground arith
apply_rake_lem (p ∷ ps) rake h =
    let (total, exact, same) = take_from_last_lem (p ∷ ps) rake in
    let filled : (length (p ∷ ps) == 0) ≡ false = ground arith in
    elim (Bool-cases (rake == 0)) [
      | inl nothing ↦ rw nothing (ground arith, refl)
      | inr some_rake ↦ rw (some_rake, filled) (omega (arith, total, exact), same)
    ]

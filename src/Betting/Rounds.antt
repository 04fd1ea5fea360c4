-- ===== src/Betting/Rounds.antt =====
-- When a betting round is over.
use holdem.Prelude.{ℕ, ◌≤◌, ◌≡◌, ◌↔◌, refl, sym, subst, true, List, [], ◌∷◌, All, arith}
use holdem.Game.{Player, GameState, can_act}
use holdem.Betting.{is_betting_round_over, all_called}

-- A player who may still act has matched the bet.
abbrev pub Matched : ℕ → Player → Type 0
Matched bet p = can_act p ≡ true → bet ≤ p.current_bet

all_called_iff : (bet : ℕ) (ps : List Player) → (all_called bet ps ≡ true) ↔ All (Matched bet) ps
all_called_iff bet [] = (λ h. tt, λ h. refl)
all_called_iff bet (p ∷ ps) =
    let (to, from) = all_called_iff bet ps in
    (λ h. (λ able. ground arith, to (ground arith)), λ a. ground (arith, from a.1, a.0))

-- The round is over exactly when every player who can act has matched the bet; the others do not hold
-- it up.
pub is_betting_round_over_iff :
    (g : GameState) → (is_betting_round_over g ≡ true) ↔ All (Matched g.current_bet) g.players
unfolding is_betting_round_over
is_betting_round_over_iff g = all_called_iff g.current_bet g.players

All-Matched_zero : (ps : List Player) → All (Matched 0) ps
All-Matched_zero [] = tt
All-Matched_zero (p ∷ ps) = (λ able. omega arith, All-Matched_zero ps)

-- While nobody has bet on a street, the round counts as over.
pub unbet_round_over : (g : GameState) → g.current_bet ≡ 0 → is_betting_round_over g ≡ true
unbet_round_over g h =
    (is_betting_round_over_iff g).1
      (subst (λ b. All (Matched b) g.players) (sym h) (All-Matched_zero g.players))

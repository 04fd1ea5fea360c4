-- ===== src/Game/Chips.antt =====
-- Where the chips of a hand are: in the stacks, in front of the players, and in the pots.
use holdem.Prelude.{ℕ, ◌+◌, List, sum_of}
use holdem.Game.{GameState, Player, Pot}

abbrev pub held : Player → ℕ
held p = p.stack + p.current_bet

abbrev pub stacks : List Player → ℕ
stacks = sum_of (λ p. p.stack)

abbrev pub bets : List Player → ℕ
bets = sum_of (λ p. p.current_bet)

abbrev pub holdings : List Player → ℕ
holdings = sum_of held

-- the chips of players and pots together
abbrev pub chips : GameState → ℕ
chips g = holdings g.players + sum_of (λ (p : Pot). p.amount) g.pots

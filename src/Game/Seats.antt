-- ===== src/Game/Seats.antt =====
-- Sums over the players that an update of one field leaves alone.
use holdem.Prelude.{◌+◌, ◌≡◌, List, [], ◌∷◌, arith, All, ◌≢◌}
use holdem.Game.{Player}
use holdem.Game.Chips.{stacks, bets, holdings}

pub holdings-eq : (ps : List Player) → holdings ps ≡ stacks ps + bets ps
holdings-eq [] = omega arith
holdings-eq (p ∷ ps) = omega (arith, holdings-eq ps)

-- No two players have one id.
abbrev pub DistinctIds : List Player → Type 0
DistinctIds [] = Unit
DistinctIds (p ∷ ps) = All (λ (q : Player). q.id ≢ p.id) ps × DistinctIds ps

-- ===== src/Pots.antt =====
-- services/engine/internal/domain/pot.go, and `CollectBets` and `mergePots` of betting.go: the bets of a
-- street become a main pot and side pots. Go visits a map in an order of its own: `order` is that order,
-- a function of the keys to visit. Each round of `Calculate` has other keys, so it may differ in each.
mod Tests
pub mod Layers
pub mod Shares
pub mod Collected
use holdem.Prelude.{
  ℕ, zero, suc, ◌+◌, ◌-◌, ◌*◌, Bool, true, false, ltb, ◌==◌, if◌then◌else◌, List, [], ◌∷◌, ◌++◌,
  length, map, sum_of,
}
use holdem.Prelude.Dict.{Dict, insert, keys}
use holdem.Game.{PlayerId, Player, Pot, GameState}

-- the contributions that are above zero
abbrev pub positive : Dict ℕ → Dict ℕ
positive [] = []
positive ((k, n) ∷ m) = elim (ltb 0 n) [ true ↦ (k, n) ∷ positive m | false ↦ positive m ]

-- the least amount, given the least so far; the source's -1 is the absence of one
abbrev pub least : ℕ → Dict ℕ → ℕ
least m [] = m
least m ((k, n) ∷ r) = least (if ltb n m then n else m) r

abbrev pub min_contrib : Dict ℕ → ℕ
min_contrib [] = 0
min_contrib ((k, n) ∷ r) = least n r

-- every amount less m, without those that come to zero
abbrev pub deduct : ℕ → Dict ℕ → Dict ℕ
deduct m [] = []
deduct m ((k, n) ∷ r) = elim (n - m == 0) [ true ↦ deduct m r | false ↦ (k, n - m) ∷ deduct m r ]

module _ (order : List PlayerId → List PlayerId) where
  -- the pot of one round
  abbrev pub layer : Dict ℕ → Pot
  layer r = record { amount = min_contrib r * length r; eligible = order (keys r) }

  -- for len(remaining) > 0
  pub layers : ℕ → Dict ℕ → List Pot
  layers zero r = []
  layers (suc fuel) [] = []
  layers (suc fuel) (e ∷ r) = layer (e ∷ r) ∷ layers fuel (deduct (min_contrib (e ∷ r)) (e ∷ r))

  -- `Calculate`. Each round removes a player, so there are no more rounds than contributions.
  pub calculate : Dict ℕ → List Pot
  calculate contributions = let r = positive contributions in layers (length r) r

-- `Total`
abbrev pub total_pots : List Pot → ℕ
total_pots = sum_of (λ p. p.amount)

-- `mergePots`
pub merge_pots : List Pot → List Pot → List Pot
merge_pots [] new = new
merge_pots (p ∷ []) [] = p ∷ []
merge_pots (p ∷ []) (q ∷ new) = record p { amount = p.amount + q.amount } ∷ new
merge_pots (p ∷ p' ∷ rest) new = p ∷ merge_pots (p' ∷ rest) new

-- the loop of `CollectBets` over the players: the contributions, and the players without their bets
abbrev pub contributions : List Player → Dict ℕ → Dict ℕ
contributions [] m = m
contributions (p ∷ ps) m =
    contributions ps (if ltb 0 p.current_bet then insert p.id p.current_bet m else m)

abbrev pub clear_bet : Player → Player
clear_bet p = if ltb 0 p.current_bet then record p { current_bet = 0 } else p

-- `CollectBets`
unfoldable pub collect_bets : (List PlayerId → List PlayerId) → GameState → GameState
collect_bets order g = record g {
  players = map clear_bet g.players;
  pots = merge_pots g.pots (calculate order (contributions g.players []));
}

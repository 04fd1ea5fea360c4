-- ===== src/Pots/Collected.antt =====
-- `CollectBets` moves the bets of a street into the pots.
use holdem.Prelude.{
  ℕ, ◌+◌, ◌≡◌, ◌≢◌, refl, sym, ap, subst, ltb, Bool-cases, inl, inr, List, [], ◌∷◌, ◌++◌, map, All,
  arith, none,
}
use holdem.Prelude.Dict.{Dict, total, lookup, insert, total-insert_new, lookup-insert}
use holdem.Game.{PlayerId, Player, Pot, GameState}
use holdem.Game.Chips.{holdings, stacks, bets, chips}
use holdem.Game.Seats.{DistinctIds, holdings-eq}
use holdem.Pots.{calculate, contributions, clear_bet, collect_bets, merge_pots, total_pots}
use holdem.Pots.Shares.{total-calculate}

total-merge_pots :
    (ps qs : List Pot) → total_pots (merge_pots ps qs) ≡ total_pots ps + total_pots qs
unfolding merge_pots
total-merge_pots [] qs = omega arith
total-merge_pots (p ∷ []) [] = omega arith
total-merge_pots (p ∷ []) (q ∷ qs) = omega arith
total-merge_pots (p ∷ p' ∷ rest) qs = omega (arith, total-merge_pots (p' ∷ rest) qs)

-- The map has no entry yet for any of the players.
Unlisted : Dict ℕ → List Player → Type 0
Unlisted m [] = Unit
Unlisted m (p ∷ ps) = (lookup p.id m ≡ none) × Unlisted m ps

Unlisted-insert :
    (k n : ℕ) (m : Dict ℕ) (ps : List Player)
    → All (λ (q : Player). q.id ≢ k) ps
    → Unlisted m ps
    → Unlisted (insert k n m) ps
unfolding Unlisted
Unlisted-insert k n m [] d u = tt
Unlisted-insert k n m (p ∷ ps) d u =
    (rw (lookup-insert k p.id n m) (ground arith), Unlisted-insert k n m ps d.1 u.1)

total-contributions :
    (ps : List Player) (m : Dict ℕ)
    → DistinctIds ps
    → Unlisted m ps
    → total (contributions ps m) ≡ total m + bets ps
unfolding Unlisted
total-contributions [] m d u = omega arith
total-contributions (p ∷ ps) m d u = elim (Bool-cases (ltb 0 p.current_bet)) [
  | inl bet ↦ rw bet (
      omega (
        arith,
        total-contributions ps (insert p.id p.current_bet m) d.1
            (Unlisted-insert p.id p.current_bet m ps d.0 u.1),
        total-insert_new p.id p.current_bet m u.0,
      ))
  | inr without ↦
      let nothing : p.current_bet ≡ 0 = ground arith in
      rw without (omega (arith, total-contributions ps m d.1 u.1))
]

holdings-clear_bet : (ps : List Player) → holdings (map clear_bet ps) ≡ stacks ps
holdings-clear_bet [] = refl
holdings-clear_bet (p ∷ ps) = ground (arith, holdings-clear_bet ps)

stacks-clear_bet : (ps : List Player) → stacks (map clear_bet ps) ≡ stacks ps
stacks-clear_bet [] = refl
stacks-clear_bet (p ∷ ps) = ground (arith, stacks-clear_bet ps)

bets-clear_bet : (ps : List Player) → All (λ (p : Player). p.current_bet ≡ 0) (map clear_bet ps)
bets-clear_bet [] = tt
bets-clear_bet (p ∷ ps) = (ground arith, bets-clear_bet ps)

ids-clear_bet :
    (k : ℕ) (ps : List Player)
    → All (λ (q : Player). q.id ≢ k) ps
    → All (λ (q : Player). q.id ≢ k) (map clear_bet ps)
ids-clear_bet k [] d = tt
ids-clear_bet k (p ∷ ps) d = (ground (arith, d.0), ids-clear_bet k ps d.1)

pub DistinctIds-clear_bet : (ps : List Player) → DistinctIds ps → DistinctIds (map clear_bet ps)
DistinctIds-clear_bet [] d = tt
DistinctIds-clear_bet (p ∷ ps) d =
    let same : (clear_bet p).id ≡ p.id = ground arith in
    (
      subst (λ i. All (λ (q : Player). q.id ≢ i) (map clear_bet ps)) (sym same)
          (ids-clear_bet p.id ps d.0),
      DistinctIds-clear_bet ps d.1,
    )

Unlisted-nil : (ps : List Player) → Unlisted [] ps
unfolding Unlisted
Unlisted-nil [] = tt
Unlisted-nil (p ∷ ps) = (refl, Unlisted-nil ps)

-- When no two players share an id, collecting the bets loses no chip, whatever order Go visits the map
-- in: the pots grow by the bets of the street, every bet is back at zero, and no stack has changed.
pub collect_bets_lem :
    (order : List PlayerId → List PlayerId) (g : GameState)
    → DistinctIds g.players
    → (chips (collect_bets order g) ≡ chips g)
      × (total_pots (collect_bets order g).pots ≡ total_pots g.pots + bets g.players)
      × All (λ (p : Player). p.current_bet ≡ 0) (collect_bets order g).players
      × (stacks (collect_bets order g).players ≡ stacks g.players)
unfolding collect_bets
collect_bets_lem order g d =
    let pots : total_pots (collect_bets order g).pots ≡ total_pots g.pots + bets g.players = omega (
      arith,
      total-merge_pots g.pots (calculate order (contributions g.players [])),
      total-calculate order (contributions g.players []),
      total-contributions g.players [] d (Unlisted-nil g.players),
    ) in
    let cleared = holdings-clear_bet g.players in
    (
      omega (arith, pots, cleared, holdings-eq g.players),
      pots,
      bets-clear_bet g.players,
      stacks-clear_bet g.players,
    )

-- The chips of the first new pot join the last old pot, which keeps its eligible players: those of
-- the new pot are dropped. The other pots stay as they are.
pub merge_pots_eligible :
    (old : List Pot) (p q : Pot) (new : List Pot)
    → merge_pots (old ++ p ∷ []) (q ∷ new)
      ≡ old ++ record { amount = p.amount + q.amount; eligible = p.eligible } ∷ new
unfolding merge_pots
merge_pots_eligible [] p q new = refl
merge_pots_eligible (x ∷ []) p q new = refl
merge_pots_eligible (x ∷ y ∷ old) p q new = ap (◌∷◌ x) (merge_pots_eligible (y ∷ old) p q new)

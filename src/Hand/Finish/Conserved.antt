-- ===== src/Hand/Finish/Conserved.antt =====
-- The chips at the end of a hand: stacks, rake, and the pots without a contender.
use holdem.Prelude.{
  ℕ, ◌+◌, ◌≤◌, ◌≡◌, refl, subst, Bool, true, false, if◌then◌else◌, Bool-cases, inl, inr, List, [],
  ◌∷◌, map, keep_if, All, sum_of, arith,
}
use holdem.Cards.{Card}
use holdem.Game.{PlayerId, Player, Pot, GameState, in_hand, active_players}
use holdem.Game.Chips.{stacks, bets}
use holdem.Game.Seats.{DistinctIds}
use holdem.Pots.{total_pots, collect_bets, clear_bet}
use holdem.Pots.Collected.{collect_bets_lem, DistinctIds-clear_bet}
use holdem.Rake.{RakeConfig, calculate_rake}
use holdem.Rake.Taken.{apply_rake_lem, calculate_rake_bounds}
use holdem.Hand.Finish.{
  HandEvaluator, award, winners_among, showdown_winners, determine_winners, raked, finished,
}
use holdem.Hand.Finish.Payout.{Seated, stacks-winners_to_map, stacks-award_nil, award-single}
use holdem.Hand.Finish.Winners.{Laws}
use holdem.Hand.Finish.Contenders.{has_contender, unclaimed, won-unclaimed, winners-Seated, by_pot}

at_showdown :
    (ev : HandEvaluator) (laws : Laws ev) (board : List Card) (pots : List Pot)
    (contending players : List Player)
    → DistinctIds players
    → ((k : PlayerId) → Seated k contending → Seated k players)
    → stacks (award players (showdown_winners ev board pots contending))
        + sum_of (λ pot. if has_contender contending pot.eligible then 0 else pot.amount) pots
      ≡ stacks players + total_pots pots
unfolding showdown_winners
at_showdown ev laws board pots contending players d sub = omega (
  arith,
  stacks-winners_to_map pots (by_pot ev board laws contending pots) [] players d (
      All-Seated-sub (by_pot ev board laws contending pots)
        (winners-Seated ev board laws contending pots)),
  stacks-award_nil players,
  won-unclaimed ev board laws contending pots,
)
  where
    All-Seated :
        (ks : List PlayerId) → All (λ k. Seated k contending) ks → All (λ k. Seated k players) ks
    All-Seated [] a = tt
    All-Seated (k ∷ ks) a = (sub k a.0, All-Seated ks a.1)

    All-Seated-sub :
        (kss : List (List PlayerId))
        → All (All (λ k. Seated k contending)) kss
        → All (All (λ k. Seated k players)) kss
    All-Seated-sub [] a = tt
    All-Seated-sub (ks ∷ kss) a = (All-Seated ks a.0, All-Seated-sub kss a.1)

-- The awards for given players of the hand pay out the pots, but for those that nobody can claim.
stacks-winners_among :
    (ev : HandEvaluator) (laws : Laws ev) (board : List Card) (pots : List Pot)
    (contending players : List Player)
    → DistinctIds players
    → ((k : PlayerId) → Seated k contending → Seated k players)
    → stacks (award players (winners_among ev board pots contending)) + unclaimed contending pots
      ≡ stacks players + total_pots pots
stacks-winners_among ev laws board pots [] players d sub =
    at_showdown ev laws board pots [] players d sub
stacks-winners_among ev laws board pots (p ∷ []) players d sub =
    omega (arith, award-single p.id (total_pots pots) players d (sub p.id (inl refl)))
stacks-winners_among ev laws board pots (p ∷ q ∷ ps) players d sub =
    at_showdown ev laws board pots (p ∷ q ∷ ps) players d sub

Seated-keep_if :
    (test : Player → Bool) (ps : List Player) (k : PlayerId)
    → Seated k (keep_if test ps)
    → Seated k ps
Seated-keep_if test [] k s = s
Seated-keep_if test (p ∷ ps) k s = elim (Bool-cases (test p)) [
  | inl t ↦
      let s' : Seated k (p ∷ keep_if test ps) = subst (Seated k) (kept t) s in
      elim s' [ inl e ↦ inl e | inr m ↦ inr (Seated-keep_if test ps k m) ]
  | inr t ↦ inr (Seated-keep_if test ps k (subst (Seated k) (dropped t) s))
]
  where
    kept : test p ≡ true → keep_if test (p ∷ ps) ≡ p ∷ keep_if test ps
    kept t = rw (t, keep_if)

    dropped : test p ≡ false → keep_if test (p ∷ ps) ≡ keep_if test ps
    dropped t = rw (t, keep_if)

-- With an evaluator that compares its results by a total preorder, when no two players share an id
-- and the percentage takes no more than there is, the end of a hand pays the stacks exactly the
-- chips of the hand, less the rake and the pots that nobody can claim, whatever order Go visits its
-- maps in.
pub finished_pays :
    (ev : HandEvaluator) (order : List PlayerId → List PlayerId) (config : RakeConfig)
    (g : GameState)
    → Laws ev
    → DistinctIds g.players
    → config.percent_of (total_pots (collect_bets order g).pots)
      ≤ total_pots (collect_bets order g).pots
    → let r = raked ev order config g in
      stacks (finished ev order config g).players
        + unclaimed (active_players r) r.pots
        + calculate_rake (collect_bets order g).pots g.street config
      ≡ stacks g.players + bets g.players + total_pots g.pots
unfolding finished raked determine_winners collect_bets
finished_pays ev order config g laws d part =
    let c : GameState = collect_bets order g in
    let rake : ℕ = calculate_rake c.pots g.street config in
    let r : GameState = raked ev order config g in
    let (kept, gross, zero_bets, same) = collect_bets_lem order g d in
    let (left, players) =
      apply_rake_lem c.pots rake
        (omega (arith, (calculate_rake_bounds c.pots g.street config).1, part)) in
    omega (
      arith,
      stacks-winners_among ev laws g.board r.pots (active_players r) (map clear_bet g.players)
          (DistinctIds-clear_bet g.players d) (Seated-keep_if in_hand (map clear_bet g.players)),
      left,
      gross,
      same,
    )

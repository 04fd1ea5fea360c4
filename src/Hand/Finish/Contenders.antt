-- ===== src/Hand/Finish/Contenders.antt =====
-- Which pots have a contender, and which players have a result at a showdown.
use holdem.Prelude.{
  ℕ, ◌+◌, ◌≡◌, ◌≢◌, ◌⊎◌, ◌↔◌, refl, ap, subst, Bool, true, false, ◌==◌, ◌||◌, if◌then◌else◌,
  Bool-cases, inl, inr, List, [], ◌∷◌, map, All, In, sum_of, arith,
}
use holdem.Prelude.Dict.{Dict, insert, lookup-insert}
use holdem.Cards.{Card}
use holdem.Game.{PlayerId, Player, Pot}
use holdem.Pots.{total_pots}
use holdem.Evaluator.{HandResult}
use holdem.Hand.Finish.{HandEvaluator, best_hands_in_pot, results_of}
use holdem.Hand.Finish.Payout.{Seated, won}
use holdem.Hand.Finish.Winners.{
  Laws, Known, AllValid, NotAbove, best_hands_in_pot_iff, best_hands_in_pot-nonempty,
}

abbrev pub seated_in : List Player → PlayerId → Bool
seated_in [] k = false
seated_in (p ∷ ps) k = p.id == k || seated_in ps k

-- One of the listed ids is the id of one of the players.
abbrev pub has_contender : List Player → List PlayerId → Bool
has_contender ps [] = false
has_contender ps (k ∷ ks) = seated_in ps k || has_contender ps ks

-- The chips of the pots for which no eligible player is in the hand any more. Where one player is left he
-- takes every pot.
abbrev pub unclaimed : List Player → List Pot → ℕ
unclaimed (p ∷ []) pots = 0
unclaimed ps pots = sum_of (λ pot. if has_contender ps pot.eligible then 0 else pot.amount) pots

seated_in-Seated : (ps : List Player) (k : PlayerId) → (seated_in ps k ≡ true) ↔ Seated k ps
seated_in-Seated [] k = (λ h. absurd (cc), λ s. absurd s)
seated_in-Seated (p ∷ ps) k =
    let (to, from) = seated_in-Seated ps k in
    (
      λ h. elim (Bool-cases (p.id == k)) [
        | inl e ↦ inl (ground arith)
        | inr e ↦ inr (to (ground arith))
      ],
      λ s. elim s [ inl e ↦ ground arith | inr t ↦ ground (arith, from t) ],
    )

won_take :
    (pot : Pot) (pots : List Pot) (ws : List PlayerId) (rest : List (List PlayerId))
    → ws ≢ []
    → won (pot ∷ pots) (ws ∷ rest) ≡ pot.amount + won pots rest
won_take pot pots [] rest h = absurd (h refl)
won_take pot pots (w ∷ ws) rest h = refl

won_skip :
    (pot : Pot) (pots : List Pot) (ws : List PlayerId) (rest : List (List PlayerId))
    → ws ≡ []
    → won (pot ∷ pots) (ws ∷ rest) ≡ won pots rest
won_skip pot pots ws rest h = ap (λ x. won (pot ∷ pots) (x ∷ rest)) h

no_member : (ws : List PlayerId) → ((w : PlayerId) → In w ws → ⊥) → ws ≡ []
no_member [] h = refl
no_member (w ∷ ws) h = absurd (h w (inl refl))

module _ (ev : HandEvaluator) (board : List Card) where
  Known-insert :
      (k j : PlayerId) (r : HandResult) (m : Dict HandResult)
      → Known (insert k r m) j ↔ ((k ≡ j) ⊎ Known m j)
  Known-insert k j r m =
      let at = lookup-insert k j r m in
      (
        λ (x, e). elim (Bool-cases (k == j)) [
          | inl t ↦ inl (ground arith)
          | inr t ↦ inr (x, ground (arith, at))
        ],
        λ s. elim (Bool-cases (k == j)) [
          | inl t ↦ (r, ground (arith, at))
          | inr t ↦ elim s [ inl e ↦ absurd (ground arith) | inr (x, e) ↦ (x, ground (arith, at)) ]
        ],
      )

  -- The players with a result are those whom the loop visited.
  Known-results_of :
      (ps : List Player) (m : Dict HandResult) (k : PlayerId)
      → Known (results_of ev board ps m) k ↔ (Seated k ps ⊎ Known m k)
  unfolding results_of
  Known-results_of [] m k = (λ h. inr h, λ s. elim s [ inl n ↦ absurd n | inr h ↦ h ])
  Known-results_of (p ∷ ps) m k =
      let r : HandResult = ev.best p.id p.hole_cards board in
      let (to, from) = Known-results_of ps (insert p.id r m) k in
      let (in_to, in_from) = Known-insert p.id k r m in
      (
        λ h. elim (to h) [
          | inl s ↦ inl (inr s)
          | inr kn ↦ elim (in_to kn) [ inl e ↦ inl (inl e) | inr old ↦ inr old ]
        ],
        λ s. elim s [
          | inl seat ↦ elim seat [ inl e ↦ from (inr (in_from (inl e))) | inr t ↦ from (inl t) ]
          | inr old ↦ from (inr (in_from (inr old)))
        ],
      )

  module _ (laws : Laws ev) where
    results_of-AllValid :
        (ps : List Player) (m : Dict HandResult)
        → AllValid laws.Valid m
        → AllValid laws.Valid (results_of ev board ps m)
    unfolding results_of
    results_of-AllValid [] m v = v
    results_of-AllValid (p ∷ ps) m v = results_of-AllValid ps (insert p.id r m) λ k x e.
        elim (Bool-cases (p.id == k)) [
          | inl t ↦
              let same : r ≡ x = ground (arith, lookup-insert p.id k r m) in
              subst laws.Valid same (laws.best_valid p.id p.hole_cards board)
          | inr t ↦ v k x (ground (arith, lookup-insert p.id k r m))
        ]
      where
        r : HandResult
        r = ev.best p.id p.hole_cards board

  -- the results of the showdown
  abbrev showdown_results : List Player → Dict HandResult
  showdown_results ps = results_of ev board ps []

  Known-iff : (ps : List Player) (k : PlayerId) → Known (showdown_results ps) k ↔ Seated k ps
  Known-iff ps k =
      let (to, from) = Known-results_of ps [] k in
      (λ h. elim (to h) [ inl s ↦ s | inr (x, e) ↦ absurd (cc) ], λ s. from (inl s))

  module _ (laws : Laws ev) (ps : List Player) where
    valid : AllValid laws.Valid (showdown_results ps)
    valid = results_of-AllValid laws ps [] (λ k r e. absurd (cc))

    -- the winners of each pot
    abbrev pub by_pot : List Pot → List (List PlayerId)
    by_pot = map (λ (pot : Pot). best_hands_in_pot ev pot.eligible (showdown_results ps))

    All-of_In :
        (P : PlayerId → Type 0) (ks : List PlayerId) → ((k : PlayerId) → In k ks → P k) → All P ks
    All-of_In P [] f = tt
    All-of_In P (k ∷ ks) f = (f k (inl refl), All-of_In P ks (λ j m. f j (inr m)))

    pub winners-Seated : (pots : List Pot) → All (All (λ k. Seated k ps)) (by_pot pots)
    winners-Seated [] = tt
    winners-Seated (pot ∷ pots) = (
      All-of_In _ _ (λ k m.
          (Known-iff ps k).0
            ((best_hands_in_pot_iff ev laws (showdown_results ps) valid pot.eligible k).0 m).1),
      winners-Seated pots,
    )

    contender :
        (ks : List PlayerId) → has_contender ps ks ≡ true → (k : PlayerId) × In k ks × Seated k ps
    contender [] h = absurd (cc)
    contender (k ∷ ks) h = elim (Bool-cases (seated_in ps k)) [
      | inl t ↦ (k, inl refl, (seated_in-Seated ps k).0 t)
      | inr t ↦ let (j, m, s) = contender ks (ground arith) in (j, inr m, s)
    ]

    no_contender :
        (ks : List PlayerId) (k : PlayerId) → has_contender ps ks ≡ false → In k ks → ¬ Seated k ps
    no_contender [] k h m s = m
    no_contender (j ∷ ks) k h (inl e) s =
        let t : seated_in ps k ≡ true = (seated_in-Seated ps k).1 s in
        ground (arith, t, ap (seated_in ps) e)
    no_contender (j ∷ ks) k h (inr m) s = no_contender ks k (ground arith) m s

    -- A pot has a winner exactly when one of its players is still in the hand.
    pub won-unclaimed :
        (pots : List Pot)
        → won pots (by_pot pots)
            + sum_of (λ pot. if has_contender ps pot.eligible then 0 else pot.amount) pots
          ≡ total_pots pots
    won-unclaimed [] = omega arith
    won-unclaimed (pot ∷ pots) = elim (Bool-cases (has_contender ps pot.eligible)) [
      | inl t ↦
          let (k, m, seat) = contender pot.eligible t in
          let taken = won_take pot pots _ (by_pot pots) (inhabited k m ((Known-iff ps k).1 seat)) in
          rw (taken, t) (omega (arith, won-unclaimed pots))
      | inr t ↦
          let skipped = won_skip pot pots _ (by_pot pots) (
            no_member _ λ k m.
              let (el, kn, top) = (members k).0 m in
              no_contender pot.eligible k t el ((Known-iff ps k).0 kn)) in
          rw (skipped, t) (omega (arith, won-unclaimed pots))
    ]
      where
        members :
            (w : PlayerId)
            → In w (best_hands_in_pot ev pot.eligible (showdown_results ps)) ↔ (
                In w pot.eligible
                × Known (showdown_results ps) w
                × ((k : PlayerId)
                    → In k pot.eligible
                    → Known (showdown_results ps) k
                    → NotAbove ev laws (showdown_results ps) valid k w))
        members = best_hands_in_pot_iff ev laws (showdown_results ps) valid pot.eligible

        inhabited :
            (k : PlayerId)
            → In k pot.eligible
            → Known (showdown_results ps) k
            → best_hands_in_pot ev pot.eligible (showdown_results ps) ≢ []
        inhabited = best_hands_in_pot-nonempty ev laws (showdown_results ps) valid pot.eligible

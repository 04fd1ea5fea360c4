-- ===== src/Hand/Finish/Payout.antt =====
-- The winners' map and what it adds to the stacks.
use native.Mathlib.Nat.{div-add-mod', mod-lt}
use holdem.Prelude.{
  ℕ, ◌+◌, ◌-◌, ◌*◌, ◌/◌, ◌%◌, min, ◌≡◌, ◌≢◌, refl, ap, ◌∙◌, subst, ltb, Bool-cases, inl, inr, List,
  [], ◌∷◌, length, All, Any, arith,
}
use holdem.Prelude.Dict.{Dict, get_or, add_to, lookup-add_to}
use holdem.Game.{PlayerId, Player, Pot}
use holdem.Game.Chips.{stacks}
use holdem.Game.Seats.{DistinctIds}
use holdem.Hand.Finish.{award, award_one, pay, winners_to_map}

-- Someone among the players has the id.
abbrev pub Seated : PlayerId → List Player → Type 0
Seated k = Any (λ p. p.id ≡ k)

stack-award_one : (w : Dict ℕ) (p : Player) → (award_one w p).stack ≡ p.stack + get_or p.id w
stack-award_one w p = ground arith

award_others :
    (k n : ℕ) (m : Dict ℕ) (ps : List Player)
    → All (λ (q : Player). q.id ≢ k) ps
    → stacks (award ps (add_to k n m)) ≡ stacks (award ps m)
award_others k n m [] d = refl
award_others k n m (p ∷ ps) d =
    let head : (award_one (add_to k n m) p).stack ≡ (award_one m p).stack =
      stack-award_one (add_to k n m) p ∙ (rw (lookup-add_to k p.id n m) (ground arith)) in
    omega (arith, head, award_others k n m ps d.1)

award_pays :
    (k n : ℕ) (m : Dict ℕ) (p : Player)
    → p.id ≡ k
    → (award_one (add_to k n m) p).stack ≡ (award_one m p).stack + n
award_pays k n m p e =
    stack-award_one (add_to k n m) p ∙ rw (lookup-add_to k p.id n m) (ground arith)

Seated-ne :
    (k j : PlayerId) (ps : List Player) → All (λ (q : Player). q.id ≢ j) ps → Seated k ps → k ≢ j
Seated-ne k j [] d s e = s
Seated-ne k j (p ∷ ps) d (inl same) e = d.0 (same ∙ e)
Seated-ne k j (p ∷ ps) d (inr s) e = Seated-ne k j ps d.1 s e

award_skips :
    (k n : ℕ) (m : Dict ℕ) (p : Player)
    → k ≢ p.id
    → (award_one (add_to k n m) p).stack ≡ (award_one m p).stack
award_skips k n m p e =
    stack-award_one (add_to k n m) p ∙ rw (lookup-add_to k p.id n m) (ground arith)

-- A player's award grows by what is added to his entry.
award-add_to :
    (k n : ℕ) (m : Dict ℕ) (ps : List Player)
    → DistinctIds ps
    → Seated k ps
    → stacks (award ps (add_to k n m)) ≡ stacks (award ps m) + n
award-add_to k n m [] d s = absurd s
award-add_to k n m (p ∷ ps) d (inl e) = omega (
  arith,
  award_pays k n m p e,
  award_others k n m ps (subst (λ i. All (λ (q : Player). q.id ≢ i) ps) e d.0),
)
award-add_to k n m (p ∷ ps) d (inr s) =
    omega (arith, award_skips k n m p (Seated-ne k p.id ps d.0 s), award-add_to k n m ps d.1 s)

-- The shares of a pot: each winner's, and one more chip for the first ones.
stacks-pay :
    (share remainder j : ℕ) (ids : List PlayerId) (m : Dict ℕ) (ps : List Player)
    → DistinctIds ps
    → All (λ k. Seated k ps) ids
    → stacks (award ps (pay share remainder j ids m))
      ≡ stacks (award ps m) + share * length ids + min (remainder - j) (length ids)
unfolding pay
stacks-pay share remainder j [] m ps d a = omega arith
stacks-pay share remainder j (k ∷ ids) m ps d a =
    let paid : Dict ℕ = add_to k share m in
    let one = award-add_to k share m ps d a.0 in
    elim (Bool-cases (ltb j remainder)) [
      | inl extra ↦ rw extra (
          ground (
            arith,
            one,
            award-add_to k 1 paid ps d a.0,
            stacks-pay share remainder (j + 1) ids (add_to k 1 paid) ps d a.1,
          ))
      | inr none_left ↦
          rw none_left (ground (arith, one, stacks-pay share remainder (j + 1) ids paid ps d a.1))
    ]

-- the chips of the pots that have a winner
abbrev pub won : List Pot → List (List PlayerId) → ℕ
won [] by_pot = 0
won (pot ∷ pots) [] = 0
won (pot ∷ pots) ([] ∷ by_pot) = won pots by_pot
won (pot ∷ pots) ((k ∷ ids) ∷ by_pot) = pot.amount + won pots by_pot

-- Every pot with a winner is paid out to the last chip, and only such pots.
pub stacks-winners_to_map :
    (pots : List Pot) (by_pot : List (List PlayerId)) (m : Dict ℕ) (ps : List Player)
    → DistinctIds ps
    → All (All (λ k. Seated k ps)) by_pot
    → stacks (award ps (winners_to_map pots by_pot m)) ≡ stacks (award ps m) + won pots by_pot
unfolding winners_to_map
stacks-winners_to_map [] by_pot m ps d a = omega arith
stacks-winners_to_map (pot ∷ pots) [] m ps d a = omega arith
stacks-winners_to_map (pot ∷ pots) ([] ∷ by_pot) m ps d a =
    stacks-winners_to_map pots by_pot m ps d a.1
stacks-winners_to_map (pot ∷ pots) ((k ∷ ids) ∷ by_pot) m ps d a =
    let n : ℕ = length (k ∷ ids) in
    let paid : Dict ℕ = pay (pot.amount / n) (pot.amount % n) 0 (k ∷ ids) m in
    omega (
      arith,
      stacks-winners_to_map pots by_pot paid ps d a.1,
      stacks-pay (pot.amount / n) (pot.amount % n) 0 (k ∷ ids) m ps d a.0,
      div-add-mod' pot.amount n,
      mod-lt pot.amount {m = n} (omega arith),
    )

pub stacks-award_nil : (ps : List Player) → stacks (award ps []) ≡ stacks ps
stacks-award_nil [] = refl
stacks-award_nil (p ∷ ps) = omega (arith, stacks-award_nil ps)

pub award-single :
    (k n : ℕ) (ps : List Player)
    → DistinctIds ps
    → Seated k ps
    → stacks (award ps ((k, n) ∷ [])) ≡ stacks ps + n
award-single k n ps d s =
    let same : add_to k n [] ≡ (k, n) ∷ [] = ap (λ (v : ℕ). (k, v) ∷ []) (omega arith) in
    omega (
      arith,
      award-add_to k n [] ps d s,
      stacks-award_nil ps,
      ap (λ (w : Dict ℕ). stacks (award ps w)) same,
    )

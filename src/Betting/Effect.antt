-- ===== src/Betting/Effect.antt =====
-- What an accepted action does to the state of a betting round.
use holdem.Prelude.{
  ℕ, zero, suc, ◌≤◌, ◌≡◌, refl, sym, ap, some, List, [], ◌∷◌, ok, arith, get_elem?, set, sum_of,
  sum_of-set, All, All-set, All-get_elem?, subst,
}
use holdem.Game.{Player, Action, ActionType, fold, check, call, raise, GameState, folded, Pot}
use holdem.Game.Chips.{held, holdings, chips}
use holdem.Betting.{apply_action, act, call_bet, raise_bet}
use holdem.Betting.Accepted.{Legal, LegalMove}

-- Within a street: nobody's bet is above the bet to match, and the raises keep to the cap.
pub record InRound (g : GameState) : Type 0 where
  pub covered : All (λ (p : Player). p.current_bet ≤ g.current_bet) g.players
  pub capped : g.raises_this_street ≤ g.max_raises_per_street

-- the player who acts, afterwards, and the bet to match
moved : GameState → Player → ℕ → ActionType → Player
moved g p n fold = record p { status = folded }
moved g p n check = p
moved g p n call = call_bet g.current_bet p
moved g p n raise = raise_bet n p
moved g p n ActionType.all_in = p
moved g p n ActionType.unknown = p

held-moved :
    (g : GameState) (p : Player) (n : ℕ) (t : ActionType)
    → LegalMove g p n t
    → p.current_bet ≤ g.current_bet
    → held (moved g p n t) ≡ held p
unfolding moved
held-moved g p n fold l h = refl
held-moved g p n check l h = refl
held-moved g p n call l h = ground arith
held-moved g p n raise l h = ground arith
held-moved g p n ActionType.all_in l h = refl
held-moved g p n ActionType.unknown l h = refl

set_self : {A : Type 0} (xs : List A) (i : ℕ) {v : A} → get_elem? xs i ≡ some v → set xs i v ≡ xs
set_self [] i h = refl
set_self (x ∷ xs) zero h = ground arith
set_self (x ∷ xs) (suc i) h = ap (◌∷◌ x) (set_self xs i h)

-- Every action writes the active player's place and no other.
players-act :
    (g : GameState) (p : Player) (n : ℕ) (t : ActionType)
    → get_elem? g.players g.active_player ≡ some p
    → (act g p n t).players ≡ set g.players g.active_player (moved g p n t)
unfolding act moved
players-act g p n fold e = refl
players-act g p n check e = sym (set_self g.players g.active_player e)
players-act g p n call e = refl
players-act g p n raise e = refl
players-act g p n ActionType.all_in e = sym (set_self g.players g.active_player e)
players-act g p n ActionType.unknown e = sym (set_self g.players g.active_player e)

-- The fields that an action can change besides the players.
act_fields :
    (g : GameState) (p : Player) (n : ℕ) (t : ActionType)
    → LegalMove g p n t
    → p.current_bet ≤ g.current_bet
    → g.raises_this_street ≤ g.max_raises_per_street
    → (g.current_bet ≤ (act g p n t).current_bet)
      × ((moved g p n t).current_bet ≤ (act g p n t).current_bet)
      × ((act g p n t).raises_this_street ≤ g.max_raises_per_street)
      × ((act g p n t).max_raises_per_street ≡ g.max_raises_per_street)
      × ((act g p n t).pots ≡ g.pots)
unfolding act moved
act_fields g p n fold l h c = ground arith
act_fields g p n check l h c = ground arith
act_fields g p n call l h c = ground arith
act_fields g p n raise l h c = ground arith
act_fields g p n ActionType.all_in l h c = ground arith
act_fields g p n ActionType.unknown l h c = ground arith

covered_mono :
    (b c : ℕ) (ps : List Player)
    → b ≤ c
    → All (λ (p : Player). p.current_bet ≤ b) ps
    → All (λ (p : Player). p.current_bet ≤ c) ps
covered_mono b c [] h a = tt
covered_mono b c (p ∷ ps) h a = (omega arith, covered_mono b c ps h a.1)

-- A legal action in a betting round never panics. It keeps the invariant of the round and the total
-- of the chips, it does not lower the bet to match, and it changes the active player only.
pub apply_action_effect :
    (g : GameState) (a : Action)
    → InRound g
    → Legal g a
    → (g' : GameState) × (apply_action g a ≡ ok g')
      × InRound g'
      × (chips g' ≡ chips g)
      × (g.current_bet ≤ g'.current_bet)
      × (q : Player) × (g'.players ≡ set g.players g.active_player q)
unfolding apply_action
apply_action_effect g a r l =
    let p : Player = l.player in
    let g' : GameState = act g p a.amount a.type in
    let q : Player = moved g p a.amount a.type in
    let bound : p.current_bet ≤ g.current_bet =
      All-get_elem? (λ (p : Player). p.current_bet ≤ g.current_bet) g.players g.active_player
        l.seated r.covered in
    let (grows, mine, cap, cap', pots) = act_fields g p a.amount a.type l.move bound r.capped in
    let written : g'.players ≡ set g.players g.active_player q =
      players-act g p a.amount a.type l.seated in
    let same : holdings g'.players ≡ holdings g.players = omega (
      arith,
      ap holdings written,
      sum_of-set {0} held g.players g.active_player q l.seated,
      held-moved g p a.amount a.type l.move bound,
    ) in
    (
      g',
      rw l.seated,
      record {
        covered = subst (All (λ (p : Player). p.current_bet ≤ g'.current_bet)) (sym written) (
            All-set _ g.players g.active_player q mine
              (covered_mono g.current_bet g'.current_bet g.players grows r.covered));
        capped = omega arith;
      },
      omega (arith, ap (sum_of (λ (x : Pot). x.amount)) pots),
      grows,
      q,
      written,
    )

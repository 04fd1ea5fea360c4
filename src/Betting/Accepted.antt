-- ===== src/Betting/Accepted.antt =====
-- The rules of the actions, and the actions that the engine accepts.
use holdem.Prelude.{
  ℕ, ◌+◌, ◌≤◌, ◌<◌, ◌≡◌, ◌↔◌, All, All-get_elem?, refl, true, Option, none, some, ok, panic, arith,
  get_elem?,
}
use holdem.Game.{
  Player, Action, ActionType, fold, check, call, raise, GameState, can_act, bet_size_for_street,
}
use holdem.Betting.{validate_action, validate_type}

-- The rules of the move itself, for the player `p` whose turn it is, as services/engine/RULES.md has them: a check needs a
-- matched bet, a call a bet above the player's own.
abbrev pub LegalMove : GameState → Player → ℕ → ActionType → Type 0
LegalMove g p amount fold = Unit
LegalMove g p amount check = p.current_bet ≡ g.current_bet
LegalMove g p amount call = p.current_bet < g.current_bet
LegalMove g p amount raise =
    (g.raises_this_street < g.max_raises_per_street)
    × (amount ≡ g.current_bet + bet_size_for_street g)
    × (amount ≤ p.stack + p.current_bet)
LegalMove g p amount ActionType.all_in = ⊥
LegalMove g p amount ActionType.unknown = ⊥

-- The rules for an action: it comes from the player whose turn it is, who can act, and is legal.
pub record Legal (g : GameState) (a : Action) : Type 0 where
  pub player : Player
  pub seated : get_elem? g.players g.active_player ≡ some player
  pub own_turn : player.id ≡ a.player_id
  pub able : can_act player ≡ true
  pub move : LegalMove g player a.amount a.type

validate_type_iff :
    (g : GameState) (p : Player) (n : ℕ) (t : ActionType)
    → p.current_bet ≤ g.current_bet
    → (validate_type g p n t ≡ ok tt) ↔ LegalMove g p n t
unfolding validate_type
validate_type_iff g p n fold bound = (λ h. tt, λ h. refl)
validate_type_iff g p n check bound = ground arith
validate_type_iff g p n call bound = ground arith
validate_type_iff g p n raise bound = ground arith
validate_type_iff g p n ActionType.all_in bound = (λ h. cc, λ h. absurd h)
validate_type_iff g p n ActionType.unknown bound = (λ h. cc, λ h. absurd h)

accepted_parts :
    (g : GameState) (a : Action) (p : Player)
    → get_elem? g.players g.active_player ≡ some p
    → (validate_action g a ≡ ok tt)
      ↔ ((p.id ≡ a.player_id) × (can_act p ≡ true) × (validate_type g p a.amount a.type ≡ ok tt))
unfolding validate_action
accepted_parts g a p e = ground arith

empty_seat :
    (g : GameState) (a : Action)
    → get_elem? g.players g.active_player ≡ none
    → validate_action g a ≡ panic
unfolding validate_action
empty_seat g a e = rw (e, validate_action)

-- An accepted action comes from a player who can act.
pub validate_action-able :
    (g : GameState) (a : Action)
    → validate_action g a ≡ ok tt
    → (p : Player) × (get_elem? g.players g.active_player ≡ some p)
      × (can_act p ≡ true)
      × (p.id ≡ a.player_id)
      × (validate_type g p a.amount a.type ≡ ok tt)
validate_action-able g a h = seen (get_elem? g.players g.active_player) refl
  where
    seen :
        (o : Option Player)
        → get_elem? g.players g.active_player ≡ o
        → (p : Player) × (get_elem? g.players g.active_player ≡ some p)
          × (can_act p ≡ true)
          × (p.id ≡ a.player_id)
          × (validate_type g p a.amount a.type ≡ ok tt)
    seen none e = absurd (cc (empty_seat g a e))
    seen (some p) e =
        let (own, able, typed) = (accepted_parts g a p e).0 h in (p, e, able, own, typed)

-- While no player has bet more than the bet to match, an action is accepted exactly when it comes from the player whose
-- turn it is, who is active with chips left, and the rules of the move allow it: a check when the bet is matched, a call
-- when the bet is above the player's own, a raise below the cap to the bet plus the street's size that the chips cover, a
-- fold always.
pub validate_action_iff :
    (g : GameState) (a : Action)
    → All (λ (p : Player). p.current_bet ≤ g.current_bet) g.players
    → (validate_action g a ≡ ok tt) ↔ Legal g a
validate_action_iff g a covered = (legal, accepted)
  where
    bound :
        {p : Player} → get_elem? g.players g.active_player ≡ some p → p.current_bet ≤ g.current_bet
    bound seated =
        All-get_elem? (λ (p : Player). p.current_bet ≤ g.current_bet) g.players g.active_player
          seated covered

    legal : validate_action g a ≡ ok tt → Legal g a
    legal h =
        let (p, seated, able, own, typed) = validate_action-able g a h in
        record {
          player = p;
          seated = seated;
          own_turn = own;
          able = able;
          move = (validate_type_iff g p a.amount a.type (bound seated)).0 typed;
        }

    accepted : Legal g a → validate_action g a ≡ ok tt
    accepted l = (accepted_parts g a l.player l.seated).1 (
      l.own_turn,
      l.able,
      (validate_type_iff g l.player a.amount a.type (bound l.seated)).1 l.move,
    )

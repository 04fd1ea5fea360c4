-- ===== src/Hand/Act/Steps.antt =====
-- What an action sends to the world, and in which order.
use holdem.Prelude.{
  ℕ, ◌≡◌, ap, Bool, true, false, inl, inr, List, [], Outcome, ok, err, panic, Error, In, In-append,
  leb, length, if◌then◌else◌, get_elem?, or_fail, or_panic,
}
use holdem.Game.{
  PlayerId, Action, GameState, player_by_id, advance_event_sequence, Street, showdown, preflop,
  flop, turn, river, players_who_can_act,
}
use holdem.Betting.{validate_action, apply_action, next_active_player, is_betting_round_over}
use holdem.Rake.{RakeConfig}
use holdem.Hand.Events.{World, Job, pure, send, Effect, saved, ◌>>=◌, ◌>>◌}
use holdem.Hand.Finish.{HandEvaluator, finish_hand}
use holdem.Hand.Act.{execute, continue_hand, store, after_street, advance_street}

-- A job that ends well has stored the state that it returns.
abbrev pub Stores : Job GameState → Type 0
Stores j = (g : GameState) → j.0 ≡ ok g → In (saved g) j.1

Stores->>= :
    {A : Type 0} (m : Job A) (f : A → Job GameState) → ((a : A) → Stores (f a)) → Stores (m >>= f)
Stores->>= (ok a, effects) f h g e = (In-append (saved g) effects (f a).1).1 (inr (h a g e))
Stores->>= (err x, effects) f h g e = absurd (cc)
Stores->>= (panic, effects) f h g e = absurd (cc)

-- A state that is saved first and then returned is stored.
saved-Stores :
    (fails : Bool) (e : Error) (g : GameState) (k : Job GameState)
    → ((h : GameState) → k.0 ≡ ok h → g ≡ h)
    → Stores (send fails e (saved g) >> k)
saved-Stores true e g k same h r = absurd (cc)
saved-Stores false e g k same h r = inl (ap saved (same h r))

published_last :
    (fails : Bool) (e : Error) (x : Effect) (g h : GameState)
    → (send fails e x >> pure (ok g)).0 ≡ ok h
    → g ≡ h
published_last true e x g h r = absurd (cc)
published_last false e x g h r = cc

pure-Stores :
    {A : Type 0} (o : Outcome A) (f : A → Job GameState)
    → ((a : A) → Stores (f a))
    → Stores (pure o >>= f)
pure-Stores o f h = Stores->>= (pure o) f h

if-Stores : (b : Bool) (j k : Job GameState) → Stores j → Stores k → Stores (if b then j else k)
if-Stores true j k p q = p
if-Stores false j k p q = q

module _ (order : List PlayerId → List PlayerId) (ev : HandEvaluator) (rake_config : RakeConfig)
    (w : World) where
  store-Stores : (g : GameState) → Stores (store order ev rake_config w g)
  store-Stores g = saved-Stores (w.save_fails g) Error.save_failed g (pure (ok g)) (λ h r. cc)

  finish_hand-Stores :
      (tick : ℕ) (g : GameState) → Stores (finish_hand ev order rake_config w tick g)
  unfolding finish_hand
  finish_hand-Stores tick g = saved-Stores _ _ _ _ (published_last _ _ _ _)

  after_street-Stores :
      (s : Street) (g : GameState) → Stores (after_street order ev rake_config w s g)
  after_street-Stores preflop g = store-Stores g
  after_street-Stores flop g = store-Stores g
  after_street-Stores turn g = store-Stores g
  after_street-Stores river g = store-Stores g
  after_street-Stores showdown g = finish_hand-Stores 1 g

  continue_hand-Stores : (g : GameState) → Stores (continue_hand order ev rake_config w g)
  unfolding continue_hand
  continue_hand-Stores g =
      if-Stores (leb (length (players_who_can_act g)) 1) _ _ (finish_hand-Stores 1 g) (
        if-Stores (is_betting_round_over g) _ _
          (pure-Stores (advance_street order g) _ (λ a. after_street-Stores a.street a))
          (store-Stores (record g { active_player = next_active_player g })))

  execute-Stores : (hand_id : ℕ) (a : Action) → Stores (execute order ev rake_config w hand_id a)
  unfolding execute
  execute-Stores hand_id a = pure-Stores (w.find_by_id hand_id) _ λ state.
      pure-Stores (validate_action state a) _ λ u.
        pure-Stores (or_fail (player_by_id a.player_id state) Error.player_not_found) _ λ place.
          pure-Stores (apply_action state a) _ λ applied.
            pure-Stores (or_panic (get_elem? applied.players place)) _ λ acting.
              Stores->>= _ _ (λ sent. continue_hand-Stores (advance_event_sequence applied))

  -- When an action succeeds, the state that it returns is one that it has stored.
  pub execute_stores :
      (hand_id : ℕ) (a : Action) (g : GameState)
      → (execute order ev rake_config w hand_id a).0 ≡ ok g
      → In (saved g) (execute order ev rake_config w hand_id a).1
  execute_stores = execute-Stores

  -- An action on a stored hand that validation refuses ends with validation's error, and nothing is stored or published.
  pub execute_refuses :
      (hand_id : ℕ) (a : Action) (state : GameState) (e : Error)
      → w.find_by_id hand_id ≡ ok state
      → validate_action state a ≡ err e
      → execute order ev rake_config w hand_id a ≡ (err e, [])
  unfolding execute
  execute_refuses hand_id a state e found refused = rw (found, refused)

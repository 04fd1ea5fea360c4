-- ===== src/Hand/Start/Begun.antt =====
-- What the start of a hand stores and publishes.
use holdem.Prelude.{
  ◌≡◌, refl, ap, ◌∙◌, Bool, true, false, List, [], ◌∷◌, Outcome, ok, err, panic, Error,
}
use holdem.Cards.{Card}
use holdem.Game.{GameState}
use holdem.Hand.Events.{World, Job, pure, send, saved, published_started, Effect, ◌>>=◌, ◌>>◌}
use holdem.Hand.Start.{StartHandInput, first_state, started_event, execute}

both_sent :
    (b c : Bool) (e f : Error) (x y : Effect) (g : GameState) {h : GameState}
    → (send b e x >> (send c f y >> pure (ok g))).0 ≡ ok h
    → (g ≡ h) × ((send b e x >> (send c f y >> pure (ok g))).1 ≡ x ∷ y ∷ [])
both_sent true c e f x y g r = absurd (cc)
both_sent false true e f x y g r = absurd (cc)
both_sent false false e f x y g r = (cc, refl)

module _ (w : World) where
  -- what follows the first state
  abbrev announce : GameState → Job GameState
  announce g =
      let event = started_event g (w.clock 0) in
      send (w.save_fails g) Error.save_failed (saved g)
      >> (send (w.started_fails event) Error.publish_failed (published_started event)
          >> pure (ok g))

  announced :
      (o : Outcome GameState) {g : GameState}
      → (pure o >>= announce).0 ≡ ok g
      → (o ≡ ok g)
        × ((pure o >>= announce).1 ≡ saved g ∷ published_started (started_event g (w.clock 0)) ∷ [])
  announced (ok g) r =
      let (same, sent) =
        both_sent (w.save_fails g) (w.started_fails (started_event g (w.clock 0))) Error.save_failed
          Error.publish_failed (saved g) (published_started (started_event g (w.clock 0))) g r in
      (
        ap ok same,
        sent ∙ ap (λ x. saved x ∷ published_started (started_event x (w.clock 0)) ∷ []) same,
      )
  announced (err e) r = absurd (cc)
  announced panic r = absurd (cc)

  -- A hand that starts well returns the first state of the input; it has stored that state and then published
  -- its start, and has done nothing else.
  pub execute_starts :
      (shuffle : List Card → List Card) (i : StartHandInput) {g : GameState}
      → (execute w shuffle i).0 ≡ ok g
      → (first_state shuffle i (w.clock 1) ≡ ok g)
        × ((execute w shuffle i).1 ≡ saved g ∷ published_started (started_event g (w.clock 0)) ∷ [])
  unfolding execute
  execute_starts shuffle i r = announced (first_state shuffle i (w.clock 1)) r

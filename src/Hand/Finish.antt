-- ===== src/Hand/Finish.antt =====
-- services/engine/internal/application/finish_hand.go: the rake, the winners, their stacks, and the end
-- of the hand.
mod Tests
pub mod Winners
pub mod Payout
pub mod Engine
pub mod Contenders
pub mod Conserved
use holdem.Prelude.{
  ℕ, zero, suc, ◌+◌, ◌/◌, ◌%◌, Bool, true, false, ltb, ◌==◌, if◌then◌else◌, Option, none, some,
  List, [], ◌∷◌, ◌++◌, length, map, Outcome, ok, Error,
}
use holdem.Prelude.Dict.{Dict, lookup, insert, add_to}
use holdem.Cards.{Card}
use holdem.Game.{
  PlayerId, Player, Pot, GameState, Street, showdown, active_players, advance_event_sequence,
}
use holdem.Pots.{collect_bets, total_pots}
use holdem.Rake.{RakeConfig, calculate_rake, apply_rake}
use holdem.Evaluator.{HandResult, Comparison, less, equal, greater, zero_hand}
use holdem.Hand.Events.{World, Job, pure, send, saved, published_ended, HandEndedEvent, ◌>>=◌, ◌>>◌}

-- the interface `handEvaluator`
pub record HandEvaluator : Type 0 where
  pub best : PlayerId → Card × Card → List Card → HandResult
  pub compare : HandResult → HandResult → Comparison

-- `award`
abbrev pub award_one : Dict ℕ → Player → Player
award_one winners p = elim (lookup p.id winners) [
  | none ↦ p
  | some amount ↦ record p { stack = p.stack + amount }
]

abbrev pub award : List Player → Dict ℕ → List Player
award players winners = map (award_one winners) players

-- the inner loop of `winnersToMap`: the share, and a chip of the remainder for the first ones
pub pay : ℕ → ℕ → ℕ → List PlayerId → Dict ℕ → Dict ℕ
pay share remainder j [] result = result
pay share remainder j (id ∷ ids) result =
    let paid = add_to id share result in
    pay share remainder (j + 1) ids (if ltb j remainder then add_to id 1 paid else paid)

-- `winnersToMap` from the pot at hand on
pub winners_to_map : List Pot → List (List PlayerId) → Dict ℕ → Dict ℕ
winners_to_map [] by_pot result = result
winners_to_map (pot ∷ pots) [] result = result
winners_to_map (pot ∷ pots) ([] ∷ by_pot) result = winners_to_map pots by_pot result
winners_to_map (pot ∷ pots) ((id ∷ ids) ∷ by_pot) result =
    let n = length (id ∷ ids) in
    winners_to_map pots by_pot (pay (pot.amount / n) (pot.amount % n) 0 (id ∷ ids) result)

abbrev zero_result : HandResult
zero_result = record { player_id = 0; rank = 0; cards = zero_hand }

-- `results[id]`
abbrev pub result_of : Dict HandResult → PlayerId → HandResult
result_of results id = elim (lookup id results) [ none ↦ zero_result | some r ↦ r ]

abbrev by_comparison : Comparison → PlayerId → List PlayerId → List PlayerId
by_comparison greater id best = id ∷ []
by_comparison equal id best = best ++ id ∷ []
by_comparison less id best = best

module _ (ev : HandEvaluator) where
  abbrev pub challenge : Dict HandResult → List PlayerId → PlayerId → HandResult → List PlayerId
  challenge results [] id result = id ∷ []
  challenge results (b ∷ bs) id result =
      by_comparison (ev.compare result (result_of results b)) id (b ∷ bs)

  -- the loop of `bestHandsInPot`
  pub best_hands_from : Dict HandResult → List PlayerId → List PlayerId → List PlayerId
  best_hands_from results best [] = best
  best_hands_from results best (id ∷ ids) =
      best_hands_from results
        (elim (lookup id results) [ none ↦ best | some r ↦ challenge results best id r ]) ids

  -- `bestHandsInPot`
  pub best_hands_in_pot : List PlayerId → Dict HandResult → List PlayerId
  best_hands_in_pot eligible results = best_hands_from results [] eligible

  -- the results of the players in the hand
  pub results_of : List Card → List Player → Dict HandResult → Dict HandResult
  results_of board [] m = m
  results_of board (p ∷ ps) m =
      results_of board ps (insert p.id (ev.best p.id p.hole_cards board) m)

  -- `showdown`
  pub showdown_winners : List Card → List Pot → List Player → Dict ℕ
  showdown_winners board pots players =
      let results = results_of board players [] in
      winners_to_map pots (map (λ (pot : Pot). best_hands_in_pot pot.eligible results) pots) []

  -- `determineWinners`, without the award, which follows in every branch
  abbrev pub winners_among : List Card → List Pot → List Player → Dict ℕ
  winners_among board pots [] = showdown_winners board pots []
  winners_among board pots (p ∷ []) = (p.id, total_pots pots) ∷ []
  winners_among board pots (p ∷ q ∷ ps) = showdown_winners board pots (p ∷ q ∷ ps)

  pub determine_winners : GameState → Dict ℕ
  determine_winners g = winners_among g.board g.pots (active_players g)

  abbrev is_showdown_street : Street → Bool
  is_showdown_street showdown = true
  is_showdown_street _ = false

  module _ (order : List PlayerId → List PlayerId) (rake_config : RakeConfig) where
    -- the state after the bets are collected and the rake is taken
    pub raked : GameState → GameState
    raked g =
        let c = collect_bets order g in
        advance_event_sequence
          (record c { pots = apply_rake c.pots (calculate_rake c.pots c.street rake_config) })

    -- the state that `FinishHand.Execute` saves
    pub finished : GameState → GameState
    finished g =
        let r = raked g in
        record r { players = award r.players (determine_winners r); street = showdown }

    -- the event that it publishes
    pub ended_event : GameState → ℕ → HandEndedEvent
    ended_event g now =
        let c = collect_bets order g in
        let r = raked g in
        record {
          event_id = (g.id, r.event_sequence);
          event_version = 1;
          hand_id = g.id;
          table_id = g.table_id;
          sequence_number = r.event_sequence;
          player_count = length g.players;
          button = g.button;
          small_blind = g.small_blind;
          big_blind = g.big_blind;
          is_showdown = is_showdown_street g.street;
          gross_pot = total_pots c.pots;
          net_pot = total_pots r.pots;
          winners = determine_winners r;
          rake = calculate_rake c.pots c.street rake_config;
          board = g.board;
          occurred_at = now;
        }

    -- `FinishHand.Execute`; the state comes back, since the source changes it in place
    unfoldable pub finish_hand : World → ℕ → GameState → Job GameState
    finish_hand w tick g = do
      let done = finished g
      let event = ended_event g (w.clock tick)
      send (w.save_fails done) Error.save_failed (saved done)
      send (w.ended_fails event) Error.publish_failed (published_ended event)
      pure (ok done)

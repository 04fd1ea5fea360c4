-- ===== src/Betting/Turns.antt =====
-- Which seat the search for the next player gives.
use mathlib.Core.Bool.{false≢true}
use native.Mathlib.Nat.{mod-eq_of_lt, add-mod_right, mod-lt}
use holdem.Prelude.{
  ◌∷◌, [], sym, ltb→lt, ℕ, zero, suc, ◌+◌, ◌-◌, ◌%◌, ltb, ◌≤◌, ◌<◌, ◌≡◌, refl, ap, ◌∙◌, subst, Bool,
  true, false, Bool-cases, inl, inr, List, length, arith,
}
use holdem.Game.{Player, GameState, can_act, in_hand}
use holdem.Betting.{next_seat, seat_passes, next_active_player, first_active_after_button}

-- `seat` is the first of the seats start + i, start + i + 1, … (at most `rounds` of them, counted
-- round the table) that passes the test, or `start` if none does.
pub data FirstSeat (test : Player → Bool) (ps : List Player) (start rounds i seat : ℕ)
    : Type 0 where
  found :
      (k : ℕ)
      → k < rounds
      → seat ≡ (start + (i + k)) % length ps
      → seat_passes test ps seat ≡ true
      → ((j : ℕ) → j < k → seat_passes test ps ((start + (i + j)) % length ps) ≡ false)
      → FirstSeat test ps start rounds i seat
  none_found :
      seat ≡ start
      → ((j : ℕ) → j < rounds → seat_passes test ps ((start + (i + j)) % length ps) ≡ false)
      → FirstSeat test ps start rounds i seat

module _ (test : Player → Bool) (ps : List Player) (start : ℕ) where
  -- one more seat that fails, in front of the seats that were searched
  before :
      (P : ℕ → Type 0) (i k : ℕ)
      → P (start + i)
      → ((j : ℕ) → j < k → P (start + ((i + 1) + j)))
      → (j : ℕ) → j < suc k
      → P (start + (i + j))
  before P i k h rest zero lt = subst P (omega arith) h
  before P i k h rest (suc j) lt = subst P (omega arith) (rest j (omega arith))

  pub next_seat-FirstSeat :
      (rounds i : ℕ) → FirstSeat test ps start rounds i (next_seat test ps start rounds i)
  unfolding next_seat
  next_seat-FirstSeat zero i = none_found refl (λ j lt. absurd (omega arith))
  next_seat-FirstSeat (suc rounds) i =
      elim (Bool-cases (seat_passes test ps ((start + i) % length ps))) [
        | inl hit ↦
            rw (hit, next_seat)
              (found 0 (omega arith) (ap at (omega arith)) hit (λ j lt. absurd (omega arith)))
        | inr miss ↦ rw (miss, next_seat) (one_more miss (next_seat-FirstSeat rounds (i + 1)))
      ]
    where
      at : ℕ → ℕ
      at n = n % length ps

      one_more :
          {seat : ℕ}
          → seat_passes test ps ((start + i) % length ps) ≡ false
          → FirstSeat test ps start rounds (i + 1) seat
          → FirstSeat test ps start (suc rounds) i seat
      one_more miss (found k lt e hit fails) =
          found (suc k) (omega arith) (e ∙ ap at (omega arith)) hit
            (before (λ n. seat_passes test ps (n % length ps) ≡ false) i k miss fails)
      one_more miss (none_found e fails) =
          none_found e
            (before (λ n. seat_passes test ps (n % length ps) ≡ false) i rounds miss fails)

-- Every seat of the table is among those searched.
reaches : (n start j : ℕ) → start < n → j < n → (k : ℕ) × (k < n) × ((start + (1 + k)) % n ≡ j)
reaches n start j s lt = elim (Bool-cases (ltb start j)) [
  | inl after ↦
      let p : start < j = ltb→lt start j after in
      (j - start - 1, omega arith, ap (λ m. m % n) (omega arith) ∙ mod-eq_of_lt lt)
  | inr wraps ↦
      let p : j ≤ start = ground arith in
      let e : start + (1 + (j + n - start - 1)) ≡ j + n = omega arith in
      (j + n - start - 1, omega arith, ap (λ m. m % n) e ∙ add-mod_right j n ∙ mod-eq_of_lt lt)
]

-- A search over the whole table from a seat of it finds a player if there is one.
able_of_FirstSeat :
    (test : Player → Bool) (ps : List Player) (start j seat : ℕ)
    → start < length ps
    → j < length ps
    → seat_passes test ps j ≡ true
    → FirstSeat test ps start (length ps) 1 seat
    → (seat_passes test ps seat ≡ true) × (seat < length ps)
able_of_FirstSeat test ps start j seat s lt able (found k kn e hit fails) =
    (hit, rw e (mod-lt (start + (1 + k)) (omega arith)))
able_of_FirstSeat test ps start j seat s lt able (none_found e fails) =
    let (k, kn, at) = reaches (length ps) start j s lt in
    absurd (false≢true (sym (fails k kn) ∙ ap (seat_passes test ps) at ∙ able))

-- If any player can act, the turn passes to the first one after the active player, in the order of
-- the seats round the table.
pub next_active_player_turn :
    (g : GameState) (j : ℕ)
    → g.active_player < length g.players
    → j < length g.players
    → seat_passes can_act g.players j ≡ true
    → FirstSeat can_act g.players g.active_player (length g.players) 1 (next_active_player g)
      × (seat_passes can_act g.players (next_active_player g) ≡ true)
      × (next_active_player g < length g.players)
unfolding next_active_player
next_active_player_turn g j s lt able =
    let first = next_seat-FirstSeat can_act g.players g.active_player (length g.players) 1 in
    let (hit, bound) = able_of_FirstSeat can_act g.players g.active_player j _ s lt able first in
    (first, hit, bound)

-- If any player is still in the hand, the first turn of a later street goes to the first one after the
-- button who is: active or all in.
pub first_active_after_button_turn :
    (g : GameState) (j : ℕ)
    → g.button < length g.players
    → j < length g.players
    → seat_passes in_hand g.players j ≡ true
    → FirstSeat in_hand g.players g.button (length g.players) 1 (first_active_after_button g)
      × (seat_passes in_hand g.players (first_active_after_button g) ≡ true)
      × (first_active_after_button g < length g.players)
unfolding first_active_after_button
first_active_after_button_turn g j s lt able =
    let first = next_seat-FirstSeat in_hand g.players g.button (length g.players) 1 in
    let (hit, bound) = able_of_FirstSeat in_hand g.players g.button j _ s lt able first in
    (first, hit, bound)

next_seat_hit :
    (test : Player → Bool) (ps : List Player) (start rounds i : ℕ)
    → 0 < rounds
    → seat_passes test ps ((start + i) % length ps) ≡ true
    → next_seat test ps start rounds i ≡ (start + i) % length ps
unfolding next_seat
next_seat_hit test ps start zero i p hit = absurd (omega arith)
next_seat_hit test ps start (suc rounds) i p hit = rw (hit, next_seat)

seat_passes_pos :
    (test : Player → Bool) (ps : List Player) (i : ℕ) → seat_passes test ps i ≡ true → 0 < length ps
seat_passes_pos test [] i h = absurd (cc)
seat_passes_pos test (p ∷ ps) i h = omega arith

-- If the player next to the button is still in the hand, the turn is his.
pub first_active_after_button_lem :
    (g : GameState)
    → seat_passes in_hand g.players ((g.button + 1) % length g.players) ≡ true
    → first_active_after_button g ≡ (g.button + 1) % length g.players
unfolding first_active_after_button
first_active_after_button_lem g hit =
    next_seat_hit in_hand g.players g.button (length g.players) 1
      (seat_passes_pos in_hand g.players ((g.button + 1) % length g.players) hit) hit

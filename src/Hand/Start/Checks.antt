-- ===== src/Hand/Start/Checks.antt =====
-- Which hands may start.
use holdem.Prelude.{
  ℕ, ◌+◌, ◌*◌, ◌%◌, ◌-◌, ◌∙◌, sym, ap, subst, List, ◌≤◌, ◌<◌, ◌≡◌, ◌≢◌, ◌↔◌, refl, ltb, ◌==◌,
  length, ok, arith, Bool-cases, if◌then◌else◌, inl, inr,
}
use native.Mathlib.Nat.{mod-lt, mod-eq_of_lt, mod-eq-sub-mod, mod-add-mod}
use holdem.Prelude.Int.{ℤ, pos, negsuc, ◌+ℤ◌}
use holdem.Game.{fixed_limit, Player, BettingConfig, BettingStructure}
use holdem.Hand.Start.{StartHandInput, validate_input, blind_indexes}

-- the input with a button and stakes that are not negative
abbrev pub input_of : ℕ → List Player → ℕ → BettingConfig → StartHandInput
input_of table players button stakes = record {
  table_id = table;
  players = players;
  button = pos button;
  structure = stakes.structure;
  small_blind = pos stakes.small_blind;
  big_blind = pos stakes.big_blind;
  small_bet = pos stakes.small_bet;
  big_bet = pos stakes.big_bet;
  max_raises_per_street = pos stakes.max_raises_per_street;
}

-- The conditions on the players, the button and the stakes of a new hand.
pub record CanStart (players : List Player) (button : ℕ) (stakes : BettingConfig) : Type 0 where
  pub enough_players : 2 ≤ length players
  pub limit_game : stakes.structure ≡ fixed_limit
  pub blind_positive : 0 < stakes.small_blind
  pub twice : stakes.big_blind ≡ stakes.small_blind * 2
  pub small_bet_covers : stakes.big_blind ≤ stakes.small_bet
  pub big_bet_covers : stakes.small_bet ≤ stakes.big_bet
  pub raises : 0 < stakes.max_raises_per_street
  pub button_seated : button < length players

-- No number of the input is negative, and the conditions hold.
pub record Startable (i : StartHandInput) : Type 0 where
  pub button : ℕ
  pub stakes : BettingConfig
  pub given : i ≡ input_of i.table_id i.players button stakes
  pub conditions : CanStart i.players button stakes

input_of_iff :
    (table : ℕ) (players : List Player) (button : ℕ) (stakes : BettingConfig)
    → (validate_input (input_of table players button stakes) ≡ ok tt)
      ↔ CanStart players button stakes
unfolding validate_input ◌+ℤ◌
input_of_iff table players button stakes = ground arith

startable :
    (table : ℕ) (players : List Player) (structure : BettingStructure)
    (button small_blind big_blind small_bet big_bet raises : ℤ)
    → let i : StartHandInput = record {
      table_id = table;
      players = players;
      button = button;
      structure = structure;
      small_blind = small_blind;
      big_blind = big_blind;
      small_bet = small_bet;
      big_bet = big_bet;
      max_raises_per_street = raises;
    } in
      validate_input i ≡ ok tt → Startable i
unfolding validate_input ◌+ℤ◌
startable t ps st (pos b) (pos sb) (pos bb) (pos s) (pos l) (pos m) h =
    let stakes : BettingConfig = record {
      structure = st;
      small_blind = sb;
      big_blind = bb;
      small_bet = s;
      big_bet = l;
      max_raises_per_street = m;
    } in
    record {
      button = b;
      stakes = stakes;
      given = refl;
      conditions = (input_of_iff t ps b stakes).0 h;
    }
startable t ps st b (negsuc sb) bb s l m h = ground arith
startable t ps st b (pos sb) (negsuc bb) s l m h = ground arith
startable t ps st b (pos sb) (pos bb) (negsuc s) l m h = ground arith
startable t ps st b (pos sb) (pos bb) (pos s) (negsuc l) m h = ground arith
startable t ps st b (pos sb) (pos bb) (pos s) (pos l) (negsuc m) h = ground arith
startable t ps st (negsuc b) (pos sb) (pos bb) (pos s) (pos l) (pos m) h = ground arith

-- A hand is accepted for starting exactly when no number of the input is negative, it has two or more players and the
-- button at one of them, is a fixed-limit game with a positive small blind and twice that as big blind, has bets that
-- grow from the big blind over the small to the big bet, and allows a raise.
pub validate_input_iff : (i : StartHandInput) → (validate_input i ≡ ok tt) ↔ Startable i
validate_input_iff i = (
  startable i.table_id i.players i.structure i.button i.small_blind i.big_blind i.small_bet
      i.big_bet i.max_raises_per_street,
  λ s.
      subst (λ x. validate_input x ≡ ok tt) (sym s.given)
        ((input_of_iff i.table_id i.players s.button s.stakes).1 s.conditions),
)

-- the seat after another one is a different seat
next_seat_differs : (x n : ℕ) → 2 ≤ n → x < n → (x + 1) % n ≢ x
next_seat_differs x n two seat = elim (Bool-cases (ltb (x + 1) n)) [
  | inl inside ↦ (λ e. let same = mod-eq_of_lt {n = x + 1} {m = n} (ground arith) in ground arith)
  | inr wraps ↦ (λ e.
      let same = mod-eq-sub-mod {n = x + 1} {m = n} (ground arith) in
      let low = mod-eq_of_lt {n = x + 1 - n} {m = n} (ground arith) in ground arith)
]

-- The seats `s.0` and `s.1` of the small and the big blind, at a table of n seats with its button.
pub record BlindSeats (button n : ℕ) (s : ℕ × ℕ) : Type 0 where
  pub small_seated : s.0 < n
  pub big_seated : s.1 < n
  pub different : s.0 ≢ s.1
  pub small_place : s.0 ≡ (if n == 2 then button else (button + 1) % n)
  pub adjacent : s.1 ≡ (s.0 + 1) % n

heads_up_seats :
    (button n : ℕ) → n ≡ 2 → button < n → BlindSeats button n (button, (button + 1) % n)
heads_up_seats button n two seat = record {
  small_seated = seat;
  big_seated = mod-lt _ (ground arith);
  different = λ e. next_seat_differs button n (ground arith) seat (sym e);
  small_place = ground arith;
  adjacent = refl;
}

ring_seats : (button n : ℕ) → 3 ≤ n → BlindSeats button n ((button + 1) % n, (button + 2) % n)
ring_seats button n three =
    let small = mod-lt (button + 1) {m = n} (ground arith) in
    let step : ((button + 1) % n + 1) % n ≡ (button + 2) % n =
      mod-add-mod (button + 1) n 1 ∙ ap (λ k. k % n) (omega arith) in
    record {
      small_seated = small;
      big_seated = mod-lt _ (ground arith);
      different = λ e. next_seat_differs ((button + 1) % n) n (ground arith) small (step ∙ sym e);
      small_place = ground arith;
      adjacent = sym step;
    }

-- With two or more players and the button at one of them, the blinds are two different neighbouring seats of
-- the table: heads-up the button is the small blind, and with more players the seat after the button is.
pub blind_indexes_lem :
    (button n : ℕ) → 2 ≤ n → button < n → BlindSeats button n (blind_indexes button n)
unfolding blind_indexes
blind_indexes_lem button n two seat = elim (Bool-cases (n == 2)) [
  | inl heads_up ↦ rw heads_up (heads_up_seats button n (ground arith) seat)
  | inr more ↦ rw more (ring_seats button n (ground arith))
]

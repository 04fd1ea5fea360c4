-- ===== src/Prelude/Calls.antt =====
-- The ways in which a Go call can end: a value, an error value of
-- services/engine/internal/domain/errors.go or of services/table-manager/internal/domain/domain.go
-- (or a message built in place), or a run-time panic.
use mathlib.Core.Path.{◌≡◌, refl}
use mathlib.Core.Bool.{Bool, true, false}
use mathlib.Core.Option.{Option, none, some}

pub data Error : Type 0 where
  empty_deck not_enough_cards : Error
  invalid_action invalid_raise_amount player_not_active not_player_turn insufficient_stack : Error
  game_not_found table_not_found player_not_found : Error
  hand_already_started hand_not_started not_enough_players : Error
  raise_cap_reached : Error
  -- `errors.New` and `fmt.Errorf` at the place of the failure
  n_not_positive unsupported_structure blinds_not_positive bets_not_positive : Error
  big_blind_not_twice small_bet_too_small big_bet_too_small raises_not_positive invalid_button :
      Error
  invalid_card invalid_rank invalid_suit : Error
  -- of the table manager: services/table-manager/internal/domain/domain.go
  seat_out_of_range seat_occupied player_already_seated player_not_seated : Error
  active_hand_required leave_during_active_hand spectator_cannot_act : Error
  invalid_table_config insufficient_funds empty_engine_state : Error
  -- of the wallet: services/wallet-service/internal/domain/domain.go
  invalid_input account_not_found address_already_linked address_not_linked : Error
  challenge_not_found challenge_expired invalid_challenge_proof : Error
  -- of the sign-in: services/auth-service/internal/domain/domain.go, its password and its token library
  email_taken invalid_credentials invalid_refresh_token user_not_found : Error
  hash_failed token_failed unauthenticated : Error
  -- a statement or a commit that the database refuses, and calls of the chain and of the key library that fail
  statement_failed commit_failed chain_failed key_failed : Error
  -- what a repository or a publisher reports
  save_failed publish_failed : Error

pub data Outcome {ℓ} (A : Type ℓ) : Type ℓ where
  ok : A → Outcome A
  err : Error → Outcome A
  panic : Outcome A

infixl 5 ◌>>=◌ ◌>>◌
abbrev pub ◌>>=◌ {ℓ κ} : {A : Type ℓ} {B : Type κ} → Outcome A → (A → Outcome B) → Outcome B
ok a >>= f = f a
err e >>= f = err e
panic >>= f = panic

abbrev pub ◌>>◌ {ℓ} : {B : Type ℓ} → Outcome (Unit {0}) → Outcome B → Outcome B
m >> k = m >>= λ _. k

-- `if test { return error }`
abbrev pub fail_if : Bool → Error → Outcome (Unit {0})
fail_if true e = err e
fail_if false e = ok tt

-- an index expression, which panics out of range
abbrev pub or_panic {ℓ} : {A : Type ℓ} → Option A → Outcome A
or_panic none = panic
or_panic (some a) = ok a

abbrev pub or_fail {ℓ} : {A : Type ℓ} → Option A → Error → Outcome A
or_fail none e = err e
or_fail (some a) e = ok a

-- A sequence of two calls that ends well: the first one had a value, and the second went well on it.
pub >>=-eq-ok {ℓ κ} :
    {P : Type ℓ} {Q : Type κ} (first : Outcome P) (next : P → Outcome Q) {q : Q}
    → (first >>= next) ≡ ok q
    → (p : P) × (first ≡ ok p) × (next p ≡ ok q)
>>=-eq-ok (ok p) next e = (p, refl, e)
>>=-eq-ok (err x) next e = cc
>>=-eq-ok panic next e = cc

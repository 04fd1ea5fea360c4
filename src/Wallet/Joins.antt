-- ===== src/Wallet/Joins.antt =====
-- services/table-manager and services/wallet-service together: what the idempotency keys of `JoinTable` do in the wallet.
-- The text of a key is any function of its parts.
use holdem.Prelude.{
  ◌≡◌, refl, sym, ap, subst, ◌∙◌, ℕ, Bool, true, false, ◌||◌, Bool-cases, inl, inr, Option, none,
  List, ◌∷◌, Outcome, ok, err, Error,
}
use holdem.Prelude.Text.{Bytes, is_empty, trim_space}
use holdem.Prelude.Int.{ℤ, pos, negate, not_positive}
use holdem.Tables.{Table}
use holdem.Tables.World.{
  World, HandState, MoneyKey, Effect, created, saved, debited, credited, hand_started,
  action_applied,
}
use holdem.Tables.Service.{join_table, leave_table, join_key}
use holdem.Tables.Service.Money.{FreeEmpty}
use holdem.Tables.Service.Again.{join_table-same_debit}
use holdem.Wallet.{table_buy_in_debit, LedgerEntry}
use holdem.Database.{return, ◌>>=◌}
use holdem.Wallet.Database.{Db, Env, Sql, IdPrefix}
use holdem.Wallet.Repository.{apply_ledger_entry}
use holdem.Wallet.Service.{Crypto}
use holdem.Wallet.Service.Tables.{debit_for_join, credit_for_cashout, table_entry}
use holdem.Wallet.Runner.{Node}
use holdem.Wallet.Kept.Reachable.{Reach, served, apply_ledger_entry-again}

-- the test of `DebitForJoin`'s input
abbrev is_invalid : Bytes → Bytes → ℤ → Bytes → Bool
is_invalid user table amount key =
    is_empty (trim_space user)
    || is_empty (trim_space table)
    || is_empty (trim_space key)
    || not_positive amount

module _ (crypto : Crypto) (net : Bytes) where
  abbrev buy_in_entry : Env → Bytes → Bytes → ℤ → Bytes → Db → LedgerEntry
  buy_in_entry env user table amount key db =
      table_entry crypto net env table_buy_in_debit (negate amount) (env.new_id IdPrefix.ledger db)
        (trim_space user) (trim_space table) (trim_space key)

  -- `DebitForJoin` posts one entry, unless its input is invalid.
  debit_for_join-eq :
      (env : Env) (user table : Bytes) (amount : ℤ) (key : Bytes) (db : Db)
      → is_invalid user table amount key ≡ false
      → debit_for_join crypto net env user table amount key db
        ≡ apply_ledger_entry env (buy_in_entry env user table amount key db) db
  unfolding debit_for_join ◌>>=◌ return
  debit_for_join-eq env user table amount key db valid = rw valid refl

  -- A debit that goes well has valid input.
  debit_for_join-valid :
      (env : Env) (user table : Bytes) (amount : ℤ) (key : Bytes) (db : Db)
      → (debit_for_join crypto net env user table amount key db).0 ≡ ok tt
      → is_invalid user table amount key ≡ false
  unfolding debit_for_join ◌>>=◌ return
  debit_for_join-valid env user table amount key db good =
      elim (Bool-cases (is_invalid user table amount key)) [
        | inr valid ↦ valid
        | inl bad ↦ absurd (err_ok Error.invalid_input (rw bad at good))
      ]
    where
      err_ok : (x : Error) → ◌≡◌ {A = Outcome (Unit {0})} (err x) (ok tt) → ⊥
      err_ok x h = cc

  -- what a call of the table manager does in the wallet, with the texts of ids and keys
  abbrev delivered : (ℕ → Bytes) → (MoneyKey → Bytes) → Env → Effect → Sql (Unit {0})
  delivered text encode env (debited player table n key) =
      debit_for_join crypto net env (text player) (text table) (pos n) (encode key)
  delivered text encode env (credited player table n key) =
      credit_for_cashout crypto net env (text player) (text table) (pos n) (encode key)
  delivered text encode env (created t) = return (ok tt)
  delivered text encode env (saved t) = return (ok tt)
  delivered text encode env (hand_started r) = return (ok tt)
  delivered text encode env (action_applied r) = return (ok tt)

  debited_again :
      (env later : Env) (user table : Bytes) (amount : ℤ) (key : Bytes) (m n : Node)
      → (debit_for_join crypto net env user table amount key m.db).0 ≡ ok tt
      → Reach (served (debit_for_join crypto net env user table amount key) m) n
      → (debit_for_join crypto net later user table amount key n.db).1 ≡ n.db
  debited_again env later user table amount key m n good r =
      let valid = debit_for_join-valid env user table amount key m.db good in
      let first = debit_for_join-eq env user table amount key m.db valid in
      ap (λ x. x.1) (debit_for_join-eq later user table amount key n.db valid)
      ∙ apply_ledger_entry-again env _ m n (rw first at good) (rw first at r) later
          (buy_in_entry later user table amount key n.db) refl

  -- With a wallet, a player joins a table whose free seats have no chips, no hand starts, he leaves, and joins the same seat
  -- for the same buy-in again, each on the table that the call before saved. If the wallet took the first call of the first
  -- join, then the first call of the second join changes nothing in the wallet, whatever happened there in between, and
  -- whatever the texts of ids and keys are.
  pub rejoin_not_debited :
      (text : ℕ → Bytes) (encode : MoneyKey → Bytes) (env later : Env) (w v w' : World)
      (table_id player seat_index buy_in : ℕ) (t t1 : Table) {r r' : Table × Option HandState}
      (e e' : Effect) {sent sent' : List Effect} (m n : Node)
      → w.has_wallet ≡ true
      → v.has_wallet ≡ true
      → w'.has_wallet ≡ true
      → FreeEmpty t
      → w.find_table table_id ≡ ok t
      → (join_table w table_id player seat_index buy_in).0 ≡ ok (t1, none)
      → v.find_table table_id ≡ ok t1
      → (leave_table v table_id player).0 ≡ ok r
      → w'.find_table table_id ≡ ok r.0
      → (join_table w' table_id player seat_index buy_in).0 ≡ ok r'
      → (join_table w table_id player seat_index buy_in).1 ≡ e ∷ sent
      → (join_table w' table_id player seat_index buy_in).1 ≡ e' ∷ sent'
      → (delivered text encode env e m.db).0 ≡ ok tt
      → Reach (served (delivered text encode env e) m) n
      → (delivered text encode later e' n.db).1 ≡ n.db
  rejoin_not_debited text encode env later w v w' table_id player seat_index buy_in t t1 e e' m n a
        b c free found joins found' leaves found'' again first second good r =
      let key = join_key t player seat_index buy_in in
      let (_, _, calls, calls') =
        join_table-same_debit w v w' table_id player seat_index buy_in t t1 a b c free found joins
          found' leaves found'' again in
      let is : e ≡ debited player t.id buy_in key = head_eq (sym first ∙ calls) in
      let is' : e' ≡ debited player t.id buy_in key = head_eq (sym second ∙ calls') in
      ap (λ x. (delivered text encode later x n.db).1) is'
      ∙ debited_again env later (text player) (text t.id) (pos buy_in) (encode key) m n
          (subst (λ x. (delivered text encode env x m.db).0 ≡ ok tt) is good)
          (subst (λ x. Reach (served (delivered text encode env x) m) n) is r)
    where
      head_eq : {x y : Effect} {l k : List Effect} → x ∷ l ≡ y ∷ k → x ≡ y
      head_eq h = cc

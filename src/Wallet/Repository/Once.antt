-- ===== src/Wallet/Repository/Once.antt =====
-- services/wallet-service/internal/infrastructure/repository/postgres/repository_chain.go: a deposit is credited once, and a
-- failed withdrawal is refunded once.
use holdem.Prelude.{
  ◌≡◌, refl, ℕ, ◌==◌, Bool, true, false, ◌&&◌, Bool-cases, if◌then◌else◌, inl, inr, Outcome, ok,
  err, panic,
}
use holdem.Prelude.Text.{Bytes}
use holdem.Wallet.{LedgerEntry, Balance}
use holdem.Database.Rows.{count_rows-update_rows, update_rows-none}
use holdem.Database.{return, exec, with_tx, count_rows, ◌>>=◌}
use holdem.Wallet.Database.{Db, Env, Statement, Sql}
use holdem.Database.Keeps.{AfterOk, KeepsOk, with_tx-AfterOk}
use holdem.Wallet.Repository.{apply_ledger_entry_tx}
use holdem.Wallet.Repository.Chain.{confirm_deposit, unconfirmed_of, of_tx}
use holdem.Wallet.Repository.Payouts.{mark_withdrawal_failed, unfailed, is_withdrawal}
use holdem.Wallet.Ledger.{replayed, posted, refused, posted_db, apply_ledger_entry_tx-Posting}

-- an update and the posting that follows it, if it found a row
abbrev update_and_post : Env → Statement → (Db → ℕ × Db) → LedgerEntry → Sql (Unit {0})
update_and_post env s write e = with_tx env do
  changed ← exec env s write
  if changed == 0 then return (ok tt) else apply_ledger_entry_tx env e

-- A condition on tables that a posting does not write is kept by it.
module _ (Settled : Db → Type 0)
    (posting : (db : Db) (e : LedgerEntry) (old : Balance)
      → Settled db
      → Settled (posted_db e old db)) where
  apply_ledger_entry_tx-Settled :
      (env : Env) (e : LedgerEntry) → KeepsOk Settled (apply_ledger_entry_tx env e)
  apply_ledger_entry_tx-Settled env e db q = elim (apply_ledger_entry_tx-Posting env e db) [
    | replayed old found r ↦ rw r q
    | posted old fresh found enough r ↦ rw r (posting db e old q)
    | refused x after r ↦ rw r tt
  ]

  posted_or_not :
      (env : Env) (e : LedgerEntry) (n : ℕ)
      → KeepsOk Settled (if n == 0 then return (ok tt) else apply_ledger_entry_tx env e)
  unfolding return
  posted_or_not env e n db q = elim (Bool-cases (n == 0)) [
    | inl zero ↦ rw zero q
    | inr more ↦ rw more (apply_ledger_entry_tx-Settled env e db q)
  ]

  module _ (s : Statement) (write : Db → ℕ × Db) (settles : (db : Db) → Settled (write db).1) where
    update_and_post-Settled :
        (env : Env) (e : LedgerEntry) (db : Db) → AfterOk Settled (update_and_post env s write e db)
    unfolding ◌>>=◌ exec
    update_and_post-Settled env e db =
        with_tx-AfterOk Settled env _ db (elim (Bool-cases (env.fails s db)) [
          | inl broken ↦ rw broken tt
          | inr good ↦ rw good (posted_or_not env e (write db).0 (write db).1 (settles db))
        ])

    update_and_post-idle :
        (env : Env) (e : LedgerEntry) (db : Db)
        → (write db).0 ≡ 0
        → (write db).1 ≡ db
        → (update_and_post env s write e db).1 ≡ db
    unfolding ◌>>=◌ exec with_tx return
    update_and_post-idle env e db zero same = elim (Bool-cases (env.begin_fails db)) [
      | inl broken ↦ rw broken refl
      | inr begins ↦ elim (Bool-cases (env.fails s db)) [
        | inl broken ↦ rw (begins, broken) refl
        | inr good ↦ elim (Bool-cases (env.commit_fails db)) [
          | inl broken ↦ rw (begins, good, zero, same, broken) refl
          | inr commits ↦ rw (begins, good, zero, same, commits) refl
        ]
      ]
    ]

ok_after : (P : Db → Type 0) (r : Outcome (Unit {0}) × Db) → AfterOk P r → r.0 ≡ ok tt → P r.1
ok_after P (ok u, db) p good = p
ok_after P (err e, db) p good = cc
ok_after P (panic, db) p good = cc

&&-false : (b c : Bool) → c ≡ false → (b && c) ≡ false
&&-false true c h = h
&&-false false c h = refl

-- After `ConfirmDeposit` of a transaction went well, another one of the same transaction changes no table.
pub confirm_deposit-once :
    (env later : Env) (h : Bytes) (block block' n n' : ℕ) (e e' : LedgerEntry) (db : Db)
    → (confirm_deposit env h block n e db).0 ≡ ok tt
    → (confirm_deposit later h block' n' e' (confirm_deposit env h block n e db).1).1
      ≡ (confirm_deposit env h block n e db).1
unfolding confirm_deposit
confirm_deposit-once env later h block block' n n' e e' db good =
    let after : Db = (confirm_deposit env h block n e db).1 in
    let settled : count_rows (unconfirmed_of later h) after.deposits ≡ 0 =
      ok_after _ _
        (update_and_post-Settled (λ d. count_rows (unconfirmed_of later h) d.deposits ≡ 0)
          (λ d x old q. q) Statement.confirm_deposit _
          (λ d.
            count_rows-update_rows (unconfirmed_of later h) _ d.deposits
              (λ r hit. &&-false (of_tx h r) _ refl))
          env e db)
        good in
    update_and_post-idle (λ d. Unit {0}) (λ d x old q. q) Statement.confirm_deposit _ (λ d. tt)
      later e' after settled
      (rw (update_rows-none (unconfirmed_of later h) _ after.deposits settled) refl)

-- After `MarkWithdrawalFailed` went well, which refunds the withdrawal, another one changes no table.
pub mark_withdrawal_failed-once :
    (env later : Env) (id reason reason' : Bytes) (e e' : LedgerEntry) (at at' : ℕ) (db : Db)
    → (mark_withdrawal_failed env id reason e at db).0 ≡ ok tt
    → (mark_withdrawal_failed later id reason' e' at'
        (mark_withdrawal_failed env id reason e at db).1).1
      ≡ (mark_withdrawal_failed env id reason e at db).1
unfolding mark_withdrawal_failed
mark_withdrawal_failed-once env later id reason reason' e e' at at' db good =
    let after : Db = (mark_withdrawal_failed env id reason e at db).1 in
    let settled : count_rows (unfailed later id) after.withdrawals ≡ 0 =
      ok_after _ _
        (update_and_post-Settled (λ d. count_rows (unfailed later id) d.withdrawals ≡ 0)
          (λ d x old q. q) Statement.mark_withdrawal _
          (λ d.
            count_rows-update_rows (unfailed later id) _ d.withdrawals
              (λ r hit. &&-false (is_withdrawal id r) _ refl))
          env e db)
        good in
    update_and_post-idle (λ d. Unit {0}) (λ d x old q. q) Statement.mark_withdrawal _ (λ d. tt)
      later e' after settled
      (rw (update_rows-none (unfailed later id) _ after.withdrawals settled) refl)

-- ===== src/Wallet/Repository.antt =====
-- services/wallet-service/internal/infrastructure/repository/postgres/repository.go: accounts, linked addresses,
-- withdrawals and the ledger. A query's text is built by a library; the model has what the query says.
pub mod Chain
pub mod Payouts
pub mod Once
use holdem.Prelude.{
  ℕ, suc, ◌+◌, Bool, true, false, ◌&&◌, ◌||◌, not, leb, ◌==◌, if◌then◌else◌, Option, none, some,
  List, [], ◌∷◌, keep_if, Outcome, ok, err, Error, fail_if, or_fail,
}
use holdem.Prelude.Text.{Bytes, bytes_eq, to_lower}
use holdem.Prelude.Int.{ℤ, pos, ◌+ℤ◌, is_negative}
use holdem.Wallet.{
  Account, Balance, LedgerEntry, DepositAddress, LinkChallenge, LinkedAddress, Deposit,
  WithdrawalRequest, FaucetTransfer,
}
use holdem.Database.{
  return, query, exec, with_tx, find_row, exists_row, update_rows, count_rows, order_by, insert_new,
  insert_row, ◌>>=◌, ◌>>◌,
}
use holdem.Wallet.Database.{
  Db, Env, Statement, insert_account, insert_balance, insert_deposit_address, find_balance,
  find_deposit_address, list_linked, insert_challenge, find_challenge, consume_challenge,
  insert_linked, insert_deposit, insert_withdrawal, insert_faucet, find_entry, lock_balance,
  insert_entry, update_balance, Sql,
}

-- the tests of the queries' conditions
abbrev pub has_key : Bytes → LedgerEntry → Bool
has_key k e = bytes_eq e.idempotency_key k

abbrev pub owns_balance : Bytes → Balance → Bool
owns_balance u b = bytes_eq b.user_id u

abbrev pub is_account : Bytes → Account → Bool
is_account u a = bytes_eq a.user_id u

abbrev pub owns_address : Bytes → DepositAddress → Bool
owns_address u a = bytes_eq a.user_id u

abbrev pub unconsumed : LinkChallenge → Bool
unconsumed c = elim c.consumed_at [ none ↦ true | some t ↦ false ]

module _ (env : Env) where
  -- `applyLedgerEntryTx`. A clash of ids or keys at the insert aborts the transaction, so that the return
  -- without an error that the source makes there ends in a commit that fails.
  unfoldable pub apply_ledger_entry_tx : LedgerEntry → Sql (Unit {0})
  apply_ledger_entry_tx e = do
    existing ← query env find_entry (λ db. find_row (has_key e.idempotency_key) db.entries)
    elim existing [
      | some old ↦ return (ok tt)
      | none ↦ (do
        row ← query env lock_balance (λ db. find_row (owns_balance e.user_id) db.balances)
        balance ← return (or_fail row Error.account_not_found)
        return (
            fail_if (is_negative (balance.available_gwei +ℤ e.amount_gwei))
              Error.insufficient_funds)
        insert_row env insert_entry
            (λ db.
              exists_row (λ (o : LedgerEntry). bytes_eq o.id e.id || has_key e.idempotency_key o)
                db.entries)
            Error.commit_failed (λ db. record db { entries = e ∷ db.entries })
        changed ← exec env update_balance (λ db. (
          count_rows (owns_balance e.user_id) db.balances,
          record db {
            balances =
                update_rows (owns_balance e.user_id)
                  (λ b. record b {
                    available_gwei = balance.available_gwei +ℤ e.amount_gwei;
                    updated_at = e.created_at;
                  })
                  db.balances;
          },
        ))
        return (ok tt))
    ]

  -- `ApplyLedgerEntry`
  unfoldable pub apply_ledger_entry : LedgerEntry → Sql (Unit {0})
  apply_ledger_entry e = with_tx env (apply_ledger_entry_tx e)

  -- `ProvisionUser`
  unfoldable pub provision_user : Account → DepositAddress → Sql (Unit {0})
  provision_user account address = with_tx env do
    insert_row env insert_account (λ db. false) Error.statement_failed
        (λ db. record db { accounts = insert_new (is_account account.user_id) account db.accounts })
    insert_row env insert_balance (λ db. false) Error.statement_failed
        (λ db. record db {
          balances =
              insert_new (owns_balance account.user_id)
                (record {
                  user_id = account.user_id;
                  available_gwei = pos 0;
                  updated_at = account.provisioned_at;
                })
                db.balances;
        })
    insert_row env insert_deposit_address
        (λ db.
          not (exists_row (owns_address address.user_id) db.deposit_addresses)
          && exists_row (λ (o : DepositAddress). bytes_eq o.address address.address)
              db.deposit_addresses)
        Error.statement_failed
        (λ db. record db {
          deposit_addresses =
              insert_new (owns_address address.user_id) address db.deposit_addresses;
        })

  -- `GetBalance`
  unfoldable pub get_balance : Bytes → Sql Balance
  get_balance u = do
    row ← query env find_balance (λ db. find_row (owns_balance u) db.balances)
    return (or_fail row Error.account_not_found)

  -- `GetDepositAddress`
  unfoldable pub get_deposit_address : Bytes → Sql DepositAddress
  get_deposit_address u = do
    row ← query env find_deposit_address (λ db. find_row (owns_address u) db.deposit_addresses)
    return (or_fail row Error.account_not_found)

  -- `ListLinkedAddresses`
  unfoldable pub list_linked_addresses : Bytes → Sql (List LinkedAddress)
  list_linked_addresses u = query env list_linked (λ db.
      order_by (λ a b. leb a.created_at b.created_at)
        (keep_if (λ (a : LinkedAddress). bytes_eq a.user_id u) db.linked))

  -- `CreateLinkChallenge`
  unfoldable pub create_link_challenge : LinkChallenge → Sql (Unit {0})
  create_link_challenge c =
      insert_row env insert_challenge
        (λ db.
          exists_row (λ (o : LinkChallenge). bytes_eq o.id c.id) db.challenges
          || not (exists_row (is_account c.user_id) db.accounts))
        Error.statement_failed (λ db. record db { challenges = c ∷ db.challenges })

  -- `FindLinkChallenge`
  unfoldable pub find_link_challenge : Bytes → Bytes → Bytes → Sql LinkChallenge
  find_link_challenge u id address = do
    row ← query env find_challenge (λ db.
        find_row
          (λ (c : LinkChallenge).
            bytes_eq c.id id && bytes_eq c.user_id u && bytes_eq c.address (to_lower address))
          db.challenges)
    c ← return (or_fail row Error.challenge_not_found)
    return (fail_if (not (unconsumed c)) Error.challenge_not_found)
    return (ok c)

  -- `ConfirmLinkChallenge`
  unfoldable pub confirm_link_challenge : Bytes → LinkedAddress → Sql (Unit {0})
  confirm_link_challenge id address = with_tx env do
    changed ← exec env consume_challenge (λ db. (
      count_rows (λ (c : LinkChallenge). bytes_eq c.id id && unconsumed c) db.challenges,
      record db {
        challenges =
            update_rows (λ c. bytes_eq c.id id && unconsumed c)
              (λ c. record c { consumed_at = some env.now }) db.challenges;
      },
    ))
    return (fail_if (changed == 0) Error.challenge_not_found)
    insert_row env insert_linked
        (λ db.
          exists_row
            (λ (o : LinkedAddress).
              bytes_eq o.id address.id
              || (bytes_eq o.user_id address.user_id && bytes_eq o.address address.address))
            db.linked)
        Error.address_already_linked (λ db. record db { linked = address ∷ db.linked })

  -- `CreateConfirmedDeposit`
  unfoldable pub create_confirmed_deposit : Deposit → LedgerEntry → Sql (Unit {0})
  create_confirmed_deposit d e = with_tx env do
    apply_ledger_entry_tx e
    insert_row env insert_deposit
        (λ db.
          not (exists_row (λ (o : Deposit). bytes_eq o.tx_hash d.tx_hash) db.deposits)
          && exists_row (λ (o : Deposit). bytes_eq o.id d.id) db.deposits)
        Error.statement_failed
        (λ db. record db {
          deposits = insert_new (λ o. bytes_eq o.tx_hash d.tx_hash) d db.deposits;
        })

  -- `CreateWithdrawal`
  unfoldable pub create_withdrawal : WithdrawalRequest → LedgerEntry → Sql (Unit {0})
  create_withdrawal w e = with_tx env do
    apply_ledger_entry_tx e
    insert_row env insert_withdrawal
        (λ db. exists_row (λ (o : WithdrawalRequest). bytes_eq o.id w.id) db.withdrawals)
        Error.statement_failed (λ db. record db { withdrawals = w ∷ db.withdrawals })

  -- `CreateFaucetTransfer`
  unfoldable pub create_faucet_transfer : FaucetTransfer → Sql (Unit {0})
  create_faucet_transfer t =
      insert_row env insert_faucet
        (λ db.
          exists_row (λ (o : FaucetTransfer). bytes_eq o.id t.id) db.faucet_transfers
          || not (exists_row (is_account t.target_user_id) db.accounts))
        Error.statement_failed (λ db. record db { faucet_transfers = t ∷ db.faucet_transfers })

  -- `ListDeposits`, `ListWithdrawals` and `ListFaucetTransfers`, the newest first
  unfoldable pub list_deposits : Bytes → Sql (List Deposit)
  list_deposits u = query env Statement.list_deposits (λ db.
      order_by (λ a b. leb b.created_at a.created_at)
        (keep_if (λ (d : Deposit). bytes_eq d.user_id u) db.deposits))

  unfoldable pub list_withdrawals : Bytes → Sql (List WithdrawalRequest)
  list_withdrawals u = query env Statement.list_withdrawals (λ db.
      order_by (λ a b. leb b.created_at a.created_at)
        (keep_if (λ (w : WithdrawalRequest). bytes_eq w.user_id u) db.withdrawals))

  unfoldable pub list_faucet_transfers : Sql (List FaucetTransfer)
  list_faucet_transfers =
      query env Statement.list_faucet
        (λ db. order_by (λ a b. leb b.created_at a.created_at) db.faucet_transfers)

-- ===== src/Wallet/Repository/Payouts.antt =====
-- services/wallet-service/internal/infrastructure/repository/postgres/repository_chain.go: the withdrawals and faucet
-- transfers that the worker reads and marks.
use holdem.Prelude.{
  ℕ, Bool, true, false, ◌&&◌, not, leb, ◌==◌, if◌then◌else◌, some, List, keep_if, ok,
}
use holdem.Prelude.Text.{Bytes, bytes_eq}
use holdem.Wallet.{LedgerEntry, WithdrawalRequest, FaucetTransfer, TransferStatus}
use holdem.Database.{return, query, exec, with_tx, update_rows, count_rows, order_by, ◌>>=◌}
use holdem.Wallet.Database.{Env, Statement, Sql}
use holdem.Wallet.Repository.{apply_ledger_entry_tx}
use holdem.Wallet.Repository.Chain.{update}

abbrev pub is_pending : TransferStatus → Bool
is_pending TransferStatus.pending = true
is_pending TransferStatus.submitted = false
is_pending TransferStatus.confirmed = false
is_pending TransferStatus.failed = false

abbrev pub is_submitted : TransferStatus → Bool
is_submitted TransferStatus.submitted = true
is_submitted TransferStatus.pending = false
is_submitted TransferStatus.confirmed = false
is_submitted TransferStatus.failed = false

abbrev pub is_failed : TransferStatus → Bool
is_failed TransferStatus.failed = true
is_failed TransferStatus.pending = false
is_failed TransferStatus.submitted = false
is_failed TransferStatus.confirmed = false

abbrev pub is_withdrawal : Bytes → WithdrawalRequest → Bool
is_withdrawal id w = bytes_eq w.id id

abbrev pub is_faucet : Bytes → FaucetTransfer → Bool
is_faucet id t = bytes_eq t.id id

module _ (env : Env) where
  -- `listWithdrawalsByStatus` for `ListPendingWithdrawals` and `ListSubmittedWithdrawals`
  abbrev pub list_withdrawals_by : (TransferStatus → Bool) → Sql (List WithdrawalRequest)
  list_withdrawals_by test = query env Statement.list_withdrawals (λ db.
      order_by (λ a b. leb a.updated_at b.updated_at)
        (keep_if (λ (w : WithdrawalRequest). test w.status) db.withdrawals))

  abbrev pub list_faucet_transfers_by : (TransferStatus → Bool) → Sql (List FaucetTransfer)
  list_faucet_transfers_by test = query env Statement.list_faucet (λ db.
      order_by (λ a b. leb a.updated_at b.updated_at)
        (keep_if (λ (t : FaucetTransfer). test t.status) db.faucet_transfers))

  abbrev pub update_withdrawals : Bytes → (WithdrawalRequest → WithdrawalRequest) → Sql (Unit {0})
  update_withdrawals id f =
      update env Statement.mark_withdrawal
        (λ db. record db { withdrawals = update_rows (is_withdrawal id) f db.withdrawals })

  -- `MarkWithdrawalSubmitted`
  unfoldable pub mark_withdrawal_submitted : Bytes → Bytes → ℕ → ℕ → Sql (Unit {0})
  mark_withdrawal_submitted id hash nonce at = update_withdrawals id (λ w. record w {
    status = TransferStatus.submitted;
    tx_hash = some hash;
    nonce = some nonce;
    submitted_at = some at;
    updated_at = at;
  })

  -- `MarkWithdrawalConfirmed`
  unfoldable pub mark_withdrawal_confirmed : Bytes → ℕ → Sql (Unit {0})
  mark_withdrawal_confirmed id at =
      update_withdrawals id (λ w. record w {
        status = TransferStatus.confirmed;
        confirmed_at = some at;
        updated_at = at;
      })

  abbrev pub unfailed : Bytes → WithdrawalRequest → Bool
  unfailed id w = is_withdrawal id w && not (is_failed w.status)

  -- `MarkWithdrawalFailed`
  unfoldable pub mark_withdrawal_failed : Bytes → Bytes → LedgerEntry → ℕ → Sql (Unit {0})
  mark_withdrawal_failed id reason e at = with_tx env do
    changed ← exec env Statement.mark_withdrawal (λ db. (
      count_rows (unfailed id) db.withdrawals,
      record db {
        withdrawals =
            update_rows (unfailed id)
              (λ w. record w {
                status = TransferStatus.failed;
                failure_reason = some reason;
                updated_at = at;
              })
              db.withdrawals;
      },
    ))
    if changed == 0 then return (ok tt) else apply_ledger_entry_tx env e

  abbrev pub update_faucet_transfers : Bytes → (FaucetTransfer → FaucetTransfer) → Sql (Unit {0})
  update_faucet_transfers id f =
      update env Statement.mark_faucet
        (λ db. record db { faucet_transfers = update_rows (is_faucet id) f db.faucet_transfers })

  -- `MarkFaucetTransferSubmitted`
  unfoldable pub mark_faucet_transfer_submitted : Bytes → Bytes → ℕ → ℕ → Sql (Unit {0})
  mark_faucet_transfer_submitted id hash nonce at = update_faucet_transfers id (λ t. record t {
    status = TransferStatus.submitted;
    tx_hash = some hash;
    nonce = some nonce;
    submitted_at = some at;
    updated_at = at;
  })

  -- `MarkFaucetTransferConfirmed`
  unfoldable pub mark_faucet_transfer_confirmed : Bytes → ℕ → Sql (Unit {0})
  mark_faucet_transfer_confirmed id at =
      update_faucet_transfers id (λ t. record t {
        status = TransferStatus.confirmed;
        confirmed_at = some at;
        updated_at = at;
      })

  -- `MarkFaucetTransferFailed`
  unfoldable pub mark_faucet_transfer_failed : Bytes → Bytes → ℕ → Sql (Unit {0})
  mark_faucet_transfer_failed id reason at = update_faucet_transfers id (λ t. record t {
    status = TransferStatus.failed;
    failure_reason = some reason;
    updated_at = at;
  })

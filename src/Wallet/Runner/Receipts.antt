-- ===== src/Wallet/Runner/Receipts.antt =====
-- services/wallet-service/internal/chain/runner.go: the second cycle of the worker, which reads the receipts of what was
-- submitted.
use holdem.Prelude.{if◌then◌else◌, Option, none, some, ◌++◌, ok}
use holdem.Prelude.Text.{Bytes}
use holdem.Prelude.Ascii.{ascii}
use holdem.Wallet.{LedgerEntry, WithdrawalRequest, withdrawal_compensation_credit}
use holdem.Wallet.Database.{Env, IdPrefix}
use holdem.Wallet.Repository.Chain.{
  list_submitted_sweeps, mark_deposit_sweep_confirmed, mark_deposit_sweep_failed,
}
use holdem.Wallet.Repository.Payouts.{
  list_withdrawals_by, list_faucet_transfers_by, is_submitted, mark_withdrawal_confirmed,
  mark_withdrawal_failed, mark_faucet_transfer_confirmed, mark_faucet_transfer_failed,
}
use holdem.Wallet.Runner.{Config, Client, Work, return, ◌>>=◌, ◌>>◌, stored, for_each, new_id}

module _ (cfg : Config) (client : Client) (env : Env) where
  -- what a receipt leads to, if there is one
  unfoldable pub on_receipt : Option Bytes → Work (Unit {0}) → Work (Unit {0}) → Work (Unit {0})
  on_receipt none success failure = return (ok tt)
  on_receipt (some hash) success failure = do
    receipt ← return (client.receipt hash)
    elim receipt [ none ↦ return (ok tt) | some good ↦ if good then success else failure ]

  -- `confirmSweepReceipts`
  unfoldable pub confirm_sweep_receipts : Work (Unit {0})
  confirm_sweep_receipts = do
    deposits ← stored (list_submitted_sweeps env)
    for_each deposits (λ d.
        on_receipt d.sweep_tx_hash (stored (mark_deposit_sweep_confirmed env d.tx_hash env.now)) (
          stored
            (mark_deposit_sweep_failed env d.tx_hash (ascii "sweep transaction failed") env.now)))

  -- the refund of a withdrawal
  abbrev pub refund : WithdrawalRequest → Bytes → LedgerEntry
  refund w id = record {
    id = id;
    user_id = w.user_id;
    entry_kind = withdrawal_compensation_credit;
    amount_gwei = w.amount_gwei;
    reference_id = w.id;
    idempotency_key = ascii "withdrawal-compensation:" ++ w.id;
    created_at = env.now;
  }

  -- `confirmWithdrawalReceipts`
  unfoldable pub confirm_withdrawal_receipts : Work (Unit {0})
  confirm_withdrawal_receipts = do
    withdrawals ← stored (list_withdrawals_by env is_submitted)
    for_each withdrawals (λ w.
        on_receipt w.tx_hash (stored (mark_withdrawal_confirmed env w.id env.now)) (do
          id ← new_id env IdPrefix.ledger
          stored (
              mark_withdrawal_failed env w.id (ascii "withdrawal transaction failed") (refund w id)
                env.now)))

  -- `confirmFaucetTransferReceipts`
  unfoldable pub confirm_faucet_transfer_receipts : Work (Unit {0})
  confirm_faucet_transfer_receipts = do
    transfers ← stored (list_faucet_transfers_by env is_submitted)
    for_each transfers (λ t.
        on_receipt t.tx_hash (stored (mark_faucet_transfer_confirmed env t.id env.now)) (
          stored (
            mark_faucet_transfer_failed env t.id (ascii "faucet transfer transaction failed")
              env.now)))

  -- `processReceipts`
  unfoldable pub process_receipts : Work (Unit {0})
  process_receipts = do
    confirm_sweep_receipts
    confirm_withdrawal_receipts
    confirm_faucet_transfer_receipts
